-- ===== src/Lib.antt =====
-- Folksong, a sidecar gateway over libuv: its core library, the interpreter of its configuration
-- language, and its modules, as definitions and theorems.
--
-- The program. `main` (src/core/folksong.c) reads a configuration, from the command line or from a
-- file, and then runs libuv's loop. `fs_conf_parse` (src/core/fs_conf.c) takes one statement at a
-- time from the lexer, `fs_conf_next_token`, and hands it to `fs_conf_handle`, which looks its name
-- up among the commands of the modules and keeps a stack of open blocks (src/core/fs_run.h). The
-- modules (src/mod) answer their commands by filling their contexts, and start their events when the
-- configuration has been read.
--
-- Files and code:
--   Prelude       numbers, lists, options, bytes
--   Os            what the operating system answers, as a record of functions
--   Arr           src/core/fs_arr.h, fs_arr.c: growing arrays; Arr/Push and Arr/Grow, their invariant
--   Queue         src/core/fs_queue.h: rings of nodes; Queue/Ring, the list that a ring stands for
--   Str           src/core/fs_str.h: windows of memory; Str/Prefix, what their comparison decides
--   File          src/core/fs_buf.h, fs_buf.c, fs_file.h, fs_file.c: buffers over files
--   Cmd           src/core/fs_cmd.h: commands
--   Run           src/core/fs_run.h, fs_run.c: the stack of open blocks and their contexts
--   Token         src/core/fs_conf.c: one byte of `fs_conf_next_token`
--   Unescape      src/core/fs_conf.c: the copy of a token out of the buffer
--   Lexer         src/core/fs_conf.c: the loop of `fs_conf_next_token`
--   Conf          src/core/fs_mod.h, fs_mod.c, fs_conf.h: modules and the state of a run;
--                 Conf/Contexts, Conf/Handle and Conf/Parse, `fs_conf_handle` and `fs_conf_parse`;
--                 Conf/Stack and Conf/Unknown, what becomes of a statement, and Conf/Handle/Source,
--                 what it leaves of the lexer; Conf/Parse/Printed, Whole and Balance, a whole
--                 configuration
--   Var           src/core/fs_var.c: texts with variables; Var/Cut, the pieces of a text
--   Args          src/mod/fs_mod_timer.c, fs_mod_kafka_listener.c: the arguments of `exec`
--   Timer         src/mod/fs_mod_timer.c: timers; Timer/Time, their times, and Timer/Block, a whole
--                 block
--   Http          src/mod/fs_mod_http.h, fs_mod_http.c: the request and the parser's callbacks;
--                 Http/Append, pieces of a text; Http/Message, the routes and the callbacks of a
--                 message (Collect, the request; Pieces, its texts in
--                 pieces; Choose, its route; Answer, the response); Http/Server, configuration
--                 and start; Http/Wire, reads, writes and closing; Http/Release, what is freed then
--   Publisher     src/mod/http/kafka.c: requests that become Kafka messages; Publisher/Config, the
--                 handlers of its commands, Publisher/Request, the callbacks of a request, and
--                 Publisher/Serve, the route for Http/Message that they make;
--                 Publisher/Release, its connections' release
--   Proxy         src/mod/http/proxy.c: the path that a request is to be passed on with;
--                 Proxy/Config, the handlers of its commands, Proxy/Configured, what the
--                 texts they accept lead to, and Proxy/Serve, its route
--   Listener      src/mod/fs_mod_kafka_listener.c: messages that start programs; Listener/Config, the
--                 configuration, Listener/Poll, the messages, and Listener/Proc, a program's callbacks
--   Main          src/core/folksong.c: the command line; Main/Options, which argument decides;
--                 Main/Typed, statements on the command line
--   Version       src/mod/fs_mod_version.c: the text that is printed at the start
--   Tests         concrete runs
--
-- Conventions. Fields and locals are named as in the code. `int` and `size_t` fields are naturals with
-- their wrap-around written out. A pointer into a block is an offset; a read or a write outside a
-- block, or through NULL, is `none` or `fault`, and so is an overflow of a signed product. Args keeps the
-- cell that `exec` writes behind its block: Timer ends there, and Listener follows the vector on, so that
-- what a message meets in it can be said. Contents of fresh memory, and locals that are read
-- before they are set, are parameters. `malloc` is a function from a size to whether it succeeds; what
-- is released is not tracked, except for the block of the context array, whose generation is part of
-- every pointer into it, for the block of a started program (Listener/Proc), and for what goes with a
-- connection (Http/Release). Modules are given to the interpreter by their commands and handlers, since
-- the list `global_mods` is made by the build.
--
-- Fuel. Lexer.next_token takes a number of rounds; every round takes a byte, so that one more than the
-- bytes in the buffer and in the file is enough (Lexer/Fuel). Conf/Parse gives each call that number,
-- and takes a number of statements of its own, of which one more than there are bytes is enough
-- (Conf/Parse/Ends).
--
-- Interfaces. Http/Message takes a route as a record of callbacks, and Http/Message/Answer relies on what
-- its record Lawful promises; Publisher/Serve fills that record for a Kafka route, and Proxy/Serve for a
-- proxy with a plain path. Http/Wire takes the
-- HTTP parser as a record, and its theorems the callbacks that the parser makes for given reads.
--
-- Not modelled: what libuv, librdkafka, libpcre and the HTTP parser do themselves, and log
-- output.
-- The handles of libuv are not tracked but for the calls of uv_close.
-- `fs_conf_parse` is modelled up to the release of its file: the `conf->file` that it then puts back, which
-- nothing reads any more, is not.
pub mod Prelude
pub mod Arr
pub mod Queue
pub mod Str
pub mod Os
pub mod File
pub mod Token
pub mod Unescape
pub mod Lexer
pub mod Var
pub mod Cmd
pub mod Run
pub mod Conf
pub mod Args
pub mod Timer
pub mod Http
pub mod Listener
pub mod Proxy
pub mod Main
pub mod Version
pub mod Tests
pub mod Publisher
