-- ===== src/Conf/Parse.antt =====
-- `fs_conf_parse` and `fs_conf_parse_cmdline` of core/fs_conf.c, and the macros `fs_conf` and
-- `fs_conf_file` of core/fs_conf.h.
pub mod Ends
pub mod Printed
pub mod Whole
pub mod Balance
use folksong.Prelude.{
  ℕ, zero, suc, ◌+◌, ◌-◌, Bool, true, false, not, Option, none, some, List, if◌then◌else◌, ◌==◌,
}
use folksong.Conf.{Conf, Mod, gmod_init, gmod_inited}
use folksong.Conf.Handle.{Handled, handled, handle}
use folksong.Conf.Handle
use folksong.File.{File, buf_alloc}
use folksong.Lexer
use folksong.Lexer.{Source, Outcome, done, next_token}
use folksong.Os.{Os}
use folksong.Str.{Str, c_string}
use folksong.Token.{Ret, ok, error, file_done_ret, is_ok}

-- FS_CONF_PAYLOAD_BUFFER_SIZE
abbrev pub payload_buffer_size : ℕ
payload_buffer_size = 4096

-- FS_PARSE_FILE, FS_PARSE_BLOCK and FS_PARSE_PARAM
pub data Status : Type 0 where
  parse_file parse_block parse_param : Status

pub data Result (W : Type 0) : Type 0 where
  returned : Ret → Conf W → Result W
  fault : Result W
  out_of_fuel : Result W

-- the bytes of a file that are not taken yet: one more is fuel for `next_token`
abbrev pub unread : File → ℕ
unread f = (f.buf.last - f.buf.pos) + (f.st_size - f.off)

-- `if (ret == FS_CONF_FILE_DONE)`
abbrev pub at_end : Status → Ret
at_end parse_block = error
at_end _ = ok

module _ {W : Type 0} (os : Os) (mods : List (Mod W)) (status : Status) where
  abbrev pub with_source : Conf W → Source → Conf W
  with_source c s = record c { source = s }

  -- behind `fs_conf_handle`
  abbrev pub handled_next : (Conf W → Result W) → Handled W → Result W
  handled_next rest Handle.fault = fault
  handled_next rest (handled ret c) = let r = rest c in if is_ok ret then r else returned error c

  -- behind `fs_conf_next_token`
  abbrev pub token_next : (Conf W → Result W) → Conf W → Outcome → Result W
  token_next rest c Lexer.fault = fault
  token_next rest c Lexer.out_of_fuel = out_of_fuel
  token_next rest c (done error s) = returned error (with_source c s)
  token_next rest c (done file_done_ret s) = returned (at_end status) (with_source c s)
  token_next rest c (done ret s) = handled_next rest (handle os mods ret (with_source c s))

  -- `for ( ;; )`
  unfoldable pub parse_loop : ℕ → Conf W → Result W
  unfolding next_token handle
  parse_loop zero c = out_of_fuel
  parse_loop (suc k) c =
      token_next (parse_loop k) c (next_token os (suc (unread c.source.file)) c.source)

-- the file of a call with a name: its buffer is empty, so that the first round fills it
unfoldable pub opened : Os → File
unfolding buf_alloc
opened os =
    let buf = buf_alloc os payload_buffer_size in
    record {
      fd_invalid = false;
      st_size = os.st_size;
      buf = record buf { pos = buf.last };
      off = 0;
      line = 1;
    }

abbrev pub with_file : {W : Type 0} → Conf W → File → Conf W
with_file c f = record c { source = record c.source { file = f } }

module _ {W : Type 0} (os : Os) (mods : List (Mod W)) where
  -- `fs_conf_parse`, up to the release of the file: the old `conf->file`, which nothing reads behind that,
  -- is not put back
  unfoldable pub parse : ℕ → Conf W → Option Str → Result W
  unfolding parse_loop opened
  parse fuel c (some filename) =
      if os.opens (c_string filename.mem)
      then parse_loop os mods parse_file fuel (with_file c (opened os))
      else returned error c
  parse fuel c none =
      let status = if not c.source.file.fd_invalid then parse_block else parse_param in
      parse_loop os mods status fuel (with_file c (record c.source.file { line = 1 }))

  -- `fs_conf_parse_cmdline`: the text is the buffer of a file that cannot be read
  unfoldable pub parse_cmdline : ℕ → Conf W → Str → Result W
  unfolding parse
  parse_cmdline fuel c cmdline =
      if cmdline.size == 0
      then returned ok c
      else parse fuel
          (with_file c (record {
            fd_invalid = true;
            st_size = 0;
            buf = record { buf_len = 0; mem = cmdline.mem; pos = 0; last = cmdline.size };
            off = 0;
            line = 0;
          }))
          none

  -- `conf->valid` stays as it was where the parse fails; here, as `valid` is given
  abbrev pub conclude : Bool → Result W → Option (Bool × Conf W)
  conclude valid (returned ret c) =
      if is_ok ret then some (true, gmod_inited mods c.mods c) else some (valid, c)
  conclude valid _ = none

  unfoldable pub conf : ℕ → Bool → Conf W → Str → Option (Bool × Conf W)
  unfolding parse_cmdline gmod_init gmod_inited
  conf fuel valid c cmdline =
      conclude valid (parse_cmdline fuel (record c { mods = gmod_init c.mods }) cmdline)

  unfoldable pub conf_file : ℕ → Bool → Conf W → Str → Option (Bool × Conf W)
  unfolding parse gmod_init gmod_inited
  conf_file fuel valid c filename =
      conclude valid (parse fuel (record c { mods = gmod_init c.mods }) (some filename))
