-- ===== src/Listener.antt =====
-- mod/fs_mod_kafka_listener.c: topics of Kafka, and the programs that their messages start. librdkafka
-- is a parameter.
pub mod Config
pub mod Poll
pub mod Proc
use folksong.Prelude.{ℕ, Bool, Option, List, [], ◌∷◌, Bytes, codes}
use folksong.Args.{Args}
use folksong.Arr.{Arr}
use folksong.Cmd.{Cmd, block_cmd, param_cmd, subblock_cmd}
use folksong.Str.{Str}

-- librdkafka: whether each call succeeds
pub record Consumer : Type 0 where
  pub conf_set : Bytes → Bytes → Bool
  pub new : Bool
  pub subscribe : List Bytes → Bool

-- `fs_mod_kafka_listener_topic_s`; `args` is `proc_options.args`, which `file` goes with, and `none`
-- where nothing was written
pub record Topic : Type 0 where
  pub topic : Str
  pub args : Option Args
  pub proc_flag : Bool

-- `fs_mod_kafka_listener_s`; `topics` is `topic`, `rk` says whether it is not NULL, and `looped`
-- whether `loop` was written
pub record Listener : Type 0 where
  pub topics : Option (Arr Topic)
  pub rk : Bool
  pub looped : Bool

-- the handlers' numbers
abbrev pub kafka_block : ℕ
kafka_block = 200

abbrev pub cmd_config : ℕ
cmd_config = 201

abbrev pub cmd_topic : ℕ
cmd_topic = 202

abbrev pub cmd_exec : ℕ
cmd_exec = 203

abbrev pub commands : List Cmd
commands =
    block_cmd (codes "kafka") kafka_block
    ∷ param_cmd (codes "config") cmd_config
    ∷ subblock_cmd (codes "topic") cmd_topic
    ∷ param_cmd (codes "exec") cmd_exec
    ∷ []
