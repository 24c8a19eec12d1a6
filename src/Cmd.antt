-- ===== src/Cmd.antt =====
-- core/fs_cmd.h: the commands that a module offers to the configuration language.
use folksong.Prelude.{ℕ, Bool, true, false, ◌==◌, Bytes}
use folksong.Str.{Str, literal, str_empty}

-- `fs_cmd_s`; `call` names the handler.
pub record Cmd : Type 0 where
  pub token : Str
  pub call : ℕ
  pub block : Bool
  pub child : Bool

abbrev pub is_end : Cmd → Bool
is_end c = str_empty c.token

abbrev pub equal : Cmd → ℕ → Bool
equal c call = c.call == call

abbrev pub single_cmd : Bytes → ℕ → Cmd
single_cmd token call = record { token = literal token; call = call; block = false; child = false }

abbrev pub block_cmd : Bytes → ℕ → Cmd
block_cmd token call = record { token = literal token; call = call; block = true; child = false }

abbrev pub param_cmd : Bytes → ℕ → Cmd
param_cmd token call = record { token = literal token; call = call; block = false; child = true }

abbrev pub subblock_cmd : Bytes → ℕ → Cmd
subblock_cmd token call = record { token = literal token; call = call; block = true; child = true }
