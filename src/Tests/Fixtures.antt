-- ===== src/Tests/Fixtures.antt =====
-- A machine with memory, and a statement in memory.
use folksong.Prelude.{true, none, some, ◌∷◌, [], length, Bytes, replicate, codes, String}
use folksong.Arr.{Arr}
use folksong.Cmd.{Cmd, block_cmd}
use folksong.Os.{Os}
use folksong.Lexer.{Source}
use folksong.Str.{Str}
use folksong.Str.Prefix.{token_of}

abbrev pub plenty : Os
plenty = record {
  malloc = λ _. true;
  fill = 0xaa;
  opens = λ _. true;
  st_size = 0;
  seeks = λ _. true;
  read = λ _ _. none;
  stray = true;
}

abbrev pub no_tokens : Arr Str
no_tokens = record { elems = replicate 3 none; ele_capa = 3; ele_count = 0; ele_size = 16 }

abbrev pub in_memory : Bytes → Source
in_memory text = record {
  tokens = no_tokens;
  file = record {
    fd_invalid = true;
    st_size = 0;
    buf = record { buf_len = length text; mem = text; pos = 0; last = length text };
    off = 0;
    line = 1;
  };
}

abbrev pub word : String → Str
word s = token_of (codes s) []

-- `exec echo hi;`
abbrev pub three_tokens : Arr Str
three_tokens = record {
  elems = some (word "exec") ∷ some (word "echo") ∷ some (word "hi") ∷ [];
  ele_capa = 3;
  ele_count = 3;
  ele_size = 16;
}

abbrev pub timer_cmd : Cmd
timer_cmd = block_cmd (codes "timer") 100
