-- ===== src/Tests/Timers.antt =====
-- A `timer` block.
use folksong.Prelude.{true, ◌≢◌, some, [], ◌∷◌, List, String}
use folksong.Arr.{Arr}
use folksong.Str.{Str}
use folksong.Tests.Fixtures.{plenty, word, three_tokens}
use folksong.Timer.{Timer, fresh}
use folksong.Timer.Block.{Statement, timeout, exec, configure, configure-ne-ok}
use folksong.Token.{ok}

abbrev time : String → Arr Str
time s = record {
  elems = some (word "timeout") ∷ some (word s) ∷ [];
  ele_capa = 2;
  ele_count = 2;
  ele_size = 16;
}

-- `timeout 5s; exec echo hi;`
abbrev block : List Statement
block = timeout (time "5s") ∷ exec three_tokens ∷ []

abbrev armed : Timer
armed = record fresh { timeout = 5_000; timeout_flag = true; cb_flag = true }

configure-ne-ok_example : configure plenty.malloc block fresh ≢ some (ok, armed)
configure-ne-ok_example = configure-ne-ok plenty.malloc block armed
