-- ===== src/Args.antt =====
-- The argument vector that `exec` builds in mod/fs_mod_timer.c and mod/fs_mod_kafka_listener.c.
pub mod Overrun
use folksong.Prelude.{
  ℕ, zero, suc, ◌+◌, ◌-◌, ◌*◌, ◌/◌, ◌%◌, ◌^◌, Option, none, some, ◌==◌, if◌then◌else◌,
}
use folksong.Arr
use folksong.Arr.{Arr, Malloc}
use folksong.Str.{Str}

-- A block of `slots` pointers, with the cells written inside it or behind it: `some none` is a
-- NULL, `none` a cell that nothing wrote.
pub record Args : Type 0 where
  pub slots : ℕ
  pub cell : ℕ → Option (Option Str)

abbrev pub write : ℕ → Option Str → Args → Args
write i v a = record a { cell = λ j. if j == i then some v else a.cell j }

-- `for (i = 1; i < count; i++) args[i - 1] = tokens[i]`, with the rounds left; then
-- `args[i] = NULL`. `none` is a token that is not there.
unfoldable pub fill : ℕ → ℕ → Arr Str → Args → Option Args
fill zero i tokens a = some (write i none a)
fill (suc k) i tokens a = elim (Arr.nth tokens i) [
  | none ↦ none
  | some s ↦ fill k (i + 1) tokens (write (i - 1) (some s) a)
]

-- the block for the vector, and the vector; `file` is token 1, whose text is read first. `none` is
-- also the NULL of a failed allocation, written through.
unfoldable pub build : Malloc → Arr Str → Option Args
unfolding fill
build malloc tokens =
    let size = (8 * tokens.ele_count) % 2 ^ 64 in
    if malloc size
    then elim (Arr.nth tokens 1) [
      | none ↦ none
      | some file ↦
          fill (tokens.ele_count - 1) 1 tokens (record { slots = size / 8; cell = λ _. none })
    ]
    else none
