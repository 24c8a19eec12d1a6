-- ===== src/Args/Overrun.antt =====
-- What `exec` leaves in its argument vector.
use folksong.Prelude.{
  sym, ℕ, zero, suc, ◌+◌, ◌-◌, ◌*◌, ◌%◌, ◌/◌, ◌^◌, ◌≡◌, ◌≢◌, ◌≤◌, ◌<◌, refl, true, none, some, ◌==◌,
  arith, ap, ◌∙◌, Bool-cases, Option-cases, inl, inr,
}
use folksong.Arr
use folksong.Arr.{Arr, Malloc}
use folksong.Str.{Str}
use folksong.Args.{Args, write, fill, build}

-- every token from `i` on, `k` of them, is there
abbrev pub Present : ℕ → ℕ → Arr Str → Type 0
Present zero i tokens = Unit
Present (suc k) i tokens = (Arr.nth tokens i ≢ none) × Present k (i + 1) tokens

-- The vector behind the loop and the NULL: the cells below `i - 1` as they were, then the `k`
-- tokens from `i` on, one cell that is left out, and the NULL.
record Filled (k i : ℕ) (tokens : Arr Str) (a a' : Args) : Type 0 where
  slots : a'.slots ≡ a.slots
  before : (j : ℕ) → suc j < i → a'.cell j ≡ a.cell j
  words : (j : ℕ) → i ≤ suc j → suc j < i + k → a'.cell j ≡ some (Arr.nth tokens (suc j))
  skipped : a'.cell (i + k - 1) ≡ a.cell (i + k - 1)
  null : a'.cell (i + k) ≡ some none

fill-Filled :
    (k i : ℕ) (tokens : Arr Str) (a : Args)
    → 0 < i
    → Present k i tokens
    → (a' : Args) × (fill k i tokens a ≡ some a') × Filled k i tokens a a'
unfolding fill
fill-Filled zero i tokens a pos there = (
  write i none a,
  refl,
  record {
    slots = refl;
    before = λ j l. ground arith;
    words = λ j l m. absurd (omega arith);
    skipped = ground arith;
    null = ground arith;
  },
)
fill-Filled (suc k) i tokens a pos there = elim (Option-cases (Arr.nth tokens i)) [
  | inl missing ↦ absurd (there.0 missing)
  | inr (s, e) ↦
      let (a', r, f) =
        fill-Filled k (i + 1) tokens (write (i - 1) (some s) a) (omega arith) there.1 in
      (
        a',
        rw (e, fill) r,
        record {
          slots = Filled.slots f;
          before = λ j l. Filled.before f j (omega arith) ∙ ground arith;
          words = λ j l m. elim (Bool-cases (suc j == i)) [
            | inl here ↦
                let at : suc j ≡ i = ground arith in
                Filled.before f j (omega arith) ∙ rw (at, e) (ground arith)
            | inr later ↦ Filled.words f j (ground arith) (omega arith)
          ];
          skipped =
              let same : i + suc k - 1 ≡ (i + 1) + k - 1 = omega arith in
              ap a'.cell same ∙ Filled.skipped f ∙ rw same (ground arith);
          null =
              let same : i + suc k ≡ (i + 1) + k = omega arith in ap a'.cell same ∙ Filled.null f;
        },
      )
]

Present-first :
    (n : ℕ) (tokens : Arr Str) → 1 < n → Present (n - 1) 1 tokens → Arr.nth tokens 1 ≢ none
Present-first zero tokens h p = absurd (omega arith)
Present-first (suc zero) tokens h p = absurd (omega arith)
Present-first (suc (suc n)) tokens h p =
    let count : suc (suc n) - 1 ≡ suc n = omega arith in
    let there : Present (suc n) 1 tokens = rw count at p in there.0

-- a vector whose end lies behind its block
pub record Overruns (tokens : Arr Str) (a : Args) : Type 0 where
  pub slots : a.slots ≡ tokens.ele_count
  pub words : (j : ℕ) → suc j < tokens.ele_count → a.cell j ≡ some (Arr.nth tokens (suc j))
  pub last_unset : a.cell (tokens.ele_count - 1) ≡ none
  pub null_outside : a.cell tokens.ele_count ≡ some none

-- The vector of an `exec` statement of `n` tokens, a command among them and all written, when there is
-- memory for it: its block has `n` cells, the words
-- behind the name fill the first `n - 1`, nothing is written to the last, and the NULL that is to
-- end the vector is written to cell `n`, behind the block.
pub build-Overruns :
    (malloc : Malloc) (tokens : Arr Str)
    → ((k : ℕ) → malloc k ≡ true)
    → 1 < tokens.ele_count
    → tokens.ele_count < 2 ^ 31
    → Present (tokens.ele_count - 1) 1 tokens
    → (a : Args) × (build malloc tokens ≡ some a) × Overruns tokens a
unfolding build
build-Overruns malloc tokens got pos small there =
    let n = tokens.ele_count in
    let empty : Args = record { slots = (8 * n) % 2 ^ 64 / 8; cell = λ _. none } in
    let (a, r, f) = fill-Filled (n - 1) 1 tokens empty (omega arith) there in
    let count : 1 + (n - 1) ≡ n = omega arith in
    let built : build malloc tokens ≡ some a = elim (Option-cases (Arr.nth tokens 1)) [
      | inl missing ↦ absurd (Present-first n tokens pos there missing)
      | inr (file, e) ↦ rw (build, got ((8 * n) % 2 ^ 64), e) r
    ] in
    (
      a,
      built,
      record {
        slots = Filled.slots f ∙ omega arith;
        words = λ j l. Filled.words f j (omega arith) (omega arith);
        last_unset = rw count at (Filled.skipped f);
        null_outside = rw count at (Filled.null f);
      },
    )

fill-slots :
    (k i : ℕ) (tokens : Arr Str) (a a' : Args) → fill k i tokens a ≡ some a' → a'.slots ≡ a.slots
unfolding fill
fill-slots zero i tokens a a' e =
    let same : write i none a ≡ a' = cc in ap (λ b. b.slots) (sym same)
fill-slots (suc k) i tokens a a' e = elim (Option-cases (Arr.nth tokens i)) [
  | inl missing ↦ absurd (cc (rw (fill, missing) at e))
  | inr (s, here) ↦ fill-slots k (i + 1) tokens (write (i - 1) (some s) a) a' (rw (fill, here) at e)
]

-- The block of a vector has no more cells than its statement has tokens.
pub build-slots :
    (malloc : Malloc) (tokens : Arr Str) (a : Args)
    → build malloc tokens ≡ some a
    → a.slots ≤ tokens.ele_count
unfolding build
build-slots malloc tokens a e = elim (Bool-cases (malloc ((8 * tokens.ele_count) % 2 ^ 64))) [
  | inr refused ↦ absurd (cc (rw refused at e))
  | inl got ↦ elim (Option-cases (Arr.nth tokens 1)) [
    | inl missing ↦ absurd (cc (rw (got, missing) at e))
    | inr (s, here) ↦
        omega (arith, fill-slots (tokens.ele_count - 1) 1 tokens _ a (rw (got, here) at e))
  ]
]
