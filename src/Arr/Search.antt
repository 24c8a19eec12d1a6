-- ===== src/Arr/Search.antt =====
-- The loops that look through an array for the first element that passes a test.
use folksong.Prelude.{
  ℕ, zero, suc, ◌+◌, ◌≤◌, ◌<◌, ◌≡◌, ◌≢◌, ◌↔◌, sym, ap, ◌∙◌, Bool, true, Option, none, some, arith,
  ◌==◌, if◌then◌else◌, Bool-cases, Option-cases, inl, inr,
}
use folksong.Arr
use folksong.Arr.{Arr}

-- an answer of the search that is defined and below `b`
abbrev pub Within : ℕ → Option (Option ℕ) → Type 0
Within b none = ⊥
Within b (some none) = Unit
Within b (some (some i)) = i < b

module _ {A : Type 0} where
  -- `for (; n < count; n++)`, with the rounds left: the first place from `n` on whose element passes;
  -- the outer `none` is a slot that nothing wrote
  unfoldable pub search : (A → Bool) → ℕ → ℕ → Arr A → Option (Option ℕ)
  search test zero n arr = some none
  search test (suc k) n arr = elim (Arr.nth arr n) [
    | none ↦ none
    | some x ↦ let rest = search test k (n + 1) arr in if test x then some (some n) else rest
  ]

  -- every slot from `n` up to `b` was written
  abbrev pub Filled : ℕ → ℕ → Arr A → Type 0
  Filled n b arr = (i : ℕ) → n ≤ i → i < b → Arr.nth arr i ≢ none

  -- no element from slot `n` up to slot `b` has `P`
  abbrev pub Absent : (A → Type 0) → ℕ → ℕ → Arr A → Type 0
  Absent P n b arr = (i : ℕ) → n ≤ i → i < b → (x : A) → Arr.nth arr i ≡ some x → ¬ P x

  -- the answer is the first slot from `n` up to `b` with `P`, or there is none
  abbrev pub First : (A → Type 0) → ℕ → ℕ → Arr A → Option (Option ℕ) → Type 0
  First P n b arr none = ⊥
  First P n b arr (some none) = Absent P n b arr
  First P n b arr (some (some i)) =
      (n ≤ i) × (i < b) × ((x : A) × (Arr.nth arr i ≡ some x) × P x) × Absent P n i arr

  -- the slots from `n` on, `k` of them, hold elements for which the test decides `P`
  abbrev pub Decides : (A → Bool) → (A → Type 0) → ℕ → ℕ → Arr A → Type 0
  Decides test P zero n arr = Unit
  Decides test P (suc k) n arr =
      ((x : A) × (Arr.nth arr n ≡ some x) × ((test x ≡ true) ↔ P x)) × Decides test P k (n + 1) arr

  Absent-later :
      (P : A → Type 0) (n b : ℕ) (arr : Arr A) (x : A)
      → Arr.nth arr n ≡ some x
      → ¬ P x
      → Absent P (n + 1) b arr
      → Absent P n b arr
  Absent-later P n b arr x here other f i l m x' e = elim (Bool-cases (i == n)) [
    | inl at ↦
        let same_slot : i ≡ n = ground arith in
        let found : some x ≡ some x' = sym here ∙ ap (Arr.nth arr) (sym same_slot) ∙ e in
        let x_eq : x ≡ x' = cc in rw x_eq at other
    | inr past ↦ f i (ground (arith, past)) m x' e
  ]

  First-later :
      (P : A → Type 0) (n b : ℕ) (arr : Arr A) (x : A) (r : Option (Option ℕ))
      → Arr.nth arr n ≡ some x
      → ¬ P x
      → First P (n + 1) b arr r
      → First P n b arr r
  First-later P n b arr x none here other f = f
  First-later P n b arr x (some none) here other f = Absent-later P n b arr x here other f
  First-later P n b arr x (some (some j)) here other (l, m, found, f) =
      (omega arith, m, found, Absent-later P n j arr x here other f)

  -- A search by a test that decides `P` finds the first element with `P`.
  pub search-First :
      (test : A → Bool) (P : A → Type 0) (k n : ℕ) (arr : Arr A)
      → Decides test P k n arr
      → First P n (n + k) arr (search test k n arr)
  unfolding search
  search-First test P zero n arr w = λ i l m. absurd (omega arith)
  search-First test P (suc k) n arr ((x, e, iff), w) =
      let next : (n + 1) + k ≡ n + suc k = omega arith in
      let rest : First P (n + 1) (n + suc k) arr (search test k (n + 1) arr) =
        let ih = search-First test P k (n + 1) arr w in rw next at ih in
      elim (Bool-cases (test x)) [
        | inl same ↦
            rw (search, e, same)
              (omega arith, omega arith, (x, e, iff.0 same), λ i l m. absurd (omega arith))
        | inr other ↦
            rw (search, e, other)
              (First-later P n (n + suc k) arr x _ e (λ p. cc (iff.1 p, other)) rest)
      ]

  pub search-Within :
      (test : A → Bool) (k n : ℕ) (arr : Arr A)
      → Filled n (n + k) arr
      → Within (n + k) (search test k n arr)
  unfolding search
  search-Within test zero n arr f = tt
  search-Within test (suc k) n arr f =
      let next : (n + 1) + k ≡ n + suc k = omega arith in
      let ih = search-Within test k (n + 1) arr (λ i l m. f i (omega arith) (omega arith)) in
      let rest : Within (n + suc k) (search test k (n + 1) arr) = rw next at ih in
      elim (Option-cases (Arr.nth arr n)) [
        | inl missing ↦ absurd (f n (omega arith) (omega arith) missing)
        | inr (x, e) ↦ elim (Bool-cases (test x)) [
          | inl same ↦ rw (search, e, same) (omega arith)
          | inr other ↦ rw (search, e, other) rest
        ]
      ]
