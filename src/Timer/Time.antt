-- ===== src/Timer/Time.antt =====
-- `fs_mod_timer_parse_time` against the times that a configuration may write.
use folksong.Prelude.{
  ℕ, ◌*◌, ◌^◌, ◌≤◌, ◌<◌, ◌≡◌, ◌≢◌, refl, ap, ◌∙◌, true, false, none, some, [], ◌∷◌, ◌++◌, Bytes,
  codes, arith, Bool-cases, inl, inr, lt→ltb,
}
use folksong.Str.Prefix.{NoNul, c_string-token, NoNul-append}
use folksong.Timer.{
  value_from, atoll, is_digit, span_digits, strcmp, unit_of, scale_by, scaled, parse_time,
}

-- the units of time, and what a configuration calls them
pub data Time : Type 0 where
  bare ms second minute hour day : Time

abbrev pub suffix : Time → Bytes
suffix bare = []
suffix ms = codes "ms"
suffix second = codes "s"
suffix minute = codes "min"
suffix hour = codes "hour"
suffix day = codes "day"

-- in milliseconds
abbrev pub millis : Time → ℕ
millis bare = 1
millis ms = 1
millis second = 1000
millis minute = 60_000
millis hour = 3_600_000
millis day = 86_400_000

abbrev pub Digits : Bytes → Type 0
Digits [] = Unit
Digits (c ∷ cs) = (b'0' ≤ c) × (c ≤ b'9') × Digits cs

-- a text that no digit starts
abbrev pub NoDigit : Bytes → Type 0
NoDigit [] = Unit
NoDigit (c ∷ cs) = is_digit c ≡ false

span_digits-append :
    (ds rest : Bytes) → Digits ds → NoDigit rest → span_digits (ds ++ rest) ≡ (ds, rest)
unfolding span_digits
span_digits-append [] [] d n = refl
span_digits-append [] (c ∷ rest) d n = ground arith
span_digits-append (c ∷ ds) rest d n = ground (arith, span_digits-append ds rest d.2 n)

Digits-NoNul : (ds : Bytes) → Digits ds → NoNul ds
Digits-NoNul [] d = tt
Digits-NoNul (c ∷ ds) d = (λ e. omega (arith, d.0), Digits-NoNul ds d.2)

parse_time-scaled :
    (ds rest slack : Bytes)
    → Digits ds
    → NoDigit rest
    → NoNul rest
    → parse_time ((ds ++ rest) ++ (0 ∷ slack)) ≡ scaled (ds, rest)
unfolding parse_time
parse_time-scaled ds rest slack d n z =
    ap (λ t. scaled (span_digits t))
      (c_string-token (ds ++ rest) slack (NoNul-append ds rest (Digits-NoNul ds d) z))
    ∙ ap scaled (span_digits-append ds rest d n)

strcmp-eq : (a b : Bytes) → strcmp a b ≡ true → a ≡ b
unfolding strcmp
strcmp-eq [] [] e = refl
strcmp-eq [] (y ∷ b) e = cc
strcmp-eq (x ∷ a) [] e = cc
strcmp-eq (x ∷ a) (y ∷ b) e = ground (arith, strcmp-eq a b)

strcmp_ne : (a b : Bytes) → a ≢ b → strcmp a b ≡ false
strcmp_ne a b ne = elim (Bool-cases (strcmp a b)) [
  | inl e ↦ absurd (ne (strcmp-eq a b e))
  | inr e ↦ e
]

unit_of-suffix :
    (u : Time) → (unit_of (suffix u) ≡ some (millis u)) × NoDigit (suffix u) × NoNul (suffix u)
unfolding unit_of
unit_of-suffix bare = (refl, tt, tt)
unit_of-suffix ms = (refl, refl, omega arith)
unit_of-suffix second = (refl, refl, omega arith)
unit_of-suffix minute = (refl, refl, omega arith)
unit_of-suffix hour = (refl, refl, omega arith)
unit_of-suffix day = (refl, refl, omega arith)

atoll-value : (ds : Bytes) → value_from 0 ds < 2 ^ 63 → atoll ds ≡ value_from 0 ds
unfolding atoll
atoll-value ds small = rw (lt→ltb _ _ small)

-- Digits and a unit are read as that many milliseconds, when `long long` holds the digits' value and the
-- result.
pub parse_time-suffix :
    (ds slack : Bytes) (u : Time)
    → Digits ds
    → value_from 0 ds < 2 ^ 63
    → value_from 0 ds * millis u < 2 ^ 63
    → parse_time ((ds ++ suffix u) ++ (0 ∷ slack)) ≡ some (some (value_from 0 ds * millis u))
parse_time-suffix ds slack u d small fits =
    let (unit, n, z) = unit_of-suffix u in
    parse_time-scaled ds (suffix u) slack d n z
    ∙ ap (scale_by ds) unit
    ∙ rw (scale_by, atoll-value ds small, lt→ltb _ _ fits) refl

unit_of-none : (rest : Bytes) → ((u : Time) → rest ≢ suffix u) → unit_of rest ≡ none
unfolding unit_of
unit_of-none [] other = absurd (other bare refl)
unit_of-none (c ∷ cs) other =
    rw
      (
        strcmp_ne (c ∷ cs) _ (other ms),
        strcmp_ne (c ∷ cs) _ (other second),
        strcmp_ne (c ∷ cs) _ (other minute),
        strcmp_ne (c ∷ cs) _ (other hour),
        strcmp_ne (c ∷ cs) _ (other day),
      )
      refl

-- Anything else behind the digits is refused.
pub parse_time-none :
    (ds rest slack : Bytes)
    → Digits ds
    → NoDigit rest
    → NoNul rest
    → ((u : Time) → rest ≢ suffix u)
    → parse_time ((ds ++ rest) ++ (0 ∷ slack)) ≡ some none
parse_time-none ds rest slack d n z other =
    parse_time-scaled ds rest slack d n z ∙ ap (scale_by ds) (unit_of-none rest other)
