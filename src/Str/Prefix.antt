-- ===== src/Str/Prefix.antt =====
-- `fs_str_cmp` stops at the end of the shorter window: what it decides is a prefix.
use folksong.Prelude.{
  ℕ, zero, suc, ◌+◌, ◌^◌, ◌≤◌, ◌<◌, ◌≡◌, ◌≢◌, ◌↔◌, ◌⊎◌, refl, true, [], ◌∷◌, ◌++◌, length, Bytes,
  arith, append_assoc, length-append,
}
use folksong.Str.{Str, c_string, literal, str_set, memcmp, min_of, str_cmp}

-- A text of the program holds no NUL.
abbrev pub NoNul : Bytes → Type 0
NoNul [] = Unit
NoNul (c ∷ cs) = (c ≢ 0) × NoNul cs

-- `s` starts `t`.
abbrev pub Starts : Bytes → Bytes → Type 0
Starts [] t = Unit
Starts (c ∷ s) [] = ⊥
Starts (c ∷ s) (d ∷ t) = (c ≡ d) × Starts s t

-- the window of a configuration token: its text, the NUL, and what escapes left unused
abbrev pub token_of : Bytes → Bytes → Str
token_of text slack = record { mem = text ++ (0 ∷ slack); size = length text + 1 + length slack }

pub c_string-token : (text slack : Bytes) → NoNul text → c_string (text ++ (0 ∷ slack)) ≡ text
c_string-token [] slack n = refl
c_string-token (c ∷ text) slack n = ground (arith, c_string-token text slack n.1)

-- Comparing as far as one of the two texts reaches, the NUL of `t` included.
memcmp-Starts :
    (n : ℕ) (s t u v : Bytes)
    → NoNul s
    → n ≤ length s
    → (length s ≤ n) ⊎ (length t < n)
    → (memcmp n (s ++ u) (t ++ (0 ∷ v)) ≡ true) ↔ Starts s t
unfolding memcmp
memcmp-Starts zero [] t u v z le far = (λ _. tt, λ _. refl)
memcmp-Starts zero (c ∷ s) t u v z le far = absurd (omega arith)
memcmp-Starts (suc n) [] t u v z le far = absurd (omega arith)
memcmp-Starts (suc n) (c ∷ s) [] u v z le far = (λ e. ground arith, λ e. absurd e)
memcmp-Starts (suc n) (c ∷ s) (d ∷ t) u v z le far =
    let ih = memcmp-Starts n s t u v z.1 (omega arith) (grind arith) in
    (λ e. ground (arith, ih), λ e. ground (arith, ih))

-- Command lookup: a literal compares equal to a configuration token exactly when it starts the
-- token's text.
pub str_cmp-literal :
    (s text slack : Bytes)
    → NoNul s
    → (str_cmp (literal s) (token_of text slack) ≡ true) ↔ Starts s text
unfolding str_cmp
str_cmp-literal s text slack z =
    memcmp-Starts (min_of (length s) (length text + 1 + length slack)) s text (0 ∷ []) slack z
      (ground arith) (ground arith)

memcmp_comm : (n : ℕ) (a b : Bytes) → memcmp n a b ≡ memcmp n b a
unfolding memcmp
memcmp_comm zero a b = refl
memcmp_comm (suc n) [] [] = refl
memcmp_comm (suc n) [] (y ∷ b) = refl
memcmp_comm (suc n) (x ∷ a) [] = refl
memcmp_comm (suc n) (x ∷ a) (y ∷ b) = ground (arith, memcmp_comm n a b)

pub NoNul-append : (s t : Bytes) → NoNul s → NoNul t → NoNul (s ++ t)
NoNul-append [] t z w = w
NoNul-append (c ∷ s) t z w = (z.0, NoNul-append s t z.1 w)

str_set_size :
    (m : Bytes) (c : ℕ)
    → NoNul m
    → c ≢ 0
    → length m < 2 ^ 63
    → (str_set ((m ++ (c ∷ [])) ++ (0 ∷ []))).size ≡ length m
unfolding str_set
str_set_size m c z w small =
    rw (c_string-token (m ++ (c ∷ [])) [] (NoNul-append m (c ∷ []) z (w, tt)))
      (omega (arith, length-append m (c ∷ [])))

-- Comparing a configuration token with a text set by `fs_str_set`: the text's last byte is left
-- out, and the rest need only start the token.
pub str_cmp-str_set :
    (text slack m : Bytes) (c : ℕ)
    → NoNul m
    → c ≢ 0
    → length m < 2 ^ 63
    → (str_cmp (token_of text slack) (str_set ((m ++ (c ∷ [])) ++ (0 ∷ []))) ≡ true) ↔ Starts m text
unfolding str_cmp str_set
str_cmp-str_set text slack m c z w small =
    let n = min_of (length text + 1 + length slack) (length m) in
    let mem = (m ++ (c ∷ [])) ++ (0 ∷ []) in
    rw
      (
        str_set_size m c z w small,
        memcmp_comm n (text ++ (0 ∷ slack)) mem,
        append_assoc m (c ∷ []) (0 ∷ []),
      )
      (memcmp-Starts n m text (c ∷ 0 ∷ []) slack z (ground arith) (ground arith))
