-- ===== src/Publisher/Request/Param.antt =====
-- How a header is chosen by its name.
use folksong.Prelude.{
  sym, ap, ◌∙◌, length-take, ℕ, zero, suc, ◌+◌, ◌^◌, ◌≤◌, ◌<◌, ◌≡◌, ◌↔◌, refl, true, some, [], ◌∷◌,
  ◌++◌, length, take, Bytes, arith,
}
use folksong.Arr
use folksong.Arr.{Arr}
use folksong.Arr.Search.{First, Decides, search-First}
use folksong.Http.{Text}
use folksong.Publisher.Request.{memory, names, find_param}
use folksong.Str.{memcmp, str_cmp}
use folksong.Str.Prefix.{token_of}

-- the bytes of a header's text
abbrev pub bytes_of : Text → Bytes
bytes_of t = take t.size (memory t.block.base)

-- a text whose window lies in its block
abbrev pub InBlock : Text → Type 0
InBlock t = t.size < length (memory t.block.base)

memcmp-take :
    (n : ℕ) (a s v : Bytes)
    → n ≡ length s
    → n ≤ length a
    → (memcmp n a (s ++ v) ≡ true) ↔ (take n a ≡ s)
unfolding memcmp
memcmp-take zero a [] v e l = (λ _. refl, λ _. refl)
memcmp-take zero a (c ∷ s) v e l = absurd (omega arith)
memcmp-take (suc n) a [] v e l = absurd (omega arith)
memcmp-take (suc n) [] (c ∷ s) v e l = absurd (omega arith)
memcmp-take (suc n) (d ∷ a) (c ∷ s) v e l =
    let ih = memcmp-take n a s v (omega arith) (omega arith) in
    (λ e. ground (arith, ih), λ e. ground (arith, ih))

names-memcmp :
    (t : Text) (text : Bytes)
    → length text < 2 ^ 63
    → t.size ≡ length text
    → names t (token_of text []) ≡ memcmp t.size (memory t.block.base) (text ++ (0 ∷ []))
unfolding names str_cmp
names-memcmp t text small e = ground (arith, e)

names-size :
    (t : Text) (text : Bytes)
    → length text < 2 ^ 63
    → names t (token_of text []) ≡ true
    → t.size ≡ length text
unfolding names str_cmp
names-size t text small e = ground (arith, e)

size_of : (t : Text) (text : Bytes) → InBlock t → bytes_of t ≡ text → t.size ≡ length text
size_of t text h e = sym (length-take t.size (memory t.block.base) (omega arith)) ∙ ap length e

-- A header is taken for the parameter exactly when its name is the parameter's text.
pub names-token :
    (t : Text) (text : Bytes)
    → InBlock t
    → length text < 2 ^ 63
    → (names t (token_of text []) ≡ true) ↔ (bytes_of t ≡ text)
names-token t text h small = (
  λ e.
      let n = names-size t text small e in
      (memcmp-take t.size (memory t.block.base) text (0 ∷ []) n (omega arith)).0
        (sym (names-memcmp t text small n) ∙ e),
  λ e.
      let n = size_of t text h e in
      names-memcmp t text small n
      ∙ (memcmp-take t.size (memory t.block.base) text (0 ∷ []) n (omega arith)).1 e,
)

-- the slots from `n` on, `k` of them, hold names in their blocks
abbrev pub Written : ℕ → ℕ → Arr Text → Type 0
Written zero n keys = Unit
Written (suc k) n keys =
    ((t : Text) × (Arr.nth keys n ≡ some t) × InBlock t) × Written k (n + 1) keys

-- a header with the name `text`
abbrev pub IsNamed : Bytes → Text → Type 0
IsNamed text t = bytes_of t ≡ text

Written-Decides :
    (k n : ℕ) (keys : Arr Text) (text : Bytes)
    → Written k n keys
    → length text < 2 ^ 63
    → Decides (λ t. names t (token_of text [])) (IsNamed text) k n keys
Written-Decides zero n keys text w small = tt
Written-Decides (suc k) n keys text ((t, e, h), w) small =
    ((t, e, names-token t text h small), Written-Decides k (n + 1) keys text w small)

-- The search of the slots from `n` on, `k` of them and all written, for a parameter whose token fills
-- its block, finds the first header of exactly that name, and none only where there is none.
pub find_param-First :
    (k n : ℕ) (keys : Arr Text) (text : Bytes)
    → Written k n keys
    → length text < 2 ^ 63
    → First (IsNamed text) n (n + k) keys (find_param k n keys (token_of text []))
unfolding find_param
find_param-First k n keys text w small =
    search-First (λ t. names t (token_of text [])) (IsNamed text) k n keys
      (Written-Decides k n keys text w small)
