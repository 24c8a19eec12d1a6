-- ===== src/Lexer/Quote.antt =====
-- Double-quoted words: how they are written, and the lexer's way through one.
use folksong.Prelude.{
  ℕ, suc, ◌+◌, ◌≡◌, refl, ◌∙◌, ap, Bool, true, false, [], ◌∷◌, ◌++◌, ◌||◌, arith, ◌==◌,
  if◌then◌else◌, length, Bytes, Bool-cases, inl, inr,
}
use folksong.Os.{Os}
use folksong.File.{File}
use folksong.Token.{Scan, go, store, step, start}
use folksong.Unescape.{copied}
use folksong.Lexer.{Source, act, carry, scan}
use folksong.Lexer.Rounds.{shifted, Holds, shifted-Holds, scan-suc, scan-go}

abbrev pub special : ℕ → Bool
special c = c == b'"' || c == b'\\'

-- A backslash in front of each quote and backslash.
unfoldable pub escape : Bytes → Bytes
escape [] = []
escape (c ∷ cs) = if special c then b'\\' ∷ c ∷ escape cs else c ∷ escape cs

copied_plain :
    (c : ℕ) (cs : Bytes) (end : ℕ) → (c == b'\\') ≡ false → copied (c ∷ cs) end ≡ c ∷ copied cs end
unfolding copied
copied_plain c [] end h = ground arith
copied_plain c (d ∷ cs) end h = ground arith

-- Unescaping undoes `escape`, whatever byte ended the token.
pub copied-escape : (w : Bytes) (end : ℕ) → copied (escape w) end ≡ w
unfolding escape copied
copied-escape [] end = refl
copied-escape (c ∷ cs) end = elim (Bool-cases (special c)) [
  | inl h ↦ rw h (ground (arith, copied-escape cs end))
  | inr h ↦ rw h (copied_plain c (escape cs) end (ground arith) ∙ ap (◌∷◌ c) (copied-escape cs end))
]

-- a round for each byte, and `k` more
abbrev pub rounds : Bytes → ℕ → ℕ
rounds [] k = k
rounds (c ∷ cs) k = suc (rounds cs k)

abbrev pub advance : Bytes → File → File
advance [] f = f
advance (c ∷ cs) f = advance cs (shifted c f)

abbrev pub moved_to : Source → File → Source
moved_to c f = record c { file = f }

-- inside a double-quoted word that starts at `ts`
abbrev pub in_quote : ℕ → Bool → Scan
in_quote ts v = record start { vacancy = false; d_quote = true; variable = v; token_start = ts }

-- behind its closing quote
abbrev pub closed : ℕ → Scan
closed ts = record start { vacancy = false; need_space = true; token_start = ts }

-- What a plain byte does inside quotes: it only sets `variable`.
step-in_quote :
    (ts : ℕ) (v : Bool) (pos c : ℕ)
    → special c ≡ false
    → step (in_quote ts v) pos c ≡ go (in_quote ts (if c == b'{' then v else c == b'$'))
unfolding step
step-in_quote ts v pos c h = ground arith

step-in_quote_close :
    (ts : ℕ) (v : Bool) (pos : ℕ) → step (in_quote ts v) pos b'"' ≡ store (closed ts)
unfolding step
step-in_quote_close ts true pos = refl
step-in_quote_close ts false pos = refl

step-in_quote_escape :
    (ts : ℕ) (v : Bool) (pos : ℕ)
    → step (in_quote ts v) pos b'\\' ≡ go (record (in_quote ts false) { quoted = true })
unfolding step
step-in_quote_escape ts true pos = refl
step-in_quote_escape ts false pos = refl

step-quoted :
    (ts : ℕ) (pos c : ℕ)
    → step (record (in_quote ts false) { quoted = true }) pos c ≡ go (in_quote ts false)
unfolding step
step-quoted ts pos c = ground arith

-- The rounds over an escaped word, up to and with the closing quote.
pub scan-escape :
    (w : Bytes) (os : Os) (k ts : ℕ) (v : Bool) (c : Source) (rest : Bytes)
    → Holds c.file (escape w ++ (b'"' ∷ rest))
    → scan os (rounds (escape w) (suc k)) (in_quote ts v) c
      ≡ carry
          (scan os k)
          (act os (store (closed ts)) b'"' (moved_to c (shifted b'"' (advance (escape w) c.file))))
unfolding escape
scan-escape [] os k ts v c rest h =
    scan-suc os k (in_quote ts v) c b'"' rest h ∙ rw (step-in_quote_close ts v (c.file.buf.pos + 1))
scan-escape (x ∷ w) os k ts v c rest h = elim (Bool-cases (special x)) [
  | inl sp ↦
      let held : Holds c.file (b'\\' ∷ x ∷ (escape w ++ (b'"' ∷ rest))) = rw sp at h in
      let behind = moved_to c (shifted b'\\' c.file) in
      rw sp (
        scan-go os _ (in_quote ts v) _ c b'\\' _ held (step-in_quote_escape ts v _)
        ∙ scan-go os _ _ _ behind x _ (shifted-Holds held) (step-quoted ts _ x)
        ∙ scan-escape w os k ts false (moved_to c (shifted x behind.file)) rest
            (shifted-Holds (shifted-Holds held)))
  | inr pl ↦
      let held : Holds c.file (x ∷ (escape w ++ (b'"' ∷ rest))) = rw pl at h in
      rw pl (
        scan-go os _ (in_quote ts v) _ c x _ held (step-in_quote ts v _ x pl)
        ∙ scan-escape w os k ts _ (moved_to c (shifted x c.file)) rest (shifted-Holds held))
]

pub rounds-append : (xs ys : Bytes) (k : ℕ) → rounds (xs ++ ys) k ≡ rounds xs (rounds ys k)
rounds-append [] ys k = refl
rounds-append (x ∷ xs) ys k = ap suc (rounds-append xs ys k)

pub advance-append : (xs ys : Bytes) (f : File) → advance (xs ++ ys) f ≡ advance ys (advance xs f)
advance-append [] ys f = refl
advance-append (x ∷ xs) ys f = advance-append xs ys (shifted x f)

pub rounds-add : (xs : Bytes) (k : ℕ) → rounds xs k ≡ length xs + k
rounds-add [] k = omega arith
rounds-add (x ∷ xs) k = omega (arith, rounds-add xs k)
