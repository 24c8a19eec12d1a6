-- ===== src/Lexer/Store.antt =====
-- What the lexer stores when a double-quoted word is closed.
use folksong.Prelude.{
  ℕ, suc, ◌+◌, ◌-◌, ◌%◌, ◌^◌, ◌≤◌, ◌<◌, ◌≡◌, refl, ◌∙◌, ap, true, none, some, [], ◌∷◌, ◌++◌, arith,
  length, drop, take, replicate, Bytes, take-length_append, length-replicate, get_or, if◌then◌else◌,
}
use folksong.Arr
use folksong.Arr.{Arr}
use folksong.Arr.Push.{contents}
use folksong.Arr.Grow.{Roomy, push-Pushes, put-Roomy}
use folksong.Os.{Os}
use folksong.File.{Buf, File}
use folksong.Str.{Str}
use folksong.Str.Prefix.{token_of}
use folksong.Unescape.{copied, token_block}
use folksong.Unescape.Bounds.{length-copied-le, token_block-copied}
use folksong.Lexer.{Source, new_token, push_token}
use folksong.Lexer.Rounds.{shifted}
use folksong.Lexer.Quote.{escape, copied-escape, advance}

-- the bytes that escapes leave unused behind the token's NUL
abbrev pub slack : Os → Bytes → Bytes
slack os w = replicate (length (escape w) - length w) os.fill

abbrev pub stored : Os → Bytes → Str
stored os w = token_of w (slack os w)

pub length-le-escape : (w : Bytes) → length w ≤ length (escape w)
length-le-escape w = rw (copied-escape w 0) at (length-copied-le (escape w) 0)

pub advance_mem : (xs : Bytes) (f : File) → (advance xs f).buf.mem ≡ f.buf.mem
advance_mem [] f = refl
advance_mem (x ∷ xs) f = advance_mem xs (shifted x f)

pub advance_pos : (xs : Bytes) (f : File) → (advance xs f).buf.pos ≡ f.buf.pos + length xs
advance_pos [] f = omega arith
advance_pos (x ∷ xs) f = omega (arith, advance_pos xs (shifted x f))

token_block-stored :
    (os : Os) (w : Bytes) (end : ℕ)
    → token_block os.fill (suc (length (escape w))) (copied (escape w) end) ≡ some (stored os w)
token_block-stored os w end =
    let unused : suc (length (escape w)) - suc (length w) ≡ length (escape w) - length w =
      omega arith in
    let size : suc (length (escape w)) ≡ length w + 1 + length (slack os w) =
      omega (arith, length-replicate (length (escape w) - length w) os.fill, length-le-escape w) in
    token_block-copied os.fill (escape w) end
    ∙ rw (copied-escape w end)
        (λ i. some (record { mem = w ++ (0 ∷ replicate (unused i) os.fill); size = size i }))

-- The block from the opening quote to the closing one becomes the word.
pub new_token-stored :
    (os : Os) (w : Bytes) (b : Buf) (ts : ℕ) (rest : Bytes)
    → ((k : ℕ) → os.malloc k ≡ true)
    → b.pos ≡ suc (ts + length (escape w))
    → drop ts b.mem ≡ escape w ++ rest
    → length (escape w) < 2 ^ 63
    → new_token os b ts ≡ some (stored os w)
unfolding new_token
new_token-stored os w b ts rest got p d small =
    let size : (b.pos + 2 ^ 64 - ts) % 2 ^ 64 ≡ suc (length (escape w)) = omega arith in
    let count : b.pos - 1 - ts ≡ length (escape w) = omega arith in
    let src : take (b.pos - 1 - ts) (drop ts b.mem) ≡ escape w =
      rw (count, d) (take-length_append (escape w) rest) in
    let end = get_or b.mem (b.pos - 1) 0 in
    let block = λ (n : ℕ) (text : Bytes). token_block os.fill n (copied text end) in
    ap (λ n. if os.malloc n then block n (take (b.pos - 1 - ts) (drop ts b.mem)) else none) size
    ∙ ap
        (λ text.
          if os.malloc (suc (length (escape w)))
          then block (suc (length (escape w))) text
          else none)
        src
    ∙ ap (λ m. if m then block (suc (length (escape w))) (escape w) else none)
        (got (suc (length (escape w))))
    ∙ token_block-stored os w end

-- what a closing quote leaves in the source
pub record Stores (b n : ℕ) (os : Os) (w : Bytes) (ts : ℕ) (c : Source) : Type 0 where
  pub tokens : Arr Str
  pub pushed : push_token os ts c ≡ some (record c { tokens = tokens })
  pub held : contents tokens ≡ contents c.tokens ++ (some (stored os w) ∷ [])
  pub roomy : Roomy b n tokens

pub push_token-Stores :
    {b n : ℕ} (os : Os) (w : Bytes) (c : Source) (ts : ℕ) (rest : Bytes)
    → ((k : ℕ) → os.malloc k ≡ true)
    → Roomy b (suc n) c.tokens
    → c.file.buf.pos ≡ suc (ts + length (escape w))
    → drop ts c.file.buf.mem ≡ escape w ++ rest
    → length (escape w) < 2 ^ 63
    → Stores b n os w ts c
unfolding push_token
push_token-Stores os w c ts rest got room p d small =
    let q = push-Pushes os.malloc room got in
    record {
      tokens = Arr.put q.after q.slot (stored os w);
      pushed =
          rw (q.pushed, push_token)
            (rw (new_token-stored os w c.file.buf ts rest got p d small, push_token));
      held = q.appends.appended (stored os w);
      roomy = put-Roomy q.slot (stored os w) q.roomy;
    }

pub advance_last : (xs : Bytes) (f : File) → (advance xs f).buf.last ≡ f.buf.last
advance_last [] f = refl
advance_last (x ∷ xs) f = advance_last xs (shifted x f)
