-- ===== src/Lexer/RoundTrip.antt =====
-- The lexer reads back every statement that is written with double-quoted words.
use folksong.Prelude.{
  ℕ, suc, ◌+◌, ◌*◌, ◌^◌, ◌≤◌, ◌<◌, ◌≡◌, refl, sym, ◌∙◌, ap, true, false, some, List, [], ◌∷◌, ◌++◌,
  arith, length, Bytes, map, append_assoc, append-nil, length-append,
}
use folksong.Arr.Push.{IsValid, contents}
use folksong.Arr.Grow.{Roomy}
use folksong.Os.{Os}
use folksong.File.{File}
use folksong.Token.{Ret, ok, block_start, block_end, Scan, start, go, leave, store, step}
use folksong.Lexer.{Source, Outcome, done, act, push_token, after_token, carry, scan, next_token}
use folksong.Lexer.Rounds.{shifted, Holds, shifted-Holds, scan-suc, scan-go}
use folksong.Lexer.Quote.{
  escape, rounds, advance, moved_to, in_quote, closed, scan-escape, rounds-append, rounds-add,
  advance-append,
}
use folksong.Lexer.Store.{stored, advance_mem, advance_pos, advance_last, Stores, push_token-Stores}

-- what ends a statement: `;` for a parameter, `{` and `}` for a block
pub data End : Type 0 where
  semicolon open_brace close_brace : End

abbrev pub end_byte : End → ℕ
end_byte semicolon = b';'
end_byte open_brace = b'{'
end_byte close_brace = b'}'

abbrev pub end_ret : End → Ret
end_ret semicolon = ok
end_ret open_brace = block_start
end_ret close_brace = block_end

-- a statement in front of `rest`: its words in double quotes, a space behind each, and its end
unfoldable pub printed : List Bytes → End → Bytes → Bytes
printed [] e rest = end_byte e ∷ rest
printed (w ∷ ws) e rest = b'"' ∷ (escape w ++ (b'"' ∷ b' ' ∷ printed ws e rest))

-- between words, with the last word's start still noted
abbrev vacant : ℕ → Scan
vacant ts = record start { token_start = ts }

step-vacant_quote : (ts pos : ℕ) → step (vacant ts) pos b'"' ≡ go (in_quote pos false)
unfolding step
step-vacant_quote ts pos = refl

step-vacant_end : (ts pos : ℕ) (e : End) → step (vacant ts) pos (end_byte e) ≡ leave (end_ret e)
unfolding step
step-vacant_end ts pos semicolon = refl
step-vacant_end ts pos open_brace = refl
step-vacant_end ts pos close_brace = refl

step-closed : (ts pos : ℕ) → step (closed ts) pos b' ' ≡ go (vacant ts)
unfolding step
step-closed ts pos = refl

-- the file behind an opening quote, a word and its closing quote
abbrev behind_word : Bytes → File → File
behind_word w f = shifted b'"' (advance (escape w) (shifted b'"' f))

advance-Holds : (xs ys : Bytes) (f : File) → Holds f (xs ++ ys) → Holds (advance xs f) ys
advance-Holds [] ys f h = h
advance-Holds (x ∷ xs) ys f h = advance-Holds xs ys (shifted x f) (shifted-Holds h)

act-store :
    (os : Os) (s : Scan) (chr : ℕ) (c c' : Source)
    → push_token os s.token_start c ≡ some c'
    → act os (store s) chr c ≡ after_token chr s c'
unfolding act
act-store os s chr c c' e = rw (e, act)

module _ (b : ℕ) (os : Os) (got : (k : ℕ) → os.malloc k ≡ true) where
  -- From the opening quote of a word to the space behind it.
  record ReadsWord (n : ℕ) (w : Bytes) (k : ℕ) (ts : ℕ) (c : Source) (rest : Bytes) : Type 0 where
    after : Source
    ts' : ℕ
    reads :
        scan os (suc (rounds (escape w) (suc (suc k)))) (vacant ts) c ≡ scan os k (vacant ts') after
    file : after.file ≡ shifted b' ' (behind_word w c.file)
    held : contents after.tokens ≡ contents c.tokens ++ (some (stored os w) ∷ [])
    roomy : Roomy b n after.tokens
    follows : Holds after.file rest

  scan-ReadsWord :
      {n : ℕ} (w : Bytes) (k ts : ℕ) (c : Source) (rest : Bytes)
      → Roomy b (suc n) c.tokens
      → Holds c.file (b'"' ∷ (escape w ++ (b'"' ∷ b' ' ∷ rest)))
      → length (escape w) < 2 ^ 63
      → ReadsWord n w k ts c rest
  scan-ReadsWord w k ts c rest room h small =
      let opened = moved_to c (shifted b'"' c.file) in
      let start_at : ℕ = c.file.buf.pos + 1 in
      let held_open = shifted-Holds h in
      let held_word = advance-Holds (escape w) (b'"' ∷ b' ' ∷ rest) opened.file held_open in
      let quoted = moved_to c (behind_word w c.file) in
      let s =
        push_token-Stores os w quoted start_at ((b'"' ∷ b' ' ∷ rest) ++ held_open.slack) got room
          (omega (arith, advance_pos (escape w) (shifted b'"' c.file)))
          (rw (advance_mem (escape w) opened.file)
            (held_open.here ∙ append_assoc (escape w) (b'"' ∷ b' ' ∷ rest) held_open.slack))
          small in
      let stored_in = record quoted { tokens = Stores.tokens s } in
      record {
        after = moved_to stored_in (shifted b' ' quoted.file);
        ts' = start_at;
        reads =
            scan-go os _ (vacant ts) _ c b'"' _ h (step-vacant_quote ts start_at)
            ∙ scan-escape w os (suc k) start_at false opened (b' ' ∷ rest) held_open
            ∙ ap (carry (scan os (suc k)))
                (act-store os (closed start_at) b'"' quoted stored_in (Stores.pushed s))
            ∙ scan-go os k (closed start_at) (vacant start_at) stored_in b' ' rest
                (shifted-Holds held_word) (step-closed start_at _);
        file = refl;
        held = Stores.held s;
        roomy = Stores.roomy s;
        follows = shifted-Holds (shifted-Holds held_word);
      }

  -- The call ends at the statement's end, with its words behind the tokens that were there.
  pub record Lexed (c : Source) (ws : List Bytes) (e : End) (rest : Bytes) (o : Outcome)
      : Type 0 where
    pub final : Source
    pub returns : o ≡ done (end_ret e) final
    pub file : final.file ≡ advance (printed ws e []) c.file
    pub held : contents final.tokens ≡ contents c.tokens ++ map (λ w. some (stored os w)) ws
    pub follows : Holds final.file rest
    pub roomy : Roomy b 0 final.tokens

  scan-Lexed :
      (ws : List Bytes) (e : End) (k ts : ℕ) (c : Source) (rest : Bytes)
      → Roomy b (length ws) c.tokens
      → Holds c.file (printed ws e rest)
      → c.file.buf.last < 2 ^ 63
      → Lexed c ws e rest (scan os (rounds (printed ws e []) k) (vacant ts) c)
  unfolding printed act
  scan-Lexed [] e k ts c rest room h small = record {
    final = moved_to c (shifted (end_byte e) c.file);
    returns =
        scan-suc os k (vacant ts) c (end_byte e) rest h
        ∙ rw (step-vacant_end ts (c.file.buf.pos + 1) e);
    file = refl;
    held = sym (append-nil _);
    follows = shifted-Holds h;
    roomy = room;
  }
  scan-Lexed (w ∷ ws) e k ts c rest room h small =
      let r =
        scan-ReadsWord w (rounds (printed ws e []) k) ts c (printed ws e rest) room h
          (omega (arith, h.whole, length-append (escape w) (b'"' ∷ b' ' ∷ printed ws e rest))) in
      let l =
        scan-Lexed ws e k r.ts' r.after rest r.roomy r.follows
          (rw (r.file, advance_last (escape w) (shifted b'"' c.file)) small) in
      record {
        final = l.final;
        returns =
            ap (λ n. scan os (suc n) (vacant ts) c)
              (rounds-append (escape w) (b'"' ∷ b' ' ∷ printed ws e []) k)
            ∙ r.reads
            ∙ l.returns;
        file =
            l.file
            ∙ ap (advance (printed ws e [])) r.file
            ∙ sym (advance-append (escape w) (b'"' ∷ b' ' ∷ printed ws e []) (shifted b'"' c.file));
        held =
            l.held
            ∙ ap (λ t. t ++ map (λ w. some (stored os w)) ws) r.held
            ∙ append_assoc (contents c.tokens) (some (stored os w) ∷ []) _;
        follows = l.follows;
        roomy = l.roomy;
      }

-- the call's first state
abbrev pub cleared : Source → Source
cleared c = record c { tokens = record c.tokens { ele_count = 0 } }

module _ (os : Os) (ws : List Bytes) (e : End) (k : ℕ) (c : Source) (rest : Bytes)
    (got : (n : ℕ) → os.malloc n ≡ true) (valid : IsValid c.tokens)
    (small : c.tokens.ele_size ≤ 2 ^ 32) (room : c.tokens.ele_capa + 2 * length ws < 2 ^ 30)
    (h : Holds c.file (printed ws e rest)) (last : c.file.buf.last < 2 ^ 63) where
  pub next_token-Lexed :
      Lexed c.tokens.ele_capa os got
        (cleared c)
        ws
        e
        rest
        (next_token os (length (printed ws e []) + k) c)
  unfolding next_token
  next_token-Lexed =
      let roomy : Roomy c.tokens.ele_capa (length ws) (cleared c).tokens = omega arith in
      let l = scan-Lexed c.tokens.ele_capa os got ws e k 0 (cleared c) rest roomy h last in
      record {
        final = l.final;
        returns =
            ap (λ n. scan os n start (cleared c)) (sym (rounds-add (printed ws e []) k))
            ∙ l.returns;
        file = l.file;
        held = l.held;
        follows = l.follows;
        roomy = l.roomy;
      }

  -- A statement of double-quoted words, anywhere in the buffer, is read back word for word: the call
  -- takes exactly its bytes, tells by its status how the statement ended, and leaves one token for
  -- each word. The words are any bytes; memory and fuel suffice, and the token array may double.
  pub next_token-printed :
      (final : Source) × (next_token os (length (printed ws e []) + k) c ≡ done (end_ret e) final)
      × (final.file ≡ advance (printed ws e []) c.file)
      × (contents final.tokens ≡ map (λ w. some (stored os w)) ws)
  next_token-printed = let l = next_token-Lexed in (l.final, l.returns, l.file, l.held)
