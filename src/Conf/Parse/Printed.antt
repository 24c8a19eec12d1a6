-- ===== src/Conf/Parse/Printed.antt =====
-- What `fs_conf_parse` makes of a configuration that is written as a list of statements.
use folksong.Prelude.{
  subst, ℕ, zero, suc, ◌+◌, ◌-◌, ◌*◌, ◌^◌, ◌≤◌, ◌<◌, ◌≡◌, refl, sym, ap, ◌∙◌, true, false, Option,
  some, List, [], ◌∷◌, length, Bytes, arith, map, Bool-cases, inl, inr, length-append,
}
use folksong.Arr.Push.{IsValid, contents, length-contents}
use folksong.Conf.{Conf, Mod}
use folksong.Conf.Handle.{Handled, handled, handle}
use folksong.Conf.Handle
use folksong.Conf.Handle.Source.{Keeps, handle-Keeps}
use folksong.Conf.Parse.{
  Status, Result, returned, fault, unread, at_end, with_source, handled_next, token_next,
  parse_loop,
}
use folksong.File.{File}
use folksong.Lexer.{Source, done, refill, round, scan, next_token}
use folksong.Lexer.Quote.{advance}
use folksong.Lexer.Rounds.{shifted, Holds}
use folksong.Lexer.RoundTrip.{
  End, semicolon, open_brace, close_brace, end_ret, printed, cleared, next_token-Lexed,
}
use folksong.Lexer.Store.{stored, advance_last}
use folksong.Os.{Os}
use folksong.Str.{Str}
use folksong.Token.{Ret, file_done_ret, is_ok}

-- a statement: its words and its end
abbrev pub Statement : Type 0
Statement = List Bytes × End

abbrev pub text_of : List Statement → Bytes
text_of [] = []
text_of ((ws, e) ∷ stmts) = printed ws e (text_of stmts)

abbrev pub words_in : List Statement → ℕ
words_in [] = 0
words_in ((ws, e) ∷ stmts) = length ws + words_in stmts

-- the tokens that a statement's words become
abbrev pub tokens_of : Os → List Bytes → List (Option Str)
tokens_of os ws = map (λ w. some (stored os w)) ws

module _ {W : Type 0} (os : Os) (mods : List (Mod W)) (status : Status) where
  -- The statements are handled one after another, each with its words as the tokens, until one is
  -- refused.
  pub data Carries : Conf W → List Statement → Result W → Type 0 where
    finished :
        {c : Conf W} (s : Source)
        → s.file ≡ c.source.file
        → Carries c [] (returned (at_end status) (with_source os mods status c s))
    accepted :
        {c c' : Conf W} {ws : List Bytes} {e : End} {stmts : List Statement} {r : Result W}
        (s : Source) (ret : Ret)
        → contents s.tokens ≡ tokens_of os ws
        → handle os mods (end_ret e) (with_source os mods status c s) ≡ handled ret c'
        → is_ok ret ≡ true
        → Carries c' stmts r
        → Carries c ((ws, e) ∷ stmts) r
    refused :
        {c c' : Conf W} {ws : List Bytes} {e : End} {stmts : List Statement} (s : Source)
        (ret : Ret)
        → contents s.tokens ≡ tokens_of os ws
        → handle os mods (end_ret e) (with_source os mods status c s) ≡ handled ret c'
        → is_ok ret ≡ false
        → Carries c ((ws, e) ∷ stmts) (returned Ret.error c')
    undefined :
        {c : Conf W} {ws : List Bytes} {e : End} {stmts : List Statement} (s : Source)
        → contents s.tokens ≡ tokens_of os ws
        → handle os mods (end_ret e) (with_source os mods status c s) ≡ Handle.fault
        → Carries c ((ws, e) ∷ stmts) fault

next_token_end :
    (os : Os) (k : ℕ) (c : Source)
    → Holds c.file []
    → c.file.st_size ≤ c.file.off
    → next_token os (suc k) c ≡ done file_done_ret (cleared c)
unfolding next_token scan round refill
next_token_end os k c h over = ground (arith, h.whole)

advance_size : (xs : Bytes) (f : File) → (advance xs f).st_size ≡ f.st_size
advance_size [] f = refl
advance_size (x ∷ xs) f = advance_size xs (shifted x f)

advance_off : (xs : Bytes) (f : File) → (advance xs f).off ≡ f.off
advance_off [] f = refl
advance_off (x ∷ xs) f = advance_off xs (shifted x f)

length-printed :
    (ws : List Bytes) (e : End) (rest : Bytes)
    → length (printed ws e rest) ≡ length (printed ws e []) + length rest
unfolding printed
length-printed [] e rest = omega arith
length-printed (w ∷ ws) e rest = omega (
  arith,
  length-printed ws e rest,
  length-append _ (b'"' ∷ b' ' ∷ printed ws e rest),
  length-append _ (b'"' ∷ b' ' ∷ printed ws e []),
)

length-tokens_of : (os : Os) (ws : List Bytes) → length (tokens_of os ws) ≡ length ws
length-tokens_of os [] = refl
length-tokens_of os (w ∷ ws) = ap suc (length-tokens_of os ws)

-- The rest of the input is these statements, all of it in the buffer, and there is room for their
-- tokens.
pub record Ready (stmts : List Statement) (s : Source) : Type 0 where
  pub valid : IsValid s.tokens
  pub small : s.tokens.ele_size ≤ 2 ^ 32
  pub room : s.tokens.ele_capa + 2 * words_in stmts < 2 ^ 30
  pub here : Holds s.file (text_of stmts)
  pub last : s.file.buf.last < 2 ^ 63
  pub over : s.file.st_size ≤ s.file.off

module _ {W : Type 0} (os : Os) (mods : List (Mod W)) (status : Status)
    (got : (n : ℕ) → os.malloc n ≡ true) where
  -- what a call of the lexer leaves of a list of statements
  record Taken (ws : List Bytes) (e : End) (stmts : List Statement) (c : Source) : Type 0 where
    final : Source
    returns : next_token os (suc (unread c.file)) c ≡ done (end_ret e) final
    held : contents final.tokens ≡ tokens_of os ws
    ready : Ready stmts final

  take_statement :
      (ws : List Bytes) (e : End) (stmts : List Statement) (c : Source)
      → Ready ((ws, e) ∷ stmts) c
      → Taken ws e stmts c
  take_statement ws e stmts c r =
      let here : Holds c.file (printed ws e (text_of stmts)) = r.here in
      let n = length (printed ws e []) in
      let k = suc (unread c.file) - n in
      let enough : n + k ≡ suc (unread c.file) =
        omega (arith, here.whole, length-printed ws e (text_of stmts)) in
      let l =
        next_token-Lexed os ws e k c (text_of stmts) got r.valid r.small (omega (arith, r.room))
          here r.last in
      let count : l.final.tokens.ele_count ≡ length ws =
        sym (length-contents l.final.tokens l.roomy.valid)
        ∙ ap length l.held
        ∙ length-tokens_of os ws in
      record {
        final = l.final;
        returns = ap (λ m. next_token os m c) (sym enough) ∙ l.returns;
        held = l.held;
        ready = record {
          valid = l.roomy.valid;
          small = l.roomy.small;
          room = omega (arith, l.roomy.capa, count, r.room);
          here = l.follows;
          last =
              omega
                (arith, ap (λ f. f.buf.last) l.file, advance_last (printed ws e []) c.file, r.last);
          over = omega (
            arith,
            ap (λ (f : File). f.st_size) l.file,
            ap (λ (f : File). f.off) l.file,
            advance_size (printed ws e []) c.file,
            advance_off (printed ws e []) c.file,
            r.over,
          );
        };
      }

  -- behind a statement's handling
  handled-Carries :
      (ws : List Bytes) (e : End) (stmts : List Statement) (s : Source) (c : Conf W)
      (rest : Conf W → Result W) (h : Handled W)
      → contents s.tokens ≡ tokens_of os ws
      → handle os mods (end_ret e) (with_source os mods status c s) ≡ h
      → Keeps s h
      → ((c' : Conf W) → c'.source ≡ s → Carries os mods status c' stmts (rest c'))
      → Carries os mods status c ((ws, e) ∷ stmts) (handled_next os mods status rest h)
  handled-Carries ws e stmts s c rest Handle.fault held h k ih = undefined s held h
  handled-Carries ws e stmts s c rest (handled ret c') held h k ih = elim (Bool-cases (is_ok ret)) [
    | inl fine ↦ rw (fine, handled_next) (accepted s ret held h fine (ih c' k))
    | inr failed ↦ rw (failed, handled_next) (refused s ret held h failed)
  ]

  token_next_statement :
      (e : End) (rest : Conf W → Result W) (c : Conf W) (s : Source)
      → token_next os mods status rest c (done (end_ret e) s)
        ≡ handled_next os mods status rest
            (handle os mods (end_ret e) (with_source os mods status c s))
  token_next_statement semicolon rest c s = refl
  token_next_statement open_brace rest c s = refl
  token_next_statement close_brace rest c s = refl

  -- With more rounds than statements, a configuration whose text is in the buffer is carried out.
  pub parse_loop-Carries :
      (stmts : List Statement) (k : ℕ) (c : Conf W)
      → length stmts < k
      → Ready stmts c.source
      → Carries os mods status c stmts (parse_loop os mods status k c)
  unfolding parse_loop
  parse_loop-Carries stmts zero c l r = absurd (omega arith)
  parse_loop-Carries [] (suc k) c l r =
      let ends = next_token_end os (unread c.source.file) c.source r.here r.over in
      rw (parse_loop, ends) (finished (cleared c.source) refl)
  parse_loop-Carries ((ws, e) ∷ stmts) (suc k) c l r =
      let t = take_statement ws e stmts c.source r in
      let c' = with_source os mods status c t.final in
      rw (parse_loop, t.returns, token_next_statement e (parse_loop os mods status k) c t.final)
        (handled-Carries ws e stmts t.final c (parse_loop os mods status k) _ t.held refl
          (handle-Keeps os mods (end_ret e) c')
          λ d same.
            parse_loop-Carries stmts k d (omega arith) (subst (Ready stmts) (sym same) t.ready))
