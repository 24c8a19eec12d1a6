-- ===== src/Conf/Parse/Ends.antt =====
-- `fs_conf_parse` ends: every statement takes a byte that is still to be read.
use folksong.Prelude.{
  ℕ, zero, suc, ◌≤◌, ◌<◌, ◌≡◌, ◌≢◌, ◌⊎◌, inl, inr, refl, sym, true, Option, none, some, List, arith,
  Bool-cases, subst, ◌==◌,
}
use folksong.Conf.{Conf, Mod}
use folksong.Conf.Handle.{Handled, handled, handle}
use folksong.Conf.Handle
use folksong.Conf.Handle.Source.{Keeps, handle-Keeps}
use folksong.Conf.Parse.{
  Status, Result, out_of_fuel, unread, with_source, handled_next, token_next, parse_loop, opened,
  with_file, parse, parse_cmdline, parse_file, parse_param,
}
use folksong.File.{File, buf_alloc}
use folksong.Lexer
use folksong.Lexer.{
  Source, Outcome, done, push_token, refill, next_byte, Round, next, stop, act, read_round, resume,
  round, scan, next_token, carry, with_byte, after_token,
}
use folksong.Lexer.Fuel.{
  CanFill, left, Refilled, Shifted, refill-Refilled, next_byte-Shifted, next_token-ne-out_of_fuel,
}
use folksong.Os.{Os}
use folksong.Str.{Str, c_string}
use folksong.Token.{
  Ret, ok, error, pass, block_start, block_end, file_done_ret, Scan, start, Verdict, go, leave,
  store, step, is_ok,
}

-- What a call of the lexer leaves: it found the end or an error, or it took a byte at least.
abbrev pub Took : ℕ → Outcome → Type 0
Took n Lexer.fault = Unit
Took n Lexer.out_of_fuel = Unit
Took n (done error c) = Unit
Took n (done file_done_ret c) = Unit
Took n (done ok c) = CanFill c.file × (left c.file < n)
Took n (done pass c) = CanFill c.file × (left c.file < n)
Took n (done block_start c) = CanFill c.file × (left c.file < n)
Took n (done block_end c) = CanFill c.file × (left c.file < n)

Took-any : (n : ℕ) (ret : Ret) (c : Source) → CanFill c.file → left c.file < n → Took n (done ret c)
Took-any n ok c h l = (h, l)
Took-any n error c h l = tt
Took-any n file_done_ret c h l = tt
Took-any n pass c h l = (h, l)
Took-any n block_start c h l = (h, l)
Took-any n block_end c h l = (h, l)

Took-le : (n m : ℕ) (o : Outcome) → n ≤ m → Took n o → Took m o
Took-le n m Lexer.fault le t = tt
Took-le n m Lexer.out_of_fuel le t = tt
Took-le n m (done error c) le t = tt
Took-le n m (done file_done_ret c) le t = tt
Took-le n m (done ok c) le t = (t.0, omega arith)
Took-le n m (done pass c) le t = (t.0, omega arith)
Took-le n m (done block_start c) le t = (t.0, omega arith)
Took-le n m (done block_end c) le t = (t.0, omega arith)

-- the same for one round
abbrev Rounds : ℕ → Round → Type 0
Rounds n (next s c) = CanFill c.file × (left c.file < n)
Rounds n (stop o) = Took n o

Rounds-le : (n m : ℕ) (r : Round) → n ≤ m → Rounds n r → Rounds m r
Rounds-le n m (next s c) le h = (h.0, omega arith)
Rounds-le n m (stop o) le h = Took-le n m o le h

act-Rounds :
    (os : Os) (v : Verdict) (chr n : ℕ) (c : Source)
    → CanFill c.file
    → left c.file < n
    → Rounds n (act os v chr c)
unfolding act push_token
act-Rounds os (go s) chr n c h l = (h, l)
act-Rounds os (leave r) chr n c h l = Took-any n r c h l
act-Rounds os (store s) chr n c h l = ground arith

with_byte-Rounds :
    (os : Os) (s : Scan) (c : Source) (b : Option (ℕ × File))
    → Shifted c.file b
    → Rounds (left c.file) (with_byte os s c b)
with_byte-Rounds os s c none h = tt
with_byte-Rounds os s c (some (chr, f)) h =
    act-Rounds os (step s f.buf.pos chr) chr _ (record c { file = f }) h.0 h.1

-- a refill that leaves the function
abbrev Refused : Option Ret × File → Type 0
Refused (none, f) = Unit
Refused (some r, f) = (r ≡ error) ⊎ (r ≡ file_done_ret)

refill-Refused : (os : Os) (f : File) → Refused (refill os f)
unfolding refill
refill-Refused os f = ground arith

Refused-Took :
    (n : ℕ) (r : Ret) (c : Source) → (r ≡ error) ⊎ (r ≡ file_done_ret) → Took n (done r c)
Refused-Took n r c (inl e) = rw e tt
Refused-Took n r c (inr e) = rw e tt

resume-Rounds :
    (os : Os) (s : Scan) (c : Source) (r : Option Ret × File)
    → Refilled c.file r
    → Refused r
    → Rounds (left c.file) (resume os s c r)
unfolding read_round
resume-Rounds os s c (some r, f) h u = Refused-Took (left c.file) r _ u
resume-Rounds os s c (none, f) h u = Rounds-le (left f) (left c.file) _ h.0.no_more (
    with_byte-Rounds os s (record c { file = f }) (next_byte f)
      (next_byte-Shifted f h.0.can_fill h.1))

carry-Took :
    (rest : Scan → Source → Outcome) (n : ℕ) (r : Round)
    → Rounds n r
    → ((s : Scan) (c : Source) → CanFill c.file → left c.file < n → Took n (rest s c))
    → Took n (carry rest r)
carry-Took rest n (next s c) h ih = ih s c h.0 h.1
carry-Took rest n (stop o) h ih = h

scan-Took :
    (os : Os) (k : ℕ) (s : Scan) (c : Source) → CanFill c.file → Took (left c.file) (scan os k s c)
unfolding scan round
scan-Took os zero s c h = tt
scan-Took os (suc k) s c h =
    carry-Took (scan os k) (left c.file) (round os s c)
      (resume-Rounds os s c (refill os c.file) (refill-Refilled os c.file h)
        (refill-Refused os c.file))
      λ s' c' h' l. Took-le (left c'.file) (left c.file) _ (omega arith) (scan-Took os k s' c' h')

next_token-Took :
    (os : Os) (fuel : ℕ) (c : Source) → CanFill c.file → Took (left c.file) (next_token os fuel c)
unfolding next_token
next_token-Took os fuel c h = scan-Took os fuel start _ h

module _ {W : Type 0} (os : Os) (mods : List (Mod W)) (status : Status) where
  handled_next-ne-out_of_fuel :
      (n : ℕ) (rest : Conf W → Result W) (s : Source) (h : Handled W)
      → CanFill s.file × (left s.file < n)
      → ((c : Conf W) → CanFill c.source.file → left c.source.file < n → rest c ≢ out_of_fuel)
      → Keeps s h
      → handled_next os mods status rest h ≢ out_of_fuel
  handled_next-ne-out_of_fuel n rest s Handle.fault t ih k = λ e. cc
  handled_next-ne-out_of_fuel n rest s (handled ret c) t ih k = elim (Bool-cases (is_ok ret)) [
    | inl fine ↦
        let t' : CanFill c.source.file × (left c.source.file < n) =
          subst (λ s'. CanFill s'.file × (left s'.file < n)) (sym k) t in
        rw fine (ih c t'.0 t'.1)
    | inr failed ↦ rw failed (λ e. cc)
  ]

  token_next-ne-out_of_fuel :
      (n : ℕ) (rest : Conf W → Result W) (c : Conf W) (o : Outcome)
      → Took n o
      → o ≢ Lexer.out_of_fuel
      → ((c : Conf W) → CanFill c.source.file → left c.source.file < n → rest c ≢ out_of_fuel)
      → token_next os mods status rest c o ≢ out_of_fuel
  token_next-ne-out_of_fuel n rest c Lexer.fault t ne ih = λ e. cc
  token_next-ne-out_of_fuel n rest c Lexer.out_of_fuel t ne ih = absurd (ne refl)
  token_next-ne-out_of_fuel n rest c (done error s) t ne ih = λ e. cc
  token_next-ne-out_of_fuel n rest c (done file_done_ret s) t ne ih = λ e. cc
  token_next-ne-out_of_fuel n rest c (done ok s) t ne ih =
      handled_next-ne-out_of_fuel n rest s _ t ih
        (handle-Keeps os mods ok (with_source os mods status c s))
  token_next-ne-out_of_fuel n rest c (done pass s) t ne ih =
      handled_next-ne-out_of_fuel n rest s _ t ih
        (handle-Keeps os mods pass (with_source os mods status c s))
  token_next-ne-out_of_fuel n rest c (done block_start s) t ne ih =
      handled_next-ne-out_of_fuel n rest s _ t ih
        (handle-Keeps os mods block_start (with_source os mods status c s))
  token_next-ne-out_of_fuel n rest c (done block_end s) t ne ih =
      handled_next-ne-out_of_fuel n rest s _ t ih
        (handle-Keeps os mods block_end (with_source os mods status c s))

  -- With more statements allowed than bytes are left to read, the loop returns.
  pub parse_loop-ne-out_of_fuel :
      (k : ℕ) (c : Conf W)
      → CanFill c.source.file
      → left c.source.file < k
      → parse_loop os mods status k c ≢ out_of_fuel
  unfolding parse_loop
  parse_loop-ne-out_of_fuel zero c h l = absurd (omega arith)
  parse_loop-ne-out_of_fuel (suc k) c h l =
      token_next-ne-out_of_fuel (left c.source.file) (parse_loop os mods status k) c _
        (next_token-Took os (suc (unread c.source.file)) c.source h)
        (next_token-ne-out_of_fuel os (suc (unread c.source.file)) c.source h (omega arith))
        λ c' h' l'. parse_loop-ne-out_of_fuel k c' h' (omega arith)

module _ {W : Type 0} (os : Os) (mods : List (Mod W)) where
  -- A call for a file ends when it may take more statements than the file has bytes, whatever the modules'
  -- handlers do.
  pub parse-ne-out_of_fuel :
      (fuel : ℕ) (c : Conf W) (filename : Str)
      → os.st_size < fuel
      → parse os mods fuel c (some filename) ≢ out_of_fuel
  unfolding parse opened buf_alloc
  parse-ne-out_of_fuel fuel c filename l = elim (Bool-cases (os.opens (c_string filename.mem))) [
    | inl there ↦
        rw (parse, there)
          (parse_loop-ne-out_of_fuel os mods parse_file fuel (with_file c (opened os))
            (inr (omega arith)) (omega arith))
    | inr missing ↦ rw (parse, missing) (λ e. cc)
  ]

  -- A call for the command line ends when it may take more statements than the text has bytes, whatever the
  -- modules' handlers do.
  pub parse_cmdline-ne-out_of_fuel :
      (fuel : ℕ) (c : Conf W) (cmdline : Str)
      → cmdline.size < fuel
      → parse_cmdline os mods fuel c cmdline ≢ out_of_fuel
  unfolding parse_cmdline parse
  parse_cmdline-ne-out_of_fuel fuel c cmdline l = elim (Bool-cases (cmdline.size == 0)) [
    | inl empty ↦ rw (parse_cmdline, empty) (λ e. cc)
    | inr text ↦
        let typed : Conf W = with_file c (record {
          fd_invalid = true;
          st_size = 0;
          buf = record { buf_len = 0; mem = cmdline.mem; pos = 0; last = cmdline.size };
          off = 0;
          line = 1;
        }) in
        rw (parse_cmdline, text, parse)
          (parse_loop-ne-out_of_fuel os mods parse_param fuel typed (inl (omega arith))
            (omega arith))
  ]
