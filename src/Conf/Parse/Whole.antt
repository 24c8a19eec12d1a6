-- ===== src/Conf/Parse/Whole.antt =====
-- A configuration of statements as `fs_conf_parse` finds it: in a file, or on the command line.
use folksong.Prelude.{
  ℕ, zero, suc, ◌+◌, ◌*◌, ◌^◌, ◌≤◌, ◌<◌, ◌≡◌, refl, sym, ap, ◌∙◌, true, false, none, some, List, [],
  ◌∷◌, ◌++◌, length, drop, replicate, Bytes, arith, ◌==◌,
}
use folksong.Arr.Push.{IsValid}
use folksong.Conf.{Conf, Mod}
use folksong.Conf.Parse.{
  Status, parse_file, parse_param, payload_buffer_size, Result, unread, token_next, parse_loop,
  opened, with_file, parse, parse_cmdline,
}
use folksong.Conf.Parse.Printed.{Statement, text_of, words_in, Carries, Ready, parse_loop-Carries}
use folksong.File.{File, buf_alloc, file_read, file_read_in_buf}
use folksong.Lexer
use folksong.Lexer.{Source, Outcome, done, refill, carry, resume, round, scan, next_token}
use folksong.Lexer.RoundTrip.{printed, cleared}
use folksong.Os.{Os}
use folksong.Str.{Str, c_string}
use folksong.Token.{ok, error, pass, block_start, block_end, file_done_ret, start}

printed_some : (s : Statement) (stmts : List Statement) → 0 < length (text_of (s ∷ stmts))
unfolding printed
printed_some ([], e) stmts = omega arith
printed_some (w ∷ ws, e) stmts = omega arith

-- the configuration's file behind the read of `text`
abbrev pub read_in : Os → Bytes → File
read_in os text = record {
  fd_invalid = false;
  st_size = length text;
  buf = record {
    buf_len = payload_buffer_size;
    mem = text ++ drop (length text) (replicate payload_buffer_size os.fill);
    pos = 0;
    last = length text;
  };
  off = length text;
  line = 1;
}

-- a window of memory over `text`
abbrev pub window : Bytes → Bytes → Str
window text slack = record { mem = text ++ slack; size = length text }

-- the file that stands for a command line
abbrev pub typed_in : Bytes → Bytes → File
typed_in text slack = record {
  fd_invalid = true;
  st_size = 0;
  buf = record { buf_len = 0; mem = text ++ slack; pos = 0; last = length text };
  off = 0;
  line = 1;
}

-- A file of `text`, which is read at once.
pub record Reads (os : Os) (text : Bytes) : Type 0 where
  pub size : os.st_size ≡ length text
  pub fits : length text ≤ payload_buffer_size
  pub seeks : os.seeks 0 ≡ true
  pub reads : os.read 0 (length text) ≡ some text
  pub stray : os.stray ≡ false

refill-opened :
    (os : Os) (text : Bytes)
    → Reads os text
    → 0 < length text
    → refill os (opened os) ≡ (none, read_in os text)
unfolding refill opened buf_alloc file_read file_read_in_buf
refill-opened os text r some_text = ground (arith, r.size, r.fits, r.seeks, r.reads, r.stray)

unread-opened :
    (os : Os) (text : Bytes) → Reads os text → unread (opened os) ≡ unread (read_in os text)
unfolding opened buf_alloc
unread-opened os text r = omega (arith, r.size)

-- a refill at the start of a call is the call's first step
next_token-refilled :
    (os : Os) (n : ℕ) (c : Source) (f : File)
    → refill os c.file ≡ (none, f)
    → refill os f ≡ (none, f)
    → next_token os (suc n) c ≡ next_token os (suc n) (record c { file = f })
unfolding next_token scan round
next_token-refilled os n c f e e' =
    ap (λ r. carry (scan os n) (resume os start (cleared c) r)) e
    ∙ sym (ap (λ r. carry (scan os n) (resume os start (cleared (record c { file = f })) r)) e')

refill-read_in :
    (os : Os) (text : Bytes)
    → 0 < length text
    → refill os (read_in os text) ≡ (none, read_in os text)
unfolding refill
refill-read_in os text some_text = ground arith

read_in-Ready :
    (os : Os) (stmts : List Statement) (s : Source)
    → length (text_of stmts) < 2 ^ 63
    → IsValid s.tokens
    → s.tokens.ele_size ≤ 2 ^ 32
    → s.tokens.ele_capa + 2 * words_in stmts < 2 ^ 30
    → Ready stmts (record s { file = read_in os (text_of stmts) })
read_in-Ready os stmts s last valid small room = record {
  valid = valid;
  small = small;
  room = room;
  here = record {
    slack = drop (length (text_of stmts)) (replicate payload_buffer_size os.fill);
    here = refl;
    whole = omega arith;
  };
  last = last;
  over = omega arith;
}

module _ {W : Type 0} (os : Os) (mods : List (Mod W)) where
  token_next-with_file :
      (status : Status) (rest : Conf W → Result W) (c : Conf W) (f : File) (o : Outcome)
      → token_next os mods status rest c o ≡ token_next os mods status rest (with_file c f) o
  token_next-with_file status rest c f Lexer.fault = refl
  token_next-with_file status rest c f Lexer.out_of_fuel = refl
  token_next-with_file status rest c f (done ok s) = refl
  token_next-with_file status rest c f (done error s) = refl
  token_next-with_file status rest c f (done pass s) = refl
  token_next-with_file status rest c f (done block_start s) = refl
  token_next-with_file status rest c f (done block_end s) = refl
  token_next-with_file status rest c f (done file_done_ret s) = refl

  parse_loop-refilled :
      (status : Status) (k : ℕ) (c : Conf W) (f : File)
      → refill os c.source.file ≡ (none, f)
      → refill os f ≡ (none, f)
      → unread c.source.file ≡ unread f
      → parse_loop os mods status k c ≡ parse_loop os mods status k (with_file c f)
  unfolding parse_loop
  parse_loop-refilled status zero c f e e' same = refl
  parse_loop-refilled status (suc k) c f e e' same =
      token_next-with_file status (parse_loop os mods status k) c f _
      ∙ ap (token_next os mods status (parse_loop os mods status k) (with_file c f)) (
          next_token-refilled os (unread c.source.file) c.source f e e'
          ∙ ap (λ n. next_token os (suc n) (record c.source { file = f })) same)

  module _ (got : (n : ℕ) → os.malloc n ≡ true) (c : Conf W) (stmt : Statement)
      (stmts : List Statement) (valid : IsValid c.source.tokens)
      (small : c.source.tokens.ele_size ≤ 2 ^ 32)
      (room : c.source.tokens.ele_capa + 2 * words_in (stmt ∷ stmts) < 2 ^ 30) where
    -- A configuration file of double-quoted statements that fits the buffer, and that one read brings,
    -- is carried out: its statements are handled in their order, each with its words as the tokens,
    -- until one is refused.
    pub parse-Carries :
        (fuel : ℕ) (filename : Str)
        → length (stmt ∷ stmts) < fuel
        → os.opens (c_string filename.mem) ≡ true
        → Reads os (text_of (stmt ∷ stmts))
        → Carries os mods parse_file
            (with_file c (read_in os (text_of (stmt ∷ stmts))))
            (stmt ∷ stmts)
            (parse os mods fuel c (some filename))
    unfolding parse
    parse-Carries fuel filename l there r =
        let text = text_of (stmt ∷ stmts) in
        let some_text = printed_some stmt stmts in
        let loop =
          parse_loop-Carries os mods parse_file got (stmt ∷ stmts) fuel
            (with_file c (read_in os text)) l
            (read_in-Ready os (stmt ∷ stmts) c.source (omega (arith, r.fits)) valid small room) in
        let same =
          parse_loop-refilled parse_file fuel (with_file c (opened os)) (read_in os text)
            (refill-opened os text r some_text) (refill-read_in os text some_text)
            (unread-opened os text r) in
        rw (parse, there, same) loop

    -- A command line of double-quoted statements is carried out in the same way, whatever stands in
    -- memory behind it.
    pub parse_cmdline-Carries :
        (fuel : ℕ) (slack : Bytes)
        → length (stmt ∷ stmts) < fuel
        → length (text_of (stmt ∷ stmts)) < 2 ^ 63
        → Carries os mods parse_param
            (with_file c (typed_in (text_of (stmt ∷ stmts)) slack))
            (stmt ∷ stmts)
            (parse_cmdline os mods fuel c (window (text_of (stmt ∷ stmts)) slack))
    unfolding parse_cmdline parse
    parse_cmdline-Carries fuel slack l short =
        let text = text_of (stmt ∷ stmts) in
        let some_text : (length text == 0) ≡ false = ground (arith, printed_some stmt stmts) in
        let ready : Ready (stmt ∷ stmts) (record c.source { file = typed_in text slack }) = record {
          valid = valid;
          small = small;
          room = room;
          here = record { slack = slack; here = refl; whole = omega arith };
          last = short;
          over = omega arith;
        } in
        rw (parse_cmdline, some_text, parse)
          (parse_loop-Carries os mods parse_param got (stmt ∷ stmts) fuel
            (with_file c (typed_in text slack)) l ready)
