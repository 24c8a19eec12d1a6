-- ===== src/Lexer/Fuel.antt =====
-- `fs_conf_next_token` ends: every round takes a byte that is still to be read.
use folksong.Prelude.{ℕ, zero, suc, ◌+◌, ◌-◌, ◌≤◌, ◌<◌, ◌≢◌, ◌⊎◌, Option, none, some, arith}
use folksong.Os.{Os}
use folksong.File.{File, file_read, file_read_in_buf, buf_lshift}
use folksong.Token.{Ret, Scan, start, Verdict, go, leave, store, step}
use folksong.Lexer.{
  Source, Outcome, done, fault, out_of_fuel, push_token, refill, next_byte, Round, next, stop, act,
  read_round, resume, round, scan, next_token, carry, with_byte,
}

-- the bytes in the buffer and in the file that no round has taken
abbrev pub left : File → ℕ
left f = (f.buf.last - f.buf.pos) + (f.st_size - f.off)

-- A refill brings at least one byte, or none is ever made.
abbrev pub CanFill : File → Type 0
CanFill f = (f.st_size ≤ f.off) ⊎ (0 < f.buf.buf_len)

-- `f'` is `f` with no more to read
pub record Shrinks (f f' : File) : Type 0 where
  pub can_fill : CanFill f'
  pub no_more : left f' ≤ left f

abbrev pub Refilled : File → Option Ret × File → Type 0
Refilled f (some r, f') = Unit
Refilled f (none, f') = Shrinks f f' × (f'.buf.pos < f'.buf.last)

pub refill-Refilled : (os : Os) (f : File) → CanFill f → Refilled f (refill os f)
unfolding refill file_read file_read_in_buf
refill-Refilled os f h = ground arith

abbrev Falls : ℕ → Round → Type 0
Falls n (next s c) = CanFill c.file × (left c.file < n)
Falls n (stop out_of_fuel) = ⊥
Falls n (stop o) = Unit

act-Falls :
    (os : Os) (v : Verdict) (chr n : ℕ) (c : Source)
    → CanFill c.file
    → left c.file < n
    → Falls n (act os v chr c)
unfolding act push_token
act-Falls os (go s) chr n c h l = (h, l)
act-Falls os (leave r) chr n c h l = tt
act-Falls os (store s) chr n c h l = ground arith

abbrev pub Shifted : File → Option (ℕ × File) → Type 0
Shifted f none = Unit
Shifted f (some (chr, f')) = CanFill f' × (left f' < left f)

pub next_byte-Shifted : (f : File) → CanFill f → f.buf.pos < f.buf.last → Shifted f (next_byte f)
unfolding next_byte buf_lshift
next_byte-Shifted f h room = ground arith

with_byte-Falls :
    (os : Os) (s : Scan) (c : Source) (b : Option (ℕ × File))
    → Shifted c.file b
    → Falls (left c.file) (with_byte os s c b)
with_byte-Falls os s c none h = tt
with_byte-Falls os s c (some (chr, f)) h =
    act-Falls os (step s f.buf.pos chr) chr _ (record c { file = f }) h.0 h.1

Falls-le : (n m : ℕ) (r : Round) → n ≤ m → Falls n r → Falls m r
Falls-le n m (next s c) le h = (h.0, omega arith)
Falls-le n m (stop (done r c)) le h = tt
Falls-le n m (stop fault) le h = tt
Falls-le n m (stop out_of_fuel) le h = h

resume-Falls :
    (os : Os) (s : Scan) (c : Source) (r : Option Ret × File)
    → Refilled c.file r
    → Falls (left c.file) (resume os s c r)
unfolding read_round
resume-Falls os s c (some r, f) h = tt
resume-Falls os s c (none, f) h = Falls-le (left f) (left c.file) _ h.0.no_more (
    with_byte-Falls os s (record c { file = f }) (next_byte f)
      (next_byte-Shifted f h.0.can_fill h.1))

-- A round that goes on leaves fewer bytes to read.
pub round-Falls :
    (os : Os) (s : Scan) (c : Source) → CanFill c.file → Falls (left c.file) (round os s c)
unfolding round
round-Falls os s c h = resume-Falls os s c (refill os c.file) (refill-Refilled os c.file h)

carry-ne-out_of_fuel :
    (rest : Scan → Source → Outcome) (n : ℕ) (r : Round)
    → Falls n r
    → ((s : Scan) (c : Source) → CanFill c.file → left c.file < n → rest s c ≢ out_of_fuel)
    → carry rest r ≢ out_of_fuel
carry-ne-out_of_fuel rest n (next s c) h ih = ih s c h.0 h.1
carry-ne-out_of_fuel rest n (stop (done r c)) h ih = λ e. cc
carry-ne-out_of_fuel rest n (stop fault) h ih = λ e. cc
carry-ne-out_of_fuel rest n (stop out_of_fuel) h ih = absurd h

scan-ne-out_of_fuel :
    (os : Os) (k : ℕ) (s : Scan) (c : Source)
    → CanFill c.file
    → left c.file < k
    → scan os k s c ≢ out_of_fuel
unfolding scan
scan-ne-out_of_fuel os zero s c h fuel = absurd (omega arith)
scan-ne-out_of_fuel os (suc k) s c h fuel =
    carry-ne-out_of_fuel (scan os k) (left c.file) (round os s c) (round-Falls os s c h)
      λ s' c' h' l. scan-ne-out_of_fuel os k s' c' h' (omega arith)

-- With more fuel than bytes left to read, and a buffer that can take some, a call returns.
pub next_token-ne-out_of_fuel :
    (os : Os) (fuel : ℕ) (c : Source)
    → CanFill c.file
    → left c.file < fuel
    → next_token os fuel c ≢ out_of_fuel
unfolding next_token
next_token-ne-out_of_fuel os fuel c h l = scan-ne-out_of_fuel os fuel start _ h l
