-- ===== src/Lexer.antt =====
-- The loop of `fs_conf_next_token` of core/fs_conf.c: Token's machine over a file's buffer.
pub mod Fuel
pub mod Rounds
pub mod Quote
pub mod Store
pub mod RoundTrip
use folksong.Prelude.{
  ℕ, zero, suc, ◌+◌, ◌-◌, ◌%◌, ◌^◌, Bool, true, false, Option, none, some, List, [], ◌∷◌, ◌==◌,
  if◌then◌else◌, get_or, take, drop, Bytes,
}
use folksong.Arr.{Arr}
use folksong.Arr
use folksong.Os.{Os}
use folksong.Str.{Str}
use folksong.File.{Buf, File, buf_overflow, buf_lshift, file_done, remain_size, file_read}
use folksong.Token.{
  Ret, ok, error, file_done_ret, block_start, Scan, start, Verdict, go, leave, store, step,
}
use folksong.Unescape.{copied, token_block}

-- the part of `fs_conf_s` that the lexer uses
pub record Source : Type 0 where
  pub tokens : Arr Str
  pub file : File

-- `fault` is undefined behaviour: a NULL written through, or an access outside a block.
pub data Outcome : Type 0 where
  done : Ret → Source → Outcome
  fault : Outcome
  out_of_fuel : Outcome

-- `if (found_token)`, up to the copy: the new token's block
unfoldable pub new_token : Os → Buf → ℕ → Option Str
unfolding copied token_block
new_token os b token_start =
    let size = (b.pos + 2 ^ 64 - token_start) % 2 ^ 64 in
    let src = take (b.pos - 1 - token_start) (drop token_start b.mem) in
    if os.malloc size
    then token_block os.fill size (copied src (get_or b.mem (b.pos - 1) 0))
    else none

unfoldable pub push_token : Os → ℕ → Source → Option Source
unfolding new_token Arr.push
push_token os token_start c = elim (Arr.push os.malloc c.tokens) [
  | none ↦ none
  | some (n, tokens) ↦ elim (new_token os c.file.buf token_start) [
    | none ↦ none
    | some str ↦ some (record c { tokens = Arr.put tokens n str })
  ]
]

-- the head of a round: refill an empty buffer; `some ret` leaves the function
unfoldable pub refill : Os → File → Option Ret × File
unfolding file_read
refill os f =
    if buf_overflow f.buf
    then (if file_done f
        then (some file_done_ret, f)
        else (let (failed, f') = file_read os f (remain_size f) in
            (if failed then some error else none, f')))
    else (none, f)

-- the byte of a round, with `fs_file_line(conf->file)++`
unfoldable pub next_byte : File → Option (ℕ × File)
unfolding buf_lshift
next_byte f = elim (buf_lshift f.buf) [
  | none ↦ none
  | some (c, b) ↦
      some (c, record f { buf = b; line = if c == b'\n' then (f.line + 1) % 2 ^ 32 else f.line })
]

-- One round of the loop: it goes on with a state, or is over.
pub data Round : Type 0 where
  next : Scan → Source → Round
  stop : Outcome → Round

-- what the byte `chr` that ended a token decides
abbrev pub after_token : ℕ → Scan → Source → Round
after_token chr s c =
    if chr == b';'
    then stop (done ok c)
    else if chr == b'{'
    then stop (done block_start c)
    else next s c

-- the rounds behind one
abbrev pub carry : (Scan → Source → Outcome) → Round → Outcome
carry rest (next s c) = rest s c
carry rest (stop o) = o

module _ (os : Os) where
  unfoldable pub act : Verdict → ℕ → Source → Round
  unfolding push_token
  act (go s) chr c = next s c
  act (leave ret) chr c = stop (done ret c)
  act (store s) chr c = elim (push_token os s.token_start c) [
    | none ↦ stop fault
    | some c' ↦ after_token chr s c'
  ]

  abbrev pub with_byte : Scan → Source → Option (ℕ × File) → Round
  with_byte s c none = stop fault
  with_byte s c (some (chr, f)) = act (step s f.buf.pos chr) chr (record c { file = f })

  unfoldable pub read_round : Scan → Source → Round
  unfolding act step next_byte
  read_round s c = with_byte s c (next_byte c.file)

  abbrev pub resume : Scan → Source → Option Ret × File → Round
  resume s c (none, f) = read_round s (record c { file = f })
  resume s c (some ret, f) = stop (done ret (record c { file = f }))

  unfoldable pub round : Scan → Source → Round
  unfolding refill read_round
  round s c = resume s c (refill os c.file)

  unfoldable pub scan : ℕ → Scan → Source → Outcome
  unfolding round
  scan zero s c = out_of_fuel
  scan (suc k) s c = carry (scan k) (round s c)

  -- `fs_conf_next_token`: the tokens of the last call are forgotten, not released
  unfoldable pub next_token : ℕ → Source → Outcome
  unfolding scan
  next_token fuel c = scan fuel start (record c { tokens = record c.tokens { ele_count = 0 } })
