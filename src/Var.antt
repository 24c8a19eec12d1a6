-- ===== src/Var.antt =====
-- core/fs_var.c: `fs_var_parse` cuts a text into plain pieces and `${...}` variables.
pub mod Cut
use folksong.Prelude.{
  ℕ, suc, ◌+◌, Bool, true, false, Option, none, some, [], ◌∷◌, ◌++◌, ◌==◌, ltb, if◌then◌else◌,
  length, not, ◌&&◌, ◌||◌, Bytes,
}
use folksong.Arr
use folksong.Arr.{Arr, Malloc}

-- A piece under construction: the bytes from `pos` to `last`, in a block of `buf_len` bytes.
pub record Piece : Type 0 where
  pub bytes : Bytes
  pub buf_len : ℕ

-- the locals of the loop; `token` is the slot that the pointer leads to
pub record Cursor : Type 0 where
  pub arr : Arr Piece
  pub variable : Bool
  pub token : Option ℕ

-- FS_VAR_ERROR, the end with the array, or undefined behaviour
pub data Parsed : Type 0 where
  parsed : Arr Piece → Parsed
  var_error : Parsed
  fault : Parsed

-- `fs_var_new_token`: neither allocation is checked
unfoldable pub new_piece : Malloc → Arr Piece → ℕ → Option (ℕ × Arr Piece)
new_piece malloc arr len = elim (Arr.push malloc arr) [
  | none ↦ none
  | some (n, arr') ↦
      if malloc len then some (n, Arr.put arr' n (record { bytes = []; buf_len = len })) else none
]

-- `*token->buf.last++ = chr; *token->buf.last = 0`, the NUL inside the block too
unfoldable pub append_chr : ℕ → ℕ → Arr Piece → Option (Arr Piece)
append_chr chr n arr = elim (Arr.nth arr n) [
  | none ↦ none
  | some p ↦
      if ltb (suc (length p.bytes)) p.buf_len
      then some (Arr.put arr n (record p { bytes = p.bytes ++ (chr ∷ []) }))
      else none
]

module _ (malloc : Malloc) (size : ℕ) where
  -- the token that the pointer leads to, made if there is none
  unfoldable pub ensure : Cursor → Option (ℕ × Cursor)
  unfolding new_piece
  ensure s = elim s.token [
    | some n ↦ some (n, s)
    | none ↦ elim (new_piece malloc s.arr (size + 1)) [
      | none ↦ none
      | some (n, arr) ↦ some (n, record s { arr = arr; token = some n })
    ]
  ]

  -- the lines behind the `switch`
  unfoldable pub plain_chr : ℕ → Cursor → Option Cursor
  unfolding ensure append_chr
  plain_chr chr s = elim (ensure s) [
    | none ↦ none
    | some (n, s') ↦ elim (append_chr chr n s'.arr) [
      | none ↦ none
      | some arr ↦ some (record s' { arr = arr })
    ]
  ]

  -- `case '$'`
  unfoldable pub open_variable : Cursor → Option Cursor
  unfolding new_piece
  open_variable s = elim (new_piece malloc s.arr (size + 1)) [
    | none ↦ none
    | some (n, arr) ↦ some (record { arr = arr; variable = true; token = some n })
  ]

  -- `case '}'`, which ends the piece; `token` is not looked at before it is used
  unfoldable pub close_variable : ℕ → Cursor → Option Cursor
  unfolding append_chr
  close_variable chr s = elim s.token [
    | none ↦ none
    | some n ↦ elim (append_chr chr n s.arr) [
      | none ↦ none
      | some arr ↦ some (record { arr = arr; variable = false; token = none })
    ]
  ]

  -- One byte: an error, or the next state.
  unfoldable pub step : ℕ → Cursor → Option (Option Cursor)
  unfolding plain_chr open_variable close_variable
  step chr s =
      if chr == b'$'
      then elim (open_variable s) [ none ↦ some none | some s' ↦ some (plain_chr chr s') ]
      else if (chr == b'{' || chr == b'}') && not s.variable
      then none
      else if chr == b'}'
      then some (close_variable chr s)
      else some (plain_chr chr s)

  abbrev pub next : (Cursor → Parsed) → Option (Option Cursor) → Parsed
  next rest none = var_error
  next rest (some none) = fault
  next rest (some (some s)) = rest s

  unfoldable pub loop : Bytes → Cursor → Parsed
  unfolding step
  loop [] s = parsed s.arr
  loop (c ∷ cs) s = next (loop cs) (step c s)

-- `fs_var_parse(arr, str)`, over the window of `str`
unfoldable pub parse : Malloc → Arr Piece → Bytes → Parsed
unfolding loop
parse malloc arr text =
    loop malloc (length text) text (record { arr = arr; variable = false; token = none })
