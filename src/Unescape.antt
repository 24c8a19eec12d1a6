-- ===== src/Unescape.antt =====
-- The copy of a token out of the block in `fs_conf_next_token` of core/fs_conf.c.
pub mod Bounds
use folksong.Prelude.{
  ℕ, suc, ◌+◌, ◌-◌, Option, none, some, List, [], ◌∷◌, ◌++◌, ◌||◌, ◌==◌, leb, if◌then◌else◌, length,
  replicate, Bytes,
}
use folksong.Str.{Str}

-- what the byte behind a backslash does: it is kept alone, it stands for another byte, or the
-- backslash is an ordinary byte
pub data Escape : Type 0 where
  keep plain : Escape
  put : ℕ → Escape

unfoldable pub escape_of : ℕ → ℕ → Escape
escape_of c d =
    if c == b'\\'
    then (if d == b'"' || d == b'\'' || d == b'\\'
        then keep
        else if d == b't'
        then put b'\t'
        else if d == b'r'
        then put b'\r'
        else if d == b'n'
        then put b'\n'
        else plain)
    else plain

-- The bytes written through `dst`, for the bytes from `src` up to `pos - 1`. The byte at
-- `pos - 1`, which ended the token, is what `src + 1` shows at the last round.
unfoldable pub copied : Bytes → ℕ → Bytes
unfolding escape_of
copied [] end = []
copied (c ∷ []) end = elim (escape_of c end) [ keep ↦ end ∷ [] | put x ↦ x ∷ [] | plain ↦ c ∷ [] ]
copied (c ∷ d ∷ cs) end = elim (escape_of c d) [
  | keep ↦ d ∷ copied cs end
  | put x ↦ x ∷ copied cs end
  | plain ↦ c ∷ copied (d ∷ cs) end
]

-- The token's block of `size` bytes with the copy and its NUL; `none` is a write behind the block.
unfoldable pub token_block : ℕ → ℕ → Bytes → Option Str
token_block fill size text =
    if leb (suc (length text)) size
    then some
        (record { mem = text ++ (0 ∷ replicate (size - suc (length text)) fill); size = size })
    else none
