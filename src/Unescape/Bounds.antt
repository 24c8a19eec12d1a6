-- ===== src/Unescape/Bounds.antt =====
-- The copy of a token stays inside the block that is allocated for it.
use folksong.Prelude.{ℕ, suc, ◌-◌, ◌≤◌, ◌≡◌, some, [], ◌∷◌, ◌++◌, arith, length, replicate, Bytes}
use folksong.Unescape.{copied, token_block}

-- Unescaping never lengthens.
pub length-copied-le : (src : Bytes) (end : ℕ) → length (copied src end) ≤ length src
unfolding copied
length-copied-le [] end = omega arith
length-copied-le (c ∷ []) end = ground arith
length-copied-le (c ∷ d ∷ cs) end =
    ground (arith, length-copied-le cs end, length-copied-le (d ∷ cs) end)

-- A block one byte larger than the source takes the copy and its NUL.
pub token_block-copied :
    (fill : ℕ) (src : Bytes) (end : ℕ)
    → token_block fill (suc (length src)) (copied src end)
      ≡ some (record {
        mem =
            copied src end
            ++ (0 ∷ replicate (suc (length src) - suc (length (copied src end))) fill);
        size = suc (length src);
      })
unfolding token_block
token_block-copied fill src end = ground (arith, length-copied-le src end)
