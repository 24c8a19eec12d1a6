-- ===== src/Str.antt =====
-- core/fs_buf.h, core/fs_str.h: a string is a window of memory, from `pos` up to `last`.
pub mod Prefix
use folksong.Prelude.{
  ℕ, zero, suc, ◌+◌, ◌-◌, ◌%◌, ◌^◌, Bool, true, false, List, [], ◌∷◌, ◌++◌, ◌&&◌, ◌==◌, ltb,
  if◌then◌else◌, length, min, Bytes,
}

-- `fs_str_s`: the memory from `pos` on, as far as it may be read, and `last - pos` as a `size_t`.
pub record Str : Type 0 where
  pub mem : Bytes
  pub size : ℕ

-- what `%s`, `strlen` and `strcmp` see: the bytes in front of the first NUL
abbrev pub c_string : Bytes → Bytes
c_string [] = []
c_string (c ∷ cs) = let rest = c_string cs in if c == 0 then [] else c ∷ rest

abbrev pub strlen : Bytes → ℕ
strlen cs = length (c_string cs)

-- `fs_str("...")`, over an array whose last byte is the NUL
abbrev pub literal : Bytes → Str
literal text = record { mem = text ++ (0 ∷ []); size = length text }

-- `fs_str_set`: the window ends one byte before the NUL's predecessor.
unfoldable pub str_set : Bytes → Str
str_set text = record { mem = text; size = (strlen text + 2 ^ 64 - 1) % 2 ^ 64 }

-- `memcmp(a, b, n) == 0`; a read behind the memory counts as a difference
unfoldable pub memcmp : ℕ → Bytes → Bytes → Bool
memcmp zero a b = true
memcmp (suc n) (x ∷ a) (y ∷ b) = (x == y) && memcmp n a b
memcmp (suc n) a b = false

-- `fs_min`
abbrev pub min_of : ℕ → ℕ → ℕ
min_of a b = if ltb a b then a else b

-- `fs_str_cmp(a, b) == 0`
unfoldable pub str_cmp : Str → Str → Bool
unfolding memcmp
str_cmp a b = memcmp (min_of a.size b.size) a.mem b.mem

abbrev pub str_empty : Str → Bool
str_empty s = s.size == 0
