-- ===== src/Prelude/Text.antt =====
-- Bytes as numbers, and the text literals that stand for their code points.
use Prim.Native.Nat.{ℕ}
use Prim.Native.Char.{code}
use mathlib.Core.List.{List, [], ◌∷◌}
pub use Prim.Native.String.{String}

abbrev pub Bytes : Type 0
Bytes = List ℕ

-- Every literal of the development is ASCII, so code points are bytes.
abbrev pub codes : String → Bytes
codes String.[] = []
codes (String.◌∷◌ c s) = code c ∷ codes s
