-- ===== src/Base/Text.antt =====
-- String constants, as the characters before the terminator.
use Prim.Native.Nat.{ℕ}
use Prim.Native.Char.{code}
use Prim.Native.String.{[], ◌∷◌}
pub use Prim.Native.String.{String}
use mathlib.Core.List.{List, [] as nil, ◌∷◌ as cons}

unfoldable pub characters : String → List ℕ
characters [] = nil
characters (c ∷ s) = cons (code c) (characters s)
