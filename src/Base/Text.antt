-- ===== src/Base/Text.antt =====
-- Facts on texts that are put together.
use Prim.Native.Char.{Char}
use Prim.Native.String.{String, ◌++◌}
use Prim.Native.String.append
use Prim.Native.String.compare
use mathlib.Core.Path.{◌≡◌, refl}
use mathlib.Core.Bool.{false}
use text.Mathlib.Text.{◌==◌}

pub prefixed_not_empty : (c : Char) (s t : String) → (String.◌∷◌ c s ++ t == "") ≡ false
prefixed_not_empty c s t = rw (append.cons, compare.cons-nil) refl
