-- ===== src/Prelude/Enum.antt =====
-- Go's typed strings: a data type of the declared constants, with a constructor for other texts.
use Prim.Native.String.{String}
use mathlib.Core.Path.{◌≡◌}
use mathlib.Core.List.{List, [], ◌∷◌}
use native.Mathlib.Omega.{arith}
use text.Mathlib.TextEquality.{eq_iff}
use subgen.Prelude.Tests.{◌==◌, string_eq, if◌then◌else◌}

module _ {T : Type 0} (name : T → String) (unknown : String → T) where
  -- The constant with the given text, if the list has it.
  unfoldable pub of_name : List T → String → T
  of_name [] s = unknown s
  of_name (t ∷ ts) s = if name t == s then t else of_name ts s

  pub name-of_name :
      ((s : String) → name (unknown s) ≡ s) → (ts : List T) (s : String) → name (of_name ts s) ≡ s
  unfolding of_name
  name-of_name h [] s = h s
  name-of_name h (t ∷ ts) s = ground (arith, name-of_name h ts s, eq_iff (name t) s)
