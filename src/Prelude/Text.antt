-- ===== src/Prelude/Text.antt =====
-- The functions of Go's package `strings` that the program calls.
use Prim.Native.Nat.{ℕ, ◌+◌}
use Prim.Native.Char.{code}
use Prim.Native.String.{String, [], ◌∷◌, ◌++◌}
use mathlib.Core.List.{List}
use mathlib.Core.Path.{◌≡◌, refl}
use mathlib.Core.Bool.{Bool, true, false, ◌&&◌, ◌||◌}
use subgen.Prelude.Tests.{leb, nat_eqb, if◌then◌else◌}

-- unicode.IsSpace
pub is_space : ℕ → Bool
is_space c =
    (leb 9 c && leb c 13)
    || nat_eqb c 0x20
    || nat_eqb c 0x85
    || nat_eqb c 0xa0
    || nat_eqb c 0x1680
    || (leb 0x2000 c && leb c 0x200a)
    || nat_eqb c 0x2028
    || nat_eqb c 0x2029
    || nat_eqb c 0x202f
    || nat_eqb c 0x205f
    || nat_eqb c 0x3000

abbrev is_empty : String → Bool
is_empty [] = true
is_empty (c ∷ s) = false

trim_left : String → String
trim_left [] = []
trim_left (c ∷ s) = let rest = trim_left s in if is_space (code c) then rest else c ∷ s

trim_right : String → String
trim_right [] = []
trim_right (c ∷ s) =
    let rest = trim_right s in if is_empty rest && is_space (code c) then [] else c ∷ rest

-- strings.TrimSpace
unfoldable pub trim_space : String → String
unfolding trim_left trim_right is_space
trim_space s = trim_right (trim_left s)

-- Some character of the text passes the test.
unfoldable pub any_char : (ℕ → Bool) → String → Bool
any_char p [] = false
any_char p (c ∷ s) = p (code c) || any_char p s

trim_runs : trim_space " a b\t" ≡ "a b"
unfolding trim_space
trim_runs = refl

-- a + b + … on strings
unfoldable pub concat : List String → String
concat List.[] = ""
concat (List.◌∷◌ s ss) = s ++ concat ss

-- strings.Join
unfoldable pub join : String → List String → String
join sep List.[] = ""
join sep (List.◌∷◌ s List.[]) = s
join sep (List.◌∷◌ s (List.◌∷◌ t ts)) = s ++ (sep ++ join sep (List.◌∷◌ t ts))

ascii_lower : ℕ → ℕ
ascii_lower c = if leb 0x41 c && leb c 0x5a then c + 32 else c

-- strings.ToLower(s) == t, for a text t in which neither k nor å stands: those alone are the
-- lower case of characters outside ASCII too.
unfoldable pub lower_is : String → String → Bool
unfolding ascii_lower
lower_is [] [] = true
lower_is [] (d ∷ t) = false
lower_is (c ∷ s) [] = false
lower_is (c ∷ s) (d ∷ t) = nat_eqb (ascii_lower (code c)) (code d) && lower_is s t

-- The rune c is put before the first part.
abbrev on_first : String → List String → List String
on_first label List.[] = List.◌∷◌ label List.[]
on_first label (List.◌∷◌ part parts) = List.◌∷◌ label parts

abbrev first_of : List String → String
first_of List.[] = []
first_of (List.◌∷◌ part parts) = part

-- strings.Split for a separator of one rune
unfoldable pub split_on : ℕ → String → List String
split_on sep [] = List.◌∷◌ [] List.[]
split_on sep (c ∷ s) =
    let rest = split_on sep s in
    if nat_eqb (code c) sep then List.◌∷◌ [] rest else on_first (c ∷ first_of rest) rest

-- strings.HasPrefix for a prefix of one rune
unfoldable pub starts_with : ℕ → String → Bool
starts_with p [] = false
starts_with p (c ∷ s) = nat_eqb (code c) p
