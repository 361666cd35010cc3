-- ===== src/Mihomo/Cycle/Whites.antt =====
-- The colours of the search: how a write changes them, and how many groups are still white.
use subgen.Prelude.Lists.{length, set, replicate, get_or-set_self, get_or-set_ne}
use subgen.Prelude.{
  ℕ, zero, suc, ◌+◌, ◌≤◌, ◌<◌, ◌≡◌, refl, [], ◌∷◌, ◌⊎◌, inl, inr, arith, nat_eqb, nat_eqb_iff,
  Bool-cases,
}
use subgen.Mihomo.Cycle.{Color, white, gray, black, Colors, color_at}

abbrev pub count_white : Color → ℕ
count_white white = 1
count_white _ = 0

-- The number of white groups, which bounds the depth of the recursion.
abbrev pub whites : Colors → ℕ
whites [] = 0
whites (c ∷ cs) = count_white c + whites cs

pub whites-set_lt :
    (cs : Colors) (i : ℕ)
    → i < length cs
    → color_at cs i ≡ white
    → whites (set cs i gray) < whites cs
whites-set_lt [] i h w = elim h [ ]
whites-set_lt (c ∷ cs) zero h w = ground arith
whites-set_lt (c ∷ cs) (suc i) h w = omega (arith, whites-set_lt cs i (omega arith) w)

pub whites-set_le : (cs : Colors) (i : ℕ) → whites (set cs i black) ≤ whites cs
whites-set_le [] i = omega arith
whites-set_le (c ∷ cs) zero = omega arith
whites-set_le (c ∷ cs) (suc i) = omega (arith, whites-set_le cs i)

pub whites-pos : (cs : Colors) (i : ℕ) → i < length cs → color_at cs i ≡ white → 0 < whites cs
whites-pos cs i h w = omega (arith, whites-set_lt cs i h w)

pub whites-replicate : (n : ℕ) → whites (replicate n white) ≡ n
whites-replicate zero = refl
whites-replicate (suc n) = omega (arith, whites-replicate n)

pub set_cases :
    (cs : Colors) (i k : ℕ) (c : Color) → (k ≡ i) ⊎ (color_at (set cs i c) k ≡ color_at cs k)
set_cases cs i k c = elim (Bool-cases (nat_eqb k i)) [
  | inl same ↦ inl ((nat_eqb_iff k i).0 same)
  | inr other ↦ inr (get_or-set_ne cs i k c white (ground arith))
]

pub set_self :
    (cs : Colors) (i k : ℕ) (c : Color) → i < length cs → k ≡ i → color_at (set cs i c) k ≡ c
set_self cs i k c lt e = rw e (get_or-set_self cs i c white lt)
