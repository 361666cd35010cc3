-- ===== src/Prelude/Maps.antt =====
-- Go's maps as association lists, with one entry for each key.
use mathlib.Core.Path.{◌≡◌, refl, subst}
use mathlib.Core.Bool.{Bool, true, false}
use mathlib.Core.Logic.{◌⊎◌, inl, inr}
use subgen.Prelude.Lists.{In, All}
use mathlib.Core.List.{List, [], ◌∷◌}
use mathlib.Core.Option.{Option, none, some}
use native.Mathlib.Omega.{arith}
use subgen.Prelude.Tests.{Bool-cases, Eq, ◌==◌, if◌then◌else◌}

module _ {ℓ κ} {K : Type ℓ} {V : Type κ} ⦃eq : Eq K⦄ where
  -- m[k] = v
  unfoldable pub insert : K → V → List (K × V) → List (K × V)
  insert k v [] = (k, v) ∷ []
  insert k v (entry ∷ m) = if entry.0 == k then (k, v) ∷ m else entry ∷ insert k v m

  -- m[k], with the flag that tells whether the key is there
  unfoldable pub lookup : K → List (K × V) → Option V
  lookup k [] = none
  lookup k (entry ∷ m) = if entry.0 == k then some entry.1 else lookup k m

  pub lookup-insert :
      (k j : K) (v : V) (m : List (K × V))
      → lookup j (insert k v m) ≡ (if k == j then some v else lookup j m)
  unfolding insert lookup
  lookup-insert k j v [] = refl
  lookup-insert k j v (entry ∷ m) =
      let rest = lookup-insert k j v m in
      ground (arith, rest, eq.eqb_iff entry.0 k, eq.eqb_iff entry.0 j, eq.eqb_iff k j)

  -- The keys of the entries.
  unfoldable pub keys : List (K × V) → List K
  keys [] = []
  keys (entry ∷ m) = entry.0 ∷ keys m

module _ {κ} {K : Type 0} {V : Type κ} ⦃e : Eq K⦄ where
  -- The keys after one step of the search for the place of `k`.
  keys_step :
      (found : Bool) (k j : K) (v : V) (entry : K × V) (m rest : List (K × V))
      → (In j (keys rest) → (k ≡ j) ⊎ In j (keys m))
      → In j (keys (if found then (k, v) ∷ m else entry ∷ rest))
      → (k ≡ j) ⊎ In j (keys (entry ∷ m))
  unfolding keys
  keys_step true k j v entry m rest f (inl h) = inl h
  keys_step true k j v entry m rest f (inr h) = inr (inr h)
  keys_step false k j v entry m rest f (inl h) = inr (inl h)
  keys_step false k j v entry m rest f (inr h) = elim (f h) [ inl e ↦ inl e | inr i ↦ inr (inr i) ]

  pub keys-insert :
      (k j : K) (v : V) (m : List (K × V)) → In j (keys (insert k v m)) → (k ≡ j) ⊎ In j (keys m)
  unfolding insert keys
  keys-insert k j v [] (inl h) = inl h
  keys-insert k j v [] (inr h) = inr h
  keys-insert k j v (entry ∷ m) h =
      keys_step (entry.0 == k) k j v entry m (insert k v m) (keys-insert k j v m) h

module _ {V : Type 0} {K : Type 0} ⦃e : Eq K⦄ where
  pub All-insert :
      (P : K × V → Type 0) (k : K) (v : V) (m : List (K × V))
      → All P m
      → P (k, v)
      → All P (insert k v m)
  unfolding insert
  All-insert P k v [] h p = (p, tt)
  All-insert P k v (entry ∷ m) h p = elim (Bool-cases (entry.0 == k)) [
    | inl same ↦ rw same (p, h.1)
    | inr other ↦ rw other (h.0, All-insert P k v m h.1 p)
  ]

  at_entry :
      (P : K × V → Type 0) (entry : K × V) (k : K) (v : V)
      → entry.0 ≡ k
      → some entry.1 ≡ some v
      → P entry
      → P (k, v)
  at_entry P entry k v i j p =
      let j' : entry.1 ≡ v = cc in subst (λ x. P (k, x)) j' (subst (λ x. P (x, entry.1)) i p)

  pub All-lookup :
      (P : K × V → Type 0) (k : K) (v : V) (m : List (K × V))
      → All P m
      → lookup k m ≡ some v
      → P (k, v)
  unfolding lookup
  All-lookup P k v [] h found = cc
  All-lookup P k v (entry ∷ m) h found = elim (Bool-cases (entry.0 == k)) [
    | inl same ↦ at_entry P entry k v ((e.eqb_iff entry.0 k).0 same) (rw same at found) h.0
    | inr other ↦ All-lookup P k v m h.1 (rw other at found)
  ]
