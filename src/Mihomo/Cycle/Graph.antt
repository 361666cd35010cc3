-- ===== src/Mihomo/Cycle/Graph.antt =====
-- The graph of the group references of a draft, which `cyclicGroups` searches.
use mathlib.Core.WellFounded.{Acc}
use subgen.Prelude.Lists.{length, Any}
use subgen.Prelude.{ℕ, ◌≡◌, List, some, ◌⊎◌, inl, inr}
use subgen.Mihomo.Draft.{GroupDraft}
use subgen.Mihomo.Cycle.{members, group_target}

-- Group i has a member that refers to group j.
abbrev pub Edge : List GroupDraft → ℕ → ℕ → Type 0
Edge groups i j = Any (λ m. group_target (length groups) m ≡ some j) (members groups i)

-- A chain of one or more references leads from group i to group j.
pub data Reach (groups : List GroupDraft) (i : ℕ) : ℕ → Type 0 where
  one : {j : ℕ} → Edge groups i j → Reach groups i j
  more : {j k : ℕ} → Reach groups i j → Edge groups j k → Reach groups i k

-- Every chain of references from group i ends.
abbrev pub Ends : List GroupDraft → ℕ → Type 0
Ends groups i = Acc (λ j k. Edge groups k j) i

module _ (groups : List GroupDraft) where
  -- The first reference of a chain, and the chain that follows.
  Reach-head :
      {i k : ℕ}
      → Reach groups i k
      → Edge groups i k ⊎ ((j : ℕ) × Edge groups i j × Reach groups j k)
  Reach-head (one e) = inl e
  Reach-head (more {j = j} r e) = elim (Reach-head r) [
    | inl first ↦ inr (j, first, one e)
    | inr (l, first, rest) ↦ inr (l, first, more rest e)
  ]

  -- A group from which all chains end lies on no cycle.
  pub Ends-acyclic : (i : ℕ) → Ends groups i → ¬ Reach groups i i
  Ends-acyclic i (Acc.intro _ below) r = elim (Reach-head r) [
    | inl e ↦ Ends-acyclic i (below i e) r
    | inr (j, e, rest) ↦ Ends-acyclic j (below j e) (more rest e)
  ]
