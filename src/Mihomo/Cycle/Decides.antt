-- ===== src/Mihomo/Cycle/Decides.antt =====
-- `cyclicGroups` decides whether the group references of a draft form a cycle.
use mathlib.Core.WellFounded.{Acc}
use subgen.Prelude.Lists.{
  length, get_elem?, get_elem?-out, replicate, Any, get_or-replicate, length-replicate,
}
use subgen.Prelude.{
  ℕ, zero, suc, ◌+◌, ◌≤◌, ◌<◌, ◌≡◌, ◌↔◌, ◌≢◌, refl, subst, sym, true, false, List, Option, none,
  some, ltb, arith, nat_eqb, nat_eqb_iff, Bool-cases, inl, inr,
}
use subgen.Mihomo.Draft.{GroupDraft}
use subgen.Mihomo.Cycle.{
  Color, white, gray, black, Colors, Found, color_at, members, members_of, group_target, if_white,
  visit, visit_from, search_groups, found, cyclic_groups,
}
use subgen.Mihomo.Cycle.Whites.{whites, whites-replicate}
use subgen.Mihomo.Cycle.Graph.{Reach, Ends, Ends-acyclic}
use subgen.Mihomo.Cycle.Search.{
  BlackEnds, Cyclic, Good, Kept-refl, after-Good, Good-map, visit-Good,
}

module _ (groups : List GroupDraft) where
  abbrev NoGray : Colors → Type 0
  NoGray color = (k : ℕ) → ¬ (color_at color k ≡ gray)

  if_white-Good :
      (i : ℕ) (c : Color) (color : Colors)
      → color_at color i ≡ c
      → i < length color
      → length color ≡ length groups
      → whites color ≤ length groups
      → BlackEnds groups color
      → NoGray color
      → Good groups color (Ends groups i) (if_white (visit (length groups) groups) i c color)
  unfolding if_white
  if_white-Good i white color e lt len room b clear =
      visit-Good groups (length groups) i color e lt len room b (λ k h. absurd (clear k h))
  if_white-Good i gray color e lt len room b clear = absurd (clear i e)
  if_white-Good i black color e lt len room b clear = (b i e, Kept-refl groups color b)

  -- The groups from `i` on.
  abbrev EndsFrom : ℕ → Type 0
  EndsFrom i = (k : ℕ) → i ≤ k → k < length groups → Ends groups k

  visit_from-Good :
      (left i : ℕ) (color : Colors)
      → i + left ≡ length groups
      → length color ≡ length groups
      → whites color ≤ length groups
      → BlackEnds groups color
      → NoGray color
      → Good groups color (EndsFrom i) (visit_from (visit (length groups) groups) left i color)
  unfolding visit_from
  visit_from-Good zero i color all len room b clear =
      ((λ k le lt. absurd (omega arith)), Kept-refl groups color b)
  visit_from-Good (suc left) i color all len room b clear = Good-map groups color first_or_later _ (
      after-Good groups color _ _ _ _
        (if_white-Good i (color_at color i) color refl (omega arith) len room b clear)
        (λ color' kept.
          visit_from-Good left (suc i) color' (omega arith) (omega (arith, kept.length_kept))
            (omega (arith, kept.whites_fall)) kept.black_ends
            (λ k h. clear k (kept.gray_kept k h))))
    where
      first_or_later : Ends groups i × EndsFrom (suc i) → EndsFrom i
      first_or_later (first, later) k le lt = elim (Bool-cases (nat_eqb k i)) [
        | inl same ↦ subst (Ends groups) (sym ((nat_eqb_iff k i).0 same)) first
        | inr other ↦ later k (ground arith) lt
      ]

  search-Good : Good groups (replicate (length groups) white) (EndsFrom 0) (search_groups groups)
  unfolding search_groups
  search-Good =
      visit_from-Good (length groups) 0 (replicate (length groups) white) (omega arith)
        (length-replicate (length groups) white) (omega (arith, whites-replicate (length groups)))
        (λ k h. cc (get_or-replicate (length groups) k white))
        (λ k h. cc (get_or-replicate (length groups) k white))

  out_of_range_Ends : (i : ℕ) → length groups ≤ i → Ends groups i
  unfolding members
  out_of_range_Ends i le =
      Acc.intro i (λ j e. absurd (no_edge j (get_elem? groups i) (get_elem?-out groups i le) e))
    where
      no_edge :
          (j : ℕ) (g : Option GroupDraft)
          → g ≡ none
          → ¬ Any (λ m. group_target (length groups) m ≡ some j) (members_of g)
      no_edge j none e a = a
      no_edge j (some g) e a = cc

  found_iff :
      (color : Colors) (r : Found)
      → Good groups color (EndsFrom 0) r
      → (found r ≡ true) ↔ Cyclic groups
  unfolding found
  found_iff color none h = absurd h
  found_iff color (some (true, c)) cycle = ((λ _. cycle), (λ _. refl))
  found_iff color (some (false, c)) (ends, kept) =
      ((λ e. cc), (λ (i, r). absurd (Ends-acyclic groups i (ends_all i) r)))
    where
      ends_all : (i : ℕ) → Ends groups i
      ends_all i = elim (Bool-cases (ltb i (length groups))) [
        | inl below ↦ ends i (omega arith) (ground arith)
        | inr above ↦ out_of_range_Ends i (ground arith)
      ]

-- The search finds a cycle exactly where some proxy-group refers, over one or more references of
-- group members, to itself.
pub cyclic_groups-decides :
    (groups : List GroupDraft) → (cyclic_groups groups ≡ true) ↔ ((i : ℕ) × Reach groups i i)
unfolding cyclic_groups
cyclic_groups-decides groups =
    found_iff groups (replicate (length groups) white) (search_groups groups) (search-Good groups)

-- The fuel of the search is enough: it ends with an answer.
pub search_groups-total : (groups : List GroupDraft) → search_groups groups ≢ none
search_groups-total groups e = subst (Good groups _ (EndsFrom groups 0)) e (search-Good groups)
