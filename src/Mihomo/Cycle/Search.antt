-- ===== src/Mihomo/Cycle/Search.antt =====
-- What a call of the search guarantees, proved along its recursion: it has fuel, a found cycle is
-- one, and otherwise every chain of references from what it visited ends.
use mathlib.Core.WellFounded.{Acc}
use subgen.Prelude.Lists.{length, set, Any, length-set}
use subgen.Prelude.{
  ℕ, zero, suc, ◌≤◌, ◌<◌, ◌≡◌, refl, sym, subst, ◌∙◌, true, false, List, [], ◌∷◌, Option, none,
  some, ◌⊎◌, inl, inr, arith,
}
use subgen.Mihomo.Draft.{RefDraft, GroupDraft}
use subgen.Mihomo.Cycle.{
  Color, white, gray, black, Colors, Found, color_at, members, group_target, after, by_color,
  by_target, scan, finish, visit,
}
use subgen.Mihomo.Cycle.Whites.{
  whites, whites-set_lt, whites-set_le, whites-pos, set_cases, set_self,
}
use subgen.Mihomo.Cycle.Graph.{Edge, Reach, one, more, Ends}

-- A target is an index below the number of groups.
target-lt : (n : ℕ) (m : RefDraft) (j : ℕ) → group_target n m ≡ some j → j < n
unfolding group_target
target-lt n m j h = ground arith

some_inj : (a b : ℕ) → some a ≡ some b → a ≡ b
some_inj a b e = cc

module _ (groups : List GroupDraft) where
  -- Every chain of references from a black group ends.
  abbrev pub BlackEnds : Colors → Type 0
  BlackEnds color = (k : ℕ) → color_at color k ≡ black → Ends groups k

  -- From a gray group other than i a chain of references leads to i.
  abbrev pub GrayReaches : Colors → ℕ → Type 0
  GrayReaches color i = (k : ℕ) → color_at color k ≡ gray → (k ≡ i) ⊎ Reach groups k i

  -- What holds of the colours when a search that began with `color` returns false.
  pub record Kept (color color' : Colors) : Type 0 where
    pub black_ends : BlackEnds color'
    pub gray_kept : (k : ℕ) → color_at color' k ≡ gray → color_at color k ≡ gray
    pub length_kept : length color' ≡ length color
    pub whites_fall : whites color' ≤ whites color

  abbrev pub Cyclic : Type 0
  Cyclic = (i : ℕ) × Reach groups i i

  -- The contract of a search from `color` that shows `Q` if it finds no cycle.
  abbrev pub Good : Colors → Type 0 → Found → Type 0
  Good color Q none = ⊥
  Good color Q (some (true, color')) = Cyclic
  Good color Q (some (false, color')) = Q × Kept color color'

  pub Kept-refl : (color : Colors) → BlackEnds color → Kept color color
  Kept-refl color b = record {
    black_ends = b;
    gray_kept = λ k h. h;
    length_kept = refl;
    whites_fall = omega arith;
  }

  pub Kept-trans : (a b c : Colors) → Kept a b → Kept b c → Kept a c
  Kept-trans a b c h k = record {
    black_ends = k.black_ends;
    gray_kept = λ l g. h.gray_kept l (k.gray_kept l g);
    length_kept = omega (arith, h.length_kept, k.length_kept);
    whites_fall = omega (arith, h.whites_fall, k.whites_fall);
  }

  pub after-Good :
      (color : Colors) (Q R : Type 0) (r : Found) (k : Colors → Found)
      → Good color Q r
      → ((color' : Colors) → Kept color color' → Good color' R (k color'))
      → Good color (Q × R) (after r k)
  unfolding after
  after-Good color Q R none k h rest = h
  after-Good color Q R (some (true, c)) k h rest = h
  after-Good color Q R (some (false, c)) k (q, kept) rest = go (k c) (rest c kept)
    where
      go : (r : Found) → Good c R r → Good color (Q × R) r
      go none g = g
      go (some (true, d)) g = g
      go (some (false, d)) (p, kept') = ((q, p), Kept-trans color c d kept kept')

  pub Good-map :
      (color : Colors) {Q R : Type 0} → (Q → R) → (r : Found) → Good color Q r → Good color R r
  Good-map color f none h = h
  Good-map color f (some (true, c)) h = h
  Good-map color f (some (false, c)) (q, kept) = (f q, kept)

  -- The contract of the recursive call.
  abbrev VisitGood : (ℕ → Colors → Found) → ℕ → Type 0
  VisitGood v fuel =
      (i : ℕ) (color : Colors)
      → color_at color i ≡ white
      → i < length color
      → length color ≡ length groups
      → whites color ≤ fuel
      → BlackEnds color
      → GrayReaches color i
      → Good color (Ends groups i) (v i color)

  module _ (v : ℕ → Colors → Found) (fuel : ℕ) (visit_good : VisitGood v fuel) (i : ℕ) where
    in_range :
        (color : Colors)
        → length color ≡ length groups
        → (m : RefDraft) (j : ℕ) → group_target (length groups) m ≡ some j
        → j < length color
    in_range color len m j e = omega (arith, target-lt (length groups) m j e, len)

    by_color-Good :
        (j : ℕ) (c : Color) (color : Colors)
        → color_at color j ≡ c
        → Edge groups i j
        → j < length color
        → length color ≡ length groups
        → whites color ≤ fuel
        → BlackEnds color
        → GrayReaches color i
        → Good color (Ends groups j) (by_color v j c color)
    unfolding by_color
    by_color-Good j gray color e edge lt len room b g = elim (g j e) [
      | inl same ↦ (i, one (subst (Edge groups i) same edge))
      | inr r ↦ (j, more r edge)
    ]
    by_color-Good j white color e edge lt len room b g = visit_good j color e lt len room b λ k h.
        elim (g k h) [
          | inl same ↦ inr (one (subst (λ l. Edge groups l j) (sym same) edge))
          | inr r ↦ inr (more r edge)
        ]
    by_color-Good j black color e edge lt len room b g = (b j e, Kept-refl color b)

    by_target-Good :
        (t : Option ℕ) (color : Colors)
        → ((j : ℕ) → t ≡ some j → Edge groups i j × (j < length color))
        → length color ≡ length groups
        → whites color ≤ fuel
        → BlackEnds color
        → GrayReaches color i
        → Good color ((j : ℕ) → t ≡ some j → Ends groups j) (by_target v t color)
    unfolding by_target
    by_target-Good none color edge len room b g = ((λ j h. cc), Kept-refl color b)
    by_target-Good (some j) color edge len room b g =
        Good-map color (λ q l e. subst (Ends groups) (some_inj j l e) q)
          (by_color v j (color_at color j) color)
          (by_color-Good j (color_at color j) color refl (edge j refl).0 (edge j refl).1 len room b
            g)

    scan-Good :
        (ms : List RefDraft) (color : Colors)
        → ((j : ℕ) → Any (λ m. group_target (length groups) m ≡ some j) ms → Edge groups i j)
        → length color ≡ length groups
        → whites color ≤ fuel
        → BlackEnds color
        → GrayReaches color i
        → Good color
            ((j : ℕ) → Any (λ m. group_target (length groups) m ≡ some j) ms → Ends groups j)
            (scan v (length groups) ms color)
    unfolding scan
    scan-Good [] color edges len room b g = ((λ j h. absurd h), Kept-refl color b)
    scan-Good (m ∷ ms) color edges len room b g =
        Good-map color (λ (q, rest) j. elim [ inl e ↦ q j e | inr m' ↦ rest j m' ])
          (after (by_target v (group_target (length groups) m) color) (scan v (length groups) ms))
          (after-Good color _ _ (by_target v (group_target (length groups) m) color)
            (scan v (length groups) ms)
            (by_target-Good (group_target (length groups) m) color
              (λ j e. (edges j (inl e), in_range color len m j e)) len room b g)
            (λ color' kept.
              scan-Good ms color' (λ j a. edges j (inr a)) (omega (arith, kept.length_kept))
                (omega (arith, kept.whites_fall)) kept.black_ends
                (λ k h. g k (kept.gray_kept k h))))

  -- The colours after `color[i] = gray` meet the contract of the scan.
  module _ (i : ℕ) (color : Colors) (is_white : color_at color i ≡ white) (lt : i < length color)
      (black_ends : BlackEnds color) (reaches : GrayReaches color i) where
    entered_black : BlackEnds (set color i gray)
    entered_black k h = elim (set_cases color i k gray) [
      | inl same ↦ cc (set_self color i k gray lt same)
      | inr other ↦ black_ends k (sym other ∙ h)
    ]

    entered_gray : GrayReaches (set color i gray) i
    entered_gray k h = elim (set_cases color i k gray) [
      | inl same ↦ inl same
      | inr other ↦ reaches k (sym other ∙ h)
    ]

    left_gray :
        (c : Colors)
        → Kept (set color i gray) c
        → (k : ℕ) → color_at (set c i black) k ≡ gray
        → color_at color k ≡ gray
    left_gray c kept k h = elim (set_cases c i k black) [
      | inl same ↦
          cc (set_self c i k black (omega (arith, length-set color i gray, kept.length_kept)) same)
      | inr other ↦ elim (set_cases color i k gray) [
        | inl same ↦
            cc
              (set_self c i k black (omega (arith, length-set color i gray, kept.length_kept)) same)
        | inr other' ↦ sym other' ∙ kept.gray_kept k (sym other ∙ h)
      ]
    ]

    left_Kept :
        (c : Colors) → Ends groups i → Kept (set color i gray) c → Kept color (set c i black)
    left_Kept c ends kept = record {
      black_ends = λ k h. elim (set_cases c i k black) [
        | inl same ↦ subst (Ends groups) (sym same) ends
        | inr other ↦ kept.black_ends k (sym other ∙ h)
      ];
      gray_kept = left_gray c kept;
      length_kept = omega (arith, length-set c i black, length-set color i gray, kept.length_kept);
      whites_fall =
          omega (arith, whites-set_le c i, whites-set_lt color i lt is_white, kept.whites_fall);
    }

    finish-Good :
        (r : Found)
        → Good (set color i gray) ((j : ℕ) → Edge groups i j → Ends groups j) r
        → Good color (Ends groups i) (finish i r)
    unfolding finish
    finish-Good none h = h
    finish-Good (some (true, c)) h = h
    finish-Good (some (false, c)) (q, kept) =
        let ends : Ends groups i = Acc.intro i q in (ends, left_Kept c ends kept)

  pub visit-Good :
      (fuel : ℕ) (i : ℕ) (color : Colors)
      → color_at color i ≡ white
      → i < length color
      → length color ≡ length groups
      → whites color ≤ fuel
      → BlackEnds color
      → GrayReaches color i
      → Good color (Ends groups i) (visit fuel groups i color)
  unfolding visit
  visit-Good zero i color w lt len room b g = absurd (omega (arith, whites-pos color i lt w))
  visit-Good (suc fuel) i color w lt len room b g = finish-Good i color w lt b g _ (
      scan-Good (visit fuel groups) fuel (visit-Good fuel) i (members groups i) (set color i gray)
        (λ j e. e) (omega (arith, length-set color i gray))
        (omega (arith, whites-set_lt color i lt w)) (entered_black i color w lt b g)
        (entered_gray i color w lt b g))
