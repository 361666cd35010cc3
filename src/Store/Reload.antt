-- ===== src/Store/Reload.antt =====
-- internal/repository/routing/rules.go: `freeze` gives back the tree that `build` has put into rows.
use subgen.Prelude.Int.{ℤ}
use subgen.Prelude.Lists.{All-mono, length, append_nil, length-append}
use subgen.Prelude.{
  ℕ, zero, suc, ◌+◌, ◌≤◌, ◌<◌, ◌≢◌, ◌⊎◌, inl, inr, true, false, List, [], ◌∷◌, ◌++◌, Option, none,
  some, ◌≡◌, refl, sym, ◌∙◌, arith, ◌↔◌,
}
use subgen.Mihomo.Draft.{RuleDrafts}
use subgen.Store.Tables.{RuleRow, select}
use subgen.Store.Save.{rule_row}
use subgen.Store.Load.{freeze, freeze_all, has_parent, same_parent}
use subgen.Store.Order.{select-append, select_no}
use subgen.Store.Rows.{Rows, done, leaf, node, key, Stands, Rows-Stands, Rows-le}
use subgen.Store.Forest.{size, stored, row-stored}

other_parent : (a b : Option ℕ) → key a ≢ key b → same_parent a b ≡ false
other_parent none none h = absurd (h refl)
other_parent none (some b) h = refl
other_parent (some a) none h = refl
other_parent (some a) (some b) h = ground arith

pub kin : (a b : Option ℕ) → (same_parent a b ≡ true) ↔ (key a ≡ key b)
kin none none = ((λ h. refl), (λ h. refl))
kin none (some b) = ((λ h. cc), (λ h. absurd (omega arith)))
kin (some a) none = ((λ h. cc), (λ h. absurd (omega arith)))
kin (some a) (some b) = ground arith

own_parent : (a : Option ℕ) → same_parent a a ≡ true
own_parent none = refl
own_parent (some a) = ground arith

-- The rows of the table below each row of the forest are those of the forest.
abbrev pub Whole : List RuleRow → List RuleRow → ℕ → ℕ → Type 0
Whole table rows n last =
    (id : ℕ)
    → n < id
    → id ≤ last
    → select (has_parent (some id)) table ≡ select (has_parent (some id)) rows

-- A row of another parent is passed over.
pub skip :
    (row : RuleRow) (q : Option ℕ) (rows : List RuleRow)
    → key row.parent_id ≢ key q
    → select (has_parent q) (row ∷ rows) ≡ select (has_parent q) rows
unfolding select
skip row q rows h = rw (other_parent row.parent_id q h) refl

-- What is below a row comes from one part of the rows after it, when the other part has none.
pub front :
    (row : RuleRow) (q : Option ℕ) (rows more : List RuleRow)
    → key row.parent_id ≢ key q
    → select (has_parent q) more ≡ []
    → select (has_parent q) (row ∷ rows ++ more) ≡ select (has_parent q) rows
front row q rows more h e =
    skip row q (rows ++ more) h
    ∙ select-append (has_parent q) rows more
    ∙ rw e (append_nil (select (has_parent q) rows))

pub back :
    (row : RuleRow) (q : Option ℕ) (rows more : List RuleRow)
    → key row.parent_id ≢ key q
    → select (has_parent q) rows ≡ []
    → select (has_parent q) (row ∷ rows ++ more) ≡ select (has_parent q) more
back row q rows more h e =
    skip row q (rows ++ more) h ∙ select-append (has_parent q) rows more ∙ rw e refl

module _ {c : ℤ} {groups providers : List ℕ} where
  -- A forest has no row under a parent that is neither its own nor one of its rows.
  pub Rows-apart :
      {ds : RuleDrafts} {p : Option ℕ} {k n last : ℕ} {rows : List RuleRow}
      → Rows c groups providers ds p k n rows last
      → (q : Option ℕ) → key q ≢ key p
      → (key q ≤ suc n) ⊎ (suc last < key q)
      → select (has_parent q) rows ≡ []
  Rows-apart {p = p} {n = n} {last = last} {rows = rows} r q ne out =
      let apart : (row : RuleRow)
          → Stands c groups providers p n last row
          → has_parent q row ≡ false =
        λ row s. other_parent row.parent_id q (λ e. elim s.3 [
          | inl at ↦ ne (omega arith)
          | inr in_rows ↦ elim out [ inl low ↦ omega arith | inr high ↦ omega arith ]
        ]) in
      select_no (has_parent q) rows (All-mono rows apart (Rows-Stands c groups providers r))

  Rows-size :
      {ds : RuleDrafts} {p : Option ℕ} {k n last : ℕ} {rows : List RuleRow}
      → Rows c groups providers ds p k n rows last
      → last ≡ n + size ds
  unfolding size
  Rows-size done = omega arith
  Rows-size (leaf t p l rest) = let h = Rows-size rest in rw l omega arith
  Rows-size (node t p l below rest) =
      let h = Rows-size rest in let b = Rows-size below in rw l omega arith

  pub freeze-stored :
      (fuel : ℕ) (table : List RuleRow) {ds : RuleDrafts} {p : Option ℕ} {k n last : ℕ}
      {rows : List RuleRow}
      → Rows c groups providers ds p k n rows last
      → key p ≤ suc n
      → length rows ≤ fuel
      → Whole table rows n last
      → freeze_all (freeze fuel table) (select (has_parent p) rows) ≡ stored groups providers ds k n
  unfolding freeze freeze_all select stored
  freeze-stored fuel table done low enough whole = refl
  freeze-stored zero table (leaf t v l rest) low enough whole = absurd (omega arith)
  freeze-stored zero table (node t v l below rest) low enough whole = absurd (omega arith)
  freeze-stored (suc fuel) table
        (leaf {f = f} {p = p} {k = k} {n = n} {last = last} {more = more} {columns = columns}
          {provider = provider} t v l rest)
        low enough whole =
      let row = rule_row c p k (suc n) f columns provider in
      let bound : suc n ≤ last = Rows-le c groups providers rest in
      let childless : select (has_parent (some (suc n))) table ≡ [] =
        whole (suc n) (omega arith) (omega arith)
        ∙ skip row (some (suc n)) more (omega arith)
        ∙ Rows-apart rest (some (suc n)) (omega arith) (inl (omega arith)) in
      let after =
        freeze-stored (suc fuel) table rest (omega arith) (omega arith)
          (λ id lo hi. whole id (omega arith) hi ∙ skip row (some id) more (omega arith)) in
      let same : suc n + 0 ≡ suc n = omega arith in
      rw
        (
          own_parent p,
          l,
          childless,
          row-stored groups providers c p k (suc n) f columns provider t v,
          after,
          same,
        )
        refl
  freeze-stored (suc fuel) table
        (node {f = f} {cs = cs} {p = p} {k = k} {n = n} {mid = mid} {last = last} {below = rows}
          {more = more} {columns = columns} {provider = provider} t v l below rest)
        low enough whole =
      let row = rule_row c p k (suc n) f columns provider in
      let bound : suc n ≤ mid = Rows-le c groups providers below in
      let end : mid ≤ last = Rows-le c groups providers rest in
      let fits : length rows + length more ≡ length (rows ++ more) =
        sym (length-append rows more) in
      let children : select (has_parent (some (suc n))) table
          ≡ select (has_parent (some (suc n))) rows =
        whole (suc n) (omega arith) (omega arith)
        ∙ front row (some (suc n)) rows more (omega arith)
            (Rows-apart rest (some (suc n)) (omega arith) (inl (omega arith))) in
      let under = freeze-stored fuel table below (omega arith) (omega arith) (λ id lo hi.
        whole id (omega arith) (omega arith)
        ∙ front row (some id) rows more (omega arith)
            (Rows-apart rest (some id) (omega arith) (inl (omega arith)))) in
      let after = freeze-stored (suc fuel) table rest (omega arith) (omega arith) (λ id lo hi.
        whole id (omega arith) hi
        ∙ back row (some id) rows more (omega arith)
            (Rows-apart below (some id) (omega arith) (inr (omega arith)))) in
      let siblings : select (has_parent p) (rows ++ more) ≡ select (has_parent p) more =
        select-append (has_parent p) rows more
        ∙ rw (Rows-apart below p (omega arith) (inl (omega arith))) refl in
      let same : suc n + size cs ≡ mid = sym (Rows-size below) in
      rw
        (
          own_parent p,
          l,
          children,
          siblings,
          row-stored groups providers c p k (suc n) f columns provider t v,
          under,
          after,
          same,
        )
        refl
