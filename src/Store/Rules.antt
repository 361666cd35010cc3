-- ===== src/Store/Rules.antt =====
-- internal/repository/routing: the rules that SaveMihomoConfig stores, as Rules reads them.
use subgen.Prelude.Int.{ℤ, int_eq, int_eqb_iff}
use subgen.Prelude.Lists.{All, All-mono, length, All-append}
use subgen.Prelude.{
  ℕ, suc, ◌≤◌, inl, inr, true, false, ◌&&◌, ◌||◌, List, ◌++◌, Option, none, some, ok, ◌≡◌, refl,
  sym, ◌∙◌, arith, nat_eqb, leb, Bool-cases, nat_eqb_iff,
}
use subgen.Mihomo.Draft.{RuleDrafts}
use subgen.Store.Tables.{RuleRow, select, order_by, null_le, null_lt, Db}
use subgen.Store.Save.{rule_row, rule_of, build}
use subgen.Store.Load.{has_parent, by_parent, rules}
use subgen.Store.Order.{
  select-append, select_no, select-All, All-selected, Sorted, order_by-Sorted, select-order_by,
  length-order_by,
}
use subgen.Store.Rows.{Rows, done, leaf, node, key, Rows-Stands, Rows-le, build-Rows}
use subgen.Store.Reload.{kin, skip, front, back, Rows-apart, freeze-stored}
use subgen.Store.Forest.{stored}

in_order :
    (p q : Option ℕ) (j k : ℕ)
    → key p ≡ key q
    → j ≤ k
    → (null_lt p q || (null_le p q && leb j k)) ≡ true
in_order none none j k e h = ground arith
in_order none (some q) j k e h = absurd (omega arith)
in_order (some p) none j k e h = absurd (omega arith)
in_order (some p) (some q) j k e h = ground arith

parent_total :
    (p q : Option ℕ) (j k : ℕ)
    → (null_lt p q || (null_le p q && leb j k)) ≡ false
    → (null_lt q p || (null_le q p && leb k j)) ≡ true
parent_total none none j k h = ground arith
parent_total none (some q) j k h = cc
parent_total (some p) none j k h = refl
parent_total (some p) (some q) j k h = ground arith

parent_trans :
    (p q r : Option ℕ) (i j k : ℕ)
    → (null_lt p q || (null_le p q && leb i j)) ≡ true
    → (null_lt q r || (null_le q r && leb j k)) ≡ true
    → (null_lt p r || (null_le p r && leb i k)) ≡ true
parent_trans none none none i j k h g = ground arith
parent_trans none none (some r) i j k h g = refl
parent_trans none (some q) none i j k h g = cc
parent_trans none (some q) (some r) i j k h g = refl
parent_trans (some p) none r i j k h g = cc
parent_trans (some p) (some q) none i j k h g = cc
parent_trans (some p) (some q) (some r) i j k h g = ground arith

-- The rows of the forest's own level have the positions from k on.
abbrev From : Option ℕ → ℕ → RuleRow → Type 0
From p k r = key r.parent_id ≡ key p → k ≤ r.position

-- A row stands before those of its level that come after it.
leads :
    (p q : Option ℕ) (k : ℕ) (rows : List RuleRow)
    → key q ≡ key p
    → All (From p (suc k)) rows
    → All
        (λ r. (null_lt p r.parent_id || (null_le p r.parent_id && leb k r.position)) ≡ true)
        (select (has_parent q) rows)
leads p q k rows e h =
    All-mono (select (has_parent q) rows)
      (λ r s.
        let at = (kin r.parent_id q).0 s.0 in
        let from = s.1 (omega arith) in
        in_order p r.parent_id k r.position (omega arith) (omega arith))
      (All-selected (From p (suc k)) (has_parent q) rows h)

module _ {c : ℤ} {groups providers : List ℕ} where
  Rows-From :
      {ds : RuleDrafts} {p : Option ℕ} {k n last : ℕ} {rows : List RuleRow}
      → Rows c groups providers ds p k n rows last
      → key p ≤ suc n
      → All (From p k) rows
  Rows-From done low = tt
  Rows-From (leaf {k = k} {more = more} t v l rest) low = (
    (λ e. omega arith),
    All-mono more (λ r from e. let h = from e in omega arith) (Rows-From rest (omega arith)),
  )
  Rows-From (node {p = p} {k = k} {n = n} {below = rows} {more = more} t v l below rest) low =
      let high = Rows-le c groups providers below in
      (
        (λ e. omega arith),
        All-append (From p k) rows more
            (All-mono rows
              (λ r s e. elim s.3 [
                | inl at ↦ absurd (omega arith)
                | inr in_rows ↦ absurd (omega arith)
              ])
              (Rows-Stands c groups providers below))
            (All-mono more (λ r from e. let h = from e in omega arith)
              (Rows-From rest (omega arith))),
      )

  Rows-Sorted :
      {ds : RuleDrafts} {p : Option ℕ} {k n last : ℕ} {rows : List RuleRow}
      → Rows c groups providers ds p k n rows last
      → key p ≤ suc n
      → (q : Option ℕ) → Sorted by_parent (select (has_parent q) rows)
  unfolding Sorted select
  Rows-Sorted done low q = tt
  Rows-Sorted
        (leaf {f = f} {p = p} {k = k} {n = n} {more = more} {columns = columns}
          {provider = provider} t v l rest)
        low q =
      let row = rule_row c p k (suc n) f columns provider in
      let after = Rows-Sorted rest (omega arith) q in
      elim (Bool-cases (nat_eqb (key p) (key q))) [
        | inl same ↦
            let e = (nat_eqb_iff (key p) (key q)).0 same in
            rw ((kin p q).1 e) (leads p q k more (sym e) (Rows-From rest (omega arith)), after)
        | inr other ↦ rw (skip row q more (ground arith)) after
      ]
  Rows-Sorted
        (node {f = f} {p = p} {k = k} {n = n} {mid = mid} {below = rows} {more = more}
          {columns = columns} {provider = provider} t v l below rest)
        low q =
      let row = rule_row c p k (suc n) f columns provider in
      let bound = Rows-le c groups providers below in
      let after = Rows-Sorted rest (omega arith) q in
      elim (Bool-cases (nat_eqb (key p) (key q))) [
        | inl same ↦
            let e = (nat_eqb_iff (key p) (key q)).0 same in
            let apart = Rows-apart below q (omega arith) (inl (omega arith)) in
            rw ((kin p q).1 e, select-append (has_parent q) rows more, apart)
              (leads p q k more (sym e) (Rows-From rest (omega arith)), after)
        | inr other ↦ elim (Bool-cases (leb (key q) (suc mid))) [
          | inl low ↦
              rw
                (front row q rows more (ground arith)
                  (Rows-apart rest q (ground arith) (inl (ground arith))))
                (Rows-Sorted below (omega arith) q)
          | inr high ↦
              rw
                (back row q rows more (ground arith)
                  (Rows-apart below q (ground arith) (inr (ground arith))))
                after
        ]
      ]

-- The rows of the config, when a table without such rows gets those of a forest.
rows_of :
    (c : ℤ) {groups providers : List ℕ} {ds : RuleDrafts} {n last : ℕ} {rows : List RuleRow}
    (old : List RuleRow)
    → All (λ r. rule_of c r ≡ false) old
    → Rows c groups providers ds none 0 n rows last
    → select (rule_of c) (old ++ rows) ≡ rows
rows_of c {groups} {providers} {rows = rows} old none_yet forest =
    select-append (rule_of c) old rows
    ∙ rw (select_no (rule_of c) old none_yet) (
        select-All (rule_of c) rows (
          All-mono rows (λ r s. (int_eqb_iff r.config_id c).1 s.0)
            (Rows-Stands c groups providers forest)))

-- A table without rules of the config that gets those of `build`.
pub rules-build :
    (c : ℤ) (ds : RuleDrafts) (groups providers : List ℕ) (n : ℕ) (old : List RuleRow)
    (made : List RuleRow × ℕ) (db : Db)
    → All (λ r. rule_of c r ≡ false) old
    → build c groups providers ds none 0 n ≡ ok made
    → db.rules ≡ old ++ made.0
    → rules db c ≡ stored groups providers ds 0 n
unfolding rules
rules-build c ds groups providers n old made db none_yet h at =
    let forest = build-Rows c groups providers ds none 0 n made h in
    let table = order_by by_parent made.0 in
    let level : (q : Option ℕ) → select (has_parent q) table ≡ select (has_parent q) made.0 = λ q.
      select-order_by by_parent (λ a b. parent_total a.parent_id b.parent_id a.position b.position)
        (λ a b d. parent_trans a.parent_id b.parent_id d.parent_id a.position b.position d.position)
        (has_parent q) made.0
      ∙ order_by-Sorted by_parent (select (has_parent q) made.0)
          (Rows-Sorted forest (omega arith) q) in
    let enough = length-order_by by_parent made.0 in
    rw (at, rows_of c old none_yet forest, level none)
      (freeze-stored (length table) table forest (omega arith) (omega arith)
        (λ id lo hi. level (some id)))
