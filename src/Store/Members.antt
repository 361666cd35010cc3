-- ===== src/Store/Members.antt =====
-- internal/repository/routing: the rows of a config's groups and of their members.
use subgen.Prelude.Int.{ℤ, int_eq, int_eqb_iff}
use subgen.Prelude.Lists.{All, All-mono, length, get_elem?}
use subgen.Prelude.{
  ℕ, zero, suc, ◌+◌, ◌≤◌, ◌<◌, false, List, [], ◌∷◌, ◌++◌, map, some, ok, ◌≡◌, refl, ap, ◌∙◌, subst,
  arith, >>=-eq-ok,
}
use subgen.Mihomo.Draft.{RefDraft, GroupDraft}
use subgen.Store.Tables.{GroupRow, MemberRow, select, order_by}
use subgen.Store.Save.{ref_columns, of_config, by_position, group_rows, group_ids, member_rows}
use subgen.Store.Load.{ref_of_row, by_group}
use subgen.Store.Order.{select-append, select_no, select-All, Sorted, order_by-Sorted}
use subgen.Store.Refs.{resolved, column-ref_columns}

-- The ids of n rows in a batch, from the i-th on.
unfoldable pub ids_from : (ℕ → ℕ) → ℕ → ℕ → List ℕ
ids_from new_id i zero = []
ids_from new_id i (suc n) = new_id i ∷ ids_from new_id (suc i) n

-- Later rows of a batch have larger ids.
unfoldable pub Increasing : (ℕ → ℕ) → Type 0
Increasing new_id = (i j : ℕ) → i < j → new_id i < new_id j

pub get_elem?-ids_from :
    (new_id : ℕ → ℕ) (i n k : ℕ) → k < n → get_elem? (ids_from new_id i n) k ≡ some (new_id (k + i))
unfolding ids_from
get_elem?-ids_from new_id i zero k h = absurd (omega arith)
get_elem?-ids_from new_id i (suc n) zero h = ap (λ x. some (new_id x)) (omega arith)
get_elem?-ids_from new_id i (suc n) (suc k) h =
    get_elem?-ids_from new_id (suc i) n k (omega arith) ∙ ap (λ x. some (new_id x)) (omega arith)

module _ (c : ℤ) (new_id : ℕ → ℕ) where
  pub group_rows-All :
      (i : ℕ) (gs : List GroupDraft)
      → All (λ r. (r.config_id ≡ c) × (i ≤ r.position)) (group_rows c new_id i gs)
  unfolding group_rows
  group_rows-All i [] = tt
  group_rows-All i (g ∷ gs) = (
    (refl, omega arith),
    All-mono (group_rows c new_id (suc i) gs) (λ r h. (h.0, omega arith))
        (group_rows-All (suc i) gs),
  )

  group_rows-Sorted : (i : ℕ) (gs : List GroupDraft) → Sorted by_position (group_rows c new_id i gs)
  unfolding group_rows Sorted
  group_rows-Sorted i [] = tt
  group_rows-Sorted i (g ∷ gs) = (
    All-mono (group_rows c new_id (suc i) gs) (λ r h. let p = h.1 in ground arith)
        (group_rows-All (suc i) gs),
    group_rows-Sorted (suc i) gs,
  )

  -- The groups of the config in a table that had none and got those of the drafts.
  pub order_by-group_rows :
      (old : List GroupRow) (gs : List GroupDraft)
      → All (λ r. of_config c r ≡ false) old
      → order_by by_position (select (of_config c) (old ++ group_rows c new_id 0 gs))
        ≡ group_rows c new_id 0 gs
  order_by-group_rows old gs h =
      rw
        (
          select-append (of_config c) old (group_rows c new_id 0 gs),
          select_no (of_config c) old h,
          select-All (of_config c) (group_rows c new_id 0 gs) (
              All-mono (group_rows c new_id 0 gs) (λ r s. (int_eqb_iff r.config_id c).1 s.0)
                (group_rows-All 0 gs)),
        )
        (order_by-Sorted by_position (group_rows c new_id 0 gs) (group_rows-Sorted 0 gs))

  ids-group_rows :
      (i : ℕ) (gs : List GroupDraft)
      → map (λ g. g.id) (group_rows c new_id i gs) ≡ ids_from new_id i (length gs)
  unfolding group_rows ids_from
  ids-group_rows i [] = refl
  ids-group_rows i (g ∷ gs) = ap (λ xs. new_id i ∷ xs) (ids-group_rows (suc i) gs)

  pub group_ids-group_rows :
      (old : List GroupRow) (gs : List GroupDraft)
      → All (λ r. of_config c r ≡ false) old
      → group_ids c (old ++ group_rows c new_id 0 gs) ≡ ids_from new_id 0 (length gs)
  unfolding group_ids
  group_ids-group_rows old gs h = rw (order_by-group_rows old gs h) (ids-group_rows 0 gs)

module _ (ids : List ℕ) where
  -- The rows of one group: its members in order, from position j on.
  abbrev pub AreMembers : ℕ → ℕ → List RefDraft → List MemberRow → Type 0
  AreMembers group_id j ms rows =
      All (λ r. (r.group_id ≡ group_id) × (j ≤ r.position)) rows
      × Sorted by_group rows
      × (map ref_of_row rows ≡ map (resolved ids) ms)

  pub member_rows-AreMembers :
      (group_id j : ℕ) (ms : List RefDraft) (rows : List MemberRow)
      → member_rows ids group_id j ms ≡ ok rows
      → AreMembers group_id j ms rows
  unfolding member_rows Sorted resolved
  member_rows-AreMembers group_id j [] rows h =
      let e : [] ≡ rows = cc in subst (AreMembers group_id j []) e (tt, tt, refl)
  member_rows-AreMembers group_id j (m ∷ ms) rows h =
      let columns = >>=-eq-ok (ref_columns m.kind m ids) _ rows h in
      let rest = >>=-eq-ok (member_rows ids group_id (suc j) ms) _ rows columns.2 in
      let below = member_rows-AreMembers group_id (suc j) ms rest.0 rest.1 in
      let at = column-ref_columns ids m.kind m columns.0 columns.1 in
      let row : MemberRow = record {
        group_id = group_id;
        position = j;
        kind = m.kind;
        inbound_id = columns.0.0;
        ref_group_id = columns.0.1;
      } in
      let e : row ∷ rest.0 ≡ rows = cc (rest.2) in
      subst (AreMembers group_id j (m ∷ ms)) e (
        ((refl, omega arith), All-mono rest.0 (λ r h. (h.0, omega arith)) below.0),
        (All-mono rest.0 (λ r h. let g = h.0 in let p = h.1 in ground arith) below.0, below.1),
        rw (at.0, at.1, below.2) refl,
      )
