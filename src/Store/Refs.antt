-- ===== src/Store/Refs.antt =====
-- internal/repository/routing: the reference columns that are saved, as they are loaded.
use subgen.Prelude.Int.{ℤ, pos, negsuc}
use subgen.Prelude.Lists.{get_elem?}
use subgen.Prelude.{ℕ, List, Option, none, some, ok, ◌≡◌, refl, sym, ap, >>=-eq-ok, subst, Result}
use subgen.Mihomo.PolicyRef.{PolicyRef, PolicyKind}
use subgen.Mihomo.Draft.{RefDraft}
use subgen.Store.Tables.{StoreError}
use subgen.Store.Save.{
  Columns, target_columns, ref_columns, kind_of, found_id, id_at, inbound_column, group_column,
}
use subgen.Store.Load.{id_ptr, target_ptr}

-- The id that stands at an index.
abbrev pub id_of : List ℕ → Option ℤ → Option ℤ
id_of ids (some (pos i)) = elim (get_elem? ids i) [ none ↦ none | some id ↦ some (pos id) ]
id_of ids _ = none

found : (o x : Option ℕ) → found_id o ≡ ok x → id_ptr x ≡ id_ptr o
found none x h = cc
found (some id) x h = let e : some id ≡ x = cc in ap id_ptr (sym e)

pub found-id_at :
    (ids : List ℕ) (i : ℤ) (x : Option ℕ) → id_at ids i ≡ ok x → id_ptr x ≡ id_of ids (some i)
found-id_at ids (pos i) x h = found (get_elem? ids i) x h
found-id_at ids (negsuc i) x h = cc

abbrev SameResult : Result StoreError Columns → Result StoreError Columns → Type 0
SameResult r s = r ≡ s

-- What the columns say, when they are those of one row.
columns_are :
    (x columns : Columns) (inbound group : Option ℤ)
    → SameResult (ok x) (ok columns)
    → x.0 ≡ inbound
    → id_ptr x.1 ≡ group
    → (columns.0 ≡ inbound) × (id_ptr columns.1 ≡ group)
columns_are x columns inbound group h i g =
    let e : x ≡ columns = cc in subst (λ x. (x.0 ≡ inbound) × (id_ptr x.1 ≡ group)) e (i, g)

inbound_columns :
    (inbound : Option ℤ) (columns : Columns)
    → inbound_column inbound ≡ ok columns
    → (columns.0 ≡ inbound) × (id_ptr columns.1 ≡ none)
inbound_columns none columns h = cc
inbound_columns (some id) columns h = columns_are (some id, none) columns (some id) none h refl refl

module _ (groups : List ℕ) where
  -- A reference with the index replaced by the id.
  unfoldable pub resolved : RefDraft → PolicyRef
  resolved r = record {
    kind = r.kind;
    inbound_id = elim r.kind [ PolicyKind.inbound ↦ r.inbound_id | _ ↦ none ];
    group_id = elim r.kind [ PolicyKind.group ↦ id_of groups r.group_idx | _ ↦ none ];
  }

  group_columns :
      (idx : Option ℤ) (columns : Columns)
      → group_column idx groups ≡ ok columns
      → (columns.0 ≡ none) × (id_ptr columns.1 ≡ id_of groups idx)
  group_columns none columns h = cc
  group_columns (some i) columns h =
      let at = >>=-eq-ok (id_at groups i) _ columns h in
      columns_are (none, at.0) columns none (id_of groups (some i)) at.2 refl
        (found-id_at groups i at.0 at.1)

  pub column-ref_columns :
      (kind : PolicyKind) (r : RefDraft) (columns : Columns)
      → ref_columns kind r groups ≡ ok columns
      → (columns.0 ≡ elim kind [ PolicyKind.inbound ↦ r.inbound_id | _ ↦ none ])
        × (id_ptr columns.1 ≡ elim kind [ PolicyKind.group ↦ id_of groups r.group_idx | _ ↦ none ])
  unfolding ref_columns
  column-ref_columns PolicyKind.direct r columns h =
      columns_are (none, none) columns none none h refl refl
  column-ref_columns PolicyKind.reject r columns h =
      columns_are (none, none) columns none none h refl refl
  column-ref_columns PolicyKind.reject_drop r columns h =
      columns_are (none, none) columns none none h refl refl
  column-ref_columns PolicyKind.reject_no_drop r columns h =
      columns_are (none, none) columns none none h refl refl
  column-ref_columns PolicyKind.pass r columns h =
      columns_are (none, none) columns none none h refl refl
  column-ref_columns (PolicyKind.unknown s) r columns h =
      columns_are (none, none) columns none none h refl refl
  column-ref_columns PolicyKind.inbound r columns h = inbound_columns r.inbound_id columns h
  column-ref_columns PolicyKind.group r columns h = group_columns r.group_idx columns h

  pub target-stored :
      (t : Option RefDraft) (columns : Columns)
      → target_columns t groups ≡ ok columns
      → target_ptr (kind_of t) columns.0 columns.1
        ≡ elim t [ none ↦ none | some r ↦ some (resolved r) ]
  unfolding resolved
  target-stored none columns h = refl
  target-stored (some r) columns h =
      let at = column-ref_columns r.kind r columns h in rw (at.0, at.1) refl
