-- ===== src/Configs/Owners.antt =====
-- internal/repository/configs: at most one config for an owner and a kind.
use subgen.Prelude.Int.{ℤ, pos, int_eq, int_eqb_iff}
use subgen.Prelude.Lists.{All, append_nil}
use subgen.Prelude.{
  ◌≡◌, ◌≢◌, refl, ap, String, Bool, true, false, List, [], ◌∷◌, ◌++◌, Option, none, some, ok, ◌==◌,
  string_eq, eq_iff, inl, inr, Bool-cases, ◌&&◌,
}
use subgen.Store.Tables.{select}
use subgen.Configs.{
  ConfigRow, is_base, is_custom, first_id, base_config_id, user_config_id, conflicts, base_row,
  ensure_base_config_id, owner, is_null,
}
use subgen.Store.Order.{select-append}

-- No row has the user 0, which the index takes for the base.
abbrev pub RealUsers : List ConfigRow → Type 0
RealUsers rows = All (λ r. r.user_id ≢ some (pos 0)) rows

-- The test of a row against the base row of a kind.
clash_base :
    (user_id : Option ℤ) (same : Bool)
    → user_id ≢ some (pos 0)
    → (owner user_id == pos 0 && same) ≡ true
    → (user_id ≡ none) × (same ≡ true)
clash_base none same ne h = (refl, h)
clash_base (some u) same ne h = elim (Bool-cases (u == pos 0)) [
  | inl zero_user ↦ absurd (ne (ap some ((int_eqb_iff u (pos 0)).0 zero_user)))
  | inr other ↦ let e = (rw other at h) in cc
]

-- A base row that conflicts with none is found in a table where one conflicts.
conflict-base :
    (new_id now : ℤ) (kind : String) (rows : List ConfigRow)
    → RealUsers rows
    → conflicts (base_row new_id now kind) rows ≡ true
    → (id : ℤ) × (base_config_id kind rows ≡ some id)
unfolding conflicts base_config_id
conflict-base new_id now kind [] h c = cc
conflict-base new_id now kind (r ∷ rs) h c = elim (Bool-cases (is_base kind r)) [
  | inl base ↦ (r.id, rw base refl)
  | inr other ↦ elim (Bool-cases (owner r.user_id == pos 0 && r.kind == kind)) [
    | inl clash ↦
        let (none_user, same) = clash_base r.user_id (r.kind == kind) h.0 clash in
        let e : is_base kind r ≡ true = rw (none_user, same) refl in cc
    | inr free ↦
        let (id, at) = conflict-base new_id now kind rs h.1 (rw free at c) in (id, rw other at)
  ]
]

first_id-snoc :
    (rows : List ConfigRow) (r : ConfigRow) → (id : ℤ) × (first_id (rows ++ r ∷ []) ≡ some id)
first_id-snoc [] r = (r.id, refl)
first_id-snoc (x ∷ rows) r = (x.id, refl)

-- What EnsureBaseConfigID has done.
abbrev pub Ensured : String → List ConfigRow → ℤ → List ConfigRow → Type 0
Ensured kind rows id rows' =
    (base_config_id kind rows' ≡ some id)
    × ((user : ℤ) (k : String) → user_config_id user k rows' ≡ user_config_id user k rows)
    × ((base : ℤ) → base_config_id kind rows ≡ some base → (id ≡ base) × (rows' ≡ rows))

is_base_clashes :
    (kind : String) (r : ConfigRow)
    → is_base kind r ≡ true
    → (owner r.user_id == pos 0 && r.kind == kind) ≡ true
is_base_clashes kind r h = owned r.user_id (r.kind == kind) h
  where
    owned :
        (u : Option ℤ) (same : Bool)
        → (is_null u && same) ≡ true
        → (owner u == pos 0 && same) ≡ true
    owned none same h = h
    owned (some u) same h = cc

base-snoc :
    (kind : String) (rows : List ConfigRow) (r : ConfigRow)
    → is_base kind r ≡ true
    → (id : ℤ) × (base_config_id kind (rows ++ r ∷ []) ≡ some id)
unfolding base_config_id select
base-snoc kind rows r own =
    let (id, at) = first_id-snoc (select (is_base kind) rows) r in
    (id, rw (select-append (is_base kind) rows (r ∷ []), own) at)

custom-snoc :
    (user : ℤ) (k : String) (rows : List ConfigRow) (r : ConfigRow)
    → is_custom user k r ≡ false
    → user_config_id user k (rows ++ r ∷ []) ≡ user_config_id user k rows
unfolding user_config_id select
custom-snoc user k rows r other = rw (
  select-append (is_custom user k) rows (r ∷ []),
  other,
  append_nil (select (is_custom user k) rows),
)

base_conflicts :
    (new_id now base : ℤ) (kind : String) (rows : List ConfigRow)
    → base_config_id kind rows ≡ some base
    → conflicts (base_row new_id now kind) rows ≡ true
unfolding base_config_id conflicts
base_conflicts new_id now base kind [] at = cc
base_conflicts new_id now base kind (r ∷ rs) at = elim (Bool-cases (is_base kind r)) [
  | inl own ↦ rw (is_base_clashes kind r own)
  | inr other ↦ elim (Bool-cases (owner r.user_id == pos 0 && r.kind == kind)) [
    | inl clash ↦ rw clash
    | inr free ↦ rw free (base_conflicts new_id now base kind rs (rw other at at))
  ]
]

-- With users that are not 0, EnsureBaseConfigID succeeds: it returns the base config of the kind, which is
-- the one that was there if there was one, in a table that is then unchanged; and no custom config of any
-- kind changes.
pub ensure_base_config_id-Ensured :
    (new_id now : ℤ) (kind : String) (rows : List ConfigRow)
    → RealUsers rows
    → (id : ℤ) × (rows' : List ConfigRow) × (ensure_base_config_id new_id now kind rows
        ≡ ok (id, rows'))
      × Ensured kind rows id rows'
unfolding ensure_base_config_id
ensure_base_config_id-Ensured new_id now kind rows real =
    elim (Bool-cases (conflicts (base_row new_id now kind) rows)) [
      | inl clash ↦
          let (id, at) = conflict-base new_id now kind rows real clash in
          (id, rows, rw (clash, at), (at, (λ user k. refl), (λ base found. (cc, refl))))
      | inr free ↦
          let row = base_row new_id now kind in
          let (id, at) = base-snoc kind rows row ((eq_iff kind kind).1 refl) in
          (
            id,
            rows ++ row ∷ [],
            rw (free, at),
            (
              at,
              (λ user k. custom-snoc user k rows row refl),
              (λ base found. let clash = base_conflicts new_id now base kind rows found in cc),
            ),
          )
    ]
