-- ===== src/Customs/Undone.antt =====
-- internal/handlers/custom_create and custom_delete: whose config is made, and what deleting it leaves.
use subgen.Prelude.Int.{ℤ, int_eq, int_eqb_iff}
use subgen.Prelude.Lists.{All, append_nil}
use subgen.Prelude.{
  ◌≡◌, ◌≢◌, refl, sym, ap, ◌∙◌, subst, ℕ, String, Bool, true, false, ◌&&◌, not, List, [], ◌∷◌, ◌++◌,
  Option, none, some, Result, ok, err, ◌==◌, string_eq, inl, inr, Bool-cases, >>=-eq-ok,
  reject-eq-ok,
}
use subgen.Store.Tables.{Db, select}
use subgen.Store.Save.{contains_id}
use subgen.Store.Order.{select-append, select_no}
use subgen.Store.Clone.{CloneError, clone_config}
use subgen.Store.Uncopied.{cut, Fresh, drop_content-clone_config, drop_content_fresh}
use subgen.Configs.{
  ConfigRow, mihomo, owner, same_user, is_custom, is_base, conflicts, user_config_id,
  base_config_id, drop_all, delete_user_config, drop_content, first_id,
}
use subgen.Configs.Create.{
  CreateError, user_config_exists, user_missing, copy, copied, clone_base, custom_row,
  create_user_config,
}
use subgen.ConfigSave.{Tables}
use subgen.Customs.{message, created, custom_create, custom_delete}

-- A row that does not stand in the way of a custom config is not one of the same user.
no_clash :
    (o : Option ℤ) (u : ℤ) (b : Bool) → (owner o == u && b) ≡ false → (same_user o u && b) ≡ false
no_clash none u b h = refl
no_clash (some x) u b h = h

pub conflicts_no :
    (new_id now u : ℤ) (kind : String) (rows : List ConfigRow)
    → conflicts (custom_row new_id now u kind) rows ≡ false
    → All (λ r. is_custom u kind r ≡ false) rows
unfolding conflicts
conflicts_no new_id now u kind [] h = tt
conflicts_no new_id now u kind (r ∷ rows) h =
    elim (Bool-cases (owner r.user_id == u && r.kind == kind)) [
      | inl clash ↦ let e = (rw clash at h) in absurd cc
      | inr free ↦ (
        no_clash r.user_id u (r.kind == kind) free,
        conflicts_no new_id now u kind rows (rw free at h),
      )
    ]

created-ok :
    (t t' : Tables) (m : String) (made : Result CreateError (List ConfigRow × Db))
    → created t made ≡ (message m, t')
    → (rows : List ConfigRow) × (db : Db) × (made ≡ ok (rows, db))
      × (record { configs = rows; content = db } ≡ t')
created-ok t t' m (ok (rows, db)) h = (rows, db, refl, ap (λ x. x.1) h)
created-ok t t' m (err user_config_exists) h = let e = ap (λ x. x.0) h in cc
created-ok t t' m (err user_missing) h = let e = ap (λ x. x.0) h in cc
created-ok t t' m (err (copy c)) h = let e = ap (λ x. x.0) h in cc

copied-ok : (r : Result CloneError Db) (d : Db) → copied r ≡ ok d → r ≡ ok d
copied-ok (ok db) d h = let e : db ≡ d = cc in ap ok e
copied-ok (err e) d h = cc

drop_content-clone_base :
    (new_group new_provider : ℕ → ℕ) (base : Option ℤ) (c : ℤ) (db d : Db)
    → Fresh new_group c db
    → clone_base new_group new_provider base c db ≡ ok d
    → drop_content c d ≡ db
drop_content-clone_base new_group new_provider none c db d fresh h =
    let e : db ≡ d = cc in
    subst (λ x. drop_content c x ≡ db) e (drop_content_fresh new_group c db fresh)
drop_content-clone_base new_group new_provider (some src) c db d fresh h =
    drop_content-clone_config new_group c db fresh new_provider src d
      (copied-ok (clone_config new_group new_provider src c db) d h)

-- What a table with one more row selects, when the test fails at the row.
select-snoc :
    (test : ConfigRow → Bool) (rows : List ConfigRow) (r : ConfigRow)
    → test r ≡ false
    → select test (rows ++ r ∷ []) ≡ select test rows
unfolding select
select-snoc test rows r h = select-append test rows (r ∷ []) ∙ rw h (append_nil (select test rows))

-- After a custom config is made: it is the user's, the base configs and those of other users are as before.
abbrev pub Given : ℤ → ℤ → List ConfigRow → List ConfigRow → Type 0
Given user_id new_id rows rows' =
    (user_config_id user_id mihomo rows' ≡ some new_id)
    × ((kind : String) → base_config_id kind rows' ≡ base_config_id kind rows)
    × ((u : ℤ) (kind : String)
        → u ≢ user_id
        → user_config_id u kind rows' ≡ user_config_id u kind rows)

module _ (new_id now user_id : ℤ) (rows : List ConfigRow) where
  abbrev row : ConfigRow
  row = custom_row new_id now user_id mihomo

  row_own : is_custom user_id mihomo row ≡ true
  row_own = rw ((int_eqb_iff user_id user_id).1 refl) refl

  own_rows :
      All (λ r. is_custom user_id mihomo r ≡ false) rows
      → select (is_custom user_id mihomo) (rows ++ row ∷ []) ≡ row ∷ []
  unfolding select
  own_rows none_yet =
      select-append (is_custom user_id mihomo) rows (row ∷ [])
      ∙ rw (select_no (is_custom user_id mihomo) rows none_yet, row_own) refl

  Given-rows :
      All (λ r. is_custom user_id mihomo r ≡ false) rows
      → Given user_id new_id rows (rows ++ row ∷ [])
  unfolding user_config_id base_config_id
  Given-rows none_yet = (
    ap first_id (own_rows none_yet),
    (λ kind. ap first_id (select-snoc (is_base kind) rows row refl)),
    λ u kind ne. ap first_id (
        select-snoc (is_custom u kind) rows row (elim (Bool-cases (user_id == u)) [
          | inl same ↦ absurd (ne (sym ((int_eqb_iff user_id u).0 same)))
          | inr other ↦ rw other refl
        ])),
  )

delete_made :
    (new_id now user_id : ℤ) (t : Tables) (d : Db)
    → All (λ r. is_custom user_id mihomo r ≡ false) t.configs
    → drop_content new_id d ≡ t.content
    → custom_delete user_id
        (record { configs = t.configs ++ custom_row new_id now user_id mihomo ∷ []; content = d })
      ≡ (message "Custom config deleted", t)
unfolding custom_delete delete_user_config drop_all
delete_made new_id now user_id t d none_yet gone =
    let row = custom_row new_id now user_id mihomo in
    rw
      (
        own_rows new_id now user_id t.configs none_yet,
        cut (is_custom user_id mihomo) t.configs (row ∷ []) none_yet
            (row_own new_id now user_id t.configs, tt),
        gone,
      )
      refl

-- Once CustomCreate answers that the config is created, it is the user's, while the base configs and the
-- configs of other users are as before; and CustomDelete then leaves all tables as they were, when no row
-- had the id of the new config and no member the id of a new group.
pub custom_delete-custom_create :
    (new_group new_provider : ℕ → ℕ) (new_id now : ℤ) (users : List ℤ) (user_id : ℤ) (t t' : Tables)
    → Fresh new_group new_id t.content
    → custom_create new_group new_provider new_id now users user_id t
      ≡ (message "Custom config created", t')
    → Given user_id new_id t.configs t'.configs
      × (custom_delete user_id t' ≡ (message "Custom config deleted", t))
unfolding custom_create create_user_config
custom_delete-custom_create new_group new_provider new_id now users user_id t t' fresh h =
    let row = custom_row new_id now user_id mihomo in
    let (rows, db, made, e) = created-ok t t' "Custom config created" _ h in
    let (free, made1) =
      reject-eq-ok (conflicts row t.configs) user_config_exists _ (rows, db) made in
    let (known, made2) =
      reject-eq-ok (not (contains_id users user_id)) user_missing _ (rows, db) made1 in
    let (d, cloned, made3) =
      >>=-eq-ok
        (clone_base new_group new_provider (base_config_id mihomo t.configs) new_id t.content) _
        (rows, db) made2 in
    let rest : d ≡ db = cc in
    let all : t.configs ++ row ∷ [] ≡ rows = cc in
    let whole : record { configs = t.configs ++ row ∷ []; content = d } ≡ t' = rw (all, rest) e in
    let none_yet = conflicts_no new_id now user_id mihomo t.configs free in
    let gone =
      drop_content-clone_base new_group new_provider (base_config_id mihomo t.configs) new_id
        t.content d fresh cloned in
    subst
      (λ x.
        Given user_id new_id t.configs x.configs
        × (custom_delete user_id x ≡ (message "Custom config deleted", t)))
      whole
      (
        Given-rows new_id now user_id t.configs none_yet,
        delete_made new_id now user_id t d none_yet gone,
      )
