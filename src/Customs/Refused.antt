-- ===== src/Customs/Refused.antt =====
-- internal/handlers/custom_create: who already has a config.
use subgen.Prelude.Int.{ℤ, pos, int_eq, int_eqb_iff}
use subgen.Prelude.{
  ◌≡◌, ◌≢◌, ◌↔◌, refl, sym, ap, ◌∙◌, ℕ, String, Bool, true, ◌&&◌, List, [], ◌∷◌, Option, none, some,
  Result, ok, err, ◌>>=◌, ◌==◌, string_eq, inl, inr, Bool-cases, ◌++◌,
}
use subgen.Store.Tables.{Db, select}
use subgen.Store.Save.{contains_id}
use subgen.Store.Order.{select_no}
use subgen.Store.Clone.{CloneError, clone_config}
use subgen.Configs.{
  ConfigRow, mihomo, owner, same_user, is_custom, conflicts, user_config_id, base_config_id,
  first_id,
}
use subgen.Configs.Create.{CreateError, copied, clone_base, custom_row, create_user_config}
use subgen.ConfigSave.{Tables}
use subgen.Customs.{Answer, bad_request, created, custom_create}
use subgen.Customs.Undone.{conflicts_no}

clash :
    (o : Option ℤ) (u : ℤ) (b : Bool)
    → u ≢ pos 0
    → (owner o == u && b) ≡ true
    → (same_user o u && b) ≡ true
clash none u b ne h = elim (Bool-cases (pos 0 == u)) [
  | inl same ↦ absurd (ne (sym ((int_eqb_iff (pos 0) u).0 same)))
  | inr other ↦ let e = (rw other at h) in absurd cc
]
clash (some x) u b ne h = h

conflicts_found :
    (new_id now u : ℤ) (kind : String) (rows : List ConfigRow)
    → u ≢ pos 0
    → conflicts (custom_row new_id now u kind) rows ≡ true
    → (c : ℤ) × (user_config_id u kind rows ≡ some c)
unfolding conflicts user_config_id select
conflicts_found new_id now u kind [] ne h = absurd cc
conflicts_found new_id now u kind (r ∷ rows) ne h = elim (Bool-cases (is_custom u kind r)) [
  | inl own ↦ (r.id, rw own refl)
  | inr other ↦ elim (Bool-cases (owner r.user_id == u && r.kind == kind)) [
    | inl at ↦ let e = clash r.user_id u (r.kind == kind) ne at in absurd cc
    | inr free ↦
        let (c, e) = conflicts_found new_id now u kind rows ne (rw free at h) in (c, rw other e)
  ]
]

-- The text of the answer to a user who has a config.
abbrev pub Refused : Answer CreateError × Tables → Type 0
Refused a = a.0 ≡ bad_request "The user already has a custom config"

copied_fine :
    (t : Tables) (row : ConfigRow) (r : Result CloneError Db)
    → ¬ Refused (created t (copied r >>= λ db. ok (t.configs ++ row ∷ [], db)))
copied_fine t row (ok db) h = cc
copied_fine t row (err e) h = cc

base_fine :
    (new_group new_provider : ℕ → ℕ) (base : Option ℤ) (c : ℤ) (t : Tables) (row : ConfigRow)
    → ¬ Refused (
        created t (
          clone_base new_group new_provider base c t.content >>= λ db.
          ok (t.configs ++ row ∷ [], db)))
base_fine new_group new_provider none c t row h = cc
base_fine new_group new_provider (some src) c t row h =
    copied_fine t row (clone_config new_group new_provider src c t.content) h

-- For a user id that is not 0, CustomCreate answers that the user already has a custom config just when
-- the table has a custom mihomo config of the user, and then no table changes.
pub custom_create-refused_iff :
    (new_group new_provider : ℕ → ℕ) (new_id now : ℤ) (users : List ℤ) (user_id : ℤ) (t : Tables)
    → user_id ≢ pos 0
    → (custom_create new_group new_provider new_id now users user_id t
        ≡ (bad_request "The user already has a custom config", t))
      ↔ ((c : ℤ) × (user_config_id user_id mihomo t.configs ≡ some c))
unfolding custom_create create_user_config user_config_id
custom_create-refused_iff new_group new_provider new_id now users user_id t ne =
    let row = custom_row new_id now user_id mihomo in
    elim (Bool-cases (conflicts row t.configs)) [
      | inl clash ↦
          rw clash ((λ e. conflicts_found new_id now user_id mihomo t.configs ne clash), λ e. refl)
      | inr free ↦
          let no_own = ap first_id (
            select_no (is_custom user_id mihomo) t.configs
              (conflicts_no new_id now user_id mihomo t.configs free)) in
          rw free (
            (λ e. elim (Bool-cases (contains_id users user_id)) [
              | inl known ↦ absurd (
                  base_fine new_group new_provider (base_config_id mihomo t.configs) new_id t row
                    (ap (λ x. x.0) (rw known at e)))
              | inr unknown ↦ let f = ap (λ x. x.0) (rw unknown at e) in absurd cc
            ]),
            λ e. let f = sym no_own ∙ e.1 in absurd cc,
          )
    ]
