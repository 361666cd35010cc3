-- ===== src/ConfigSave/Replaces.antt =====
-- internal/handlers/config_save: when a request is saved.
use subgen.Prelude.Int.{ℤ, pos, int_eq, int_eqb_iff}
use subgen.Prelude.{
  ℕ, ◌≡◌, ◌≢◌, ◌⊎◌, inl, inr, refl, String, List, Option, some, Result, ok, ◌==◌, Bool-cases,
}
use subgen.Mihomo.Draft.{ConfigDraft}
use subgen.Mihomo.Decode.{ConfigDto}
use subgen.Store.Tables.{Db}
use subgen.Store.Save.{save_mihomo_config}
use subgen.Store.Members.{Increasing}
use subgen.Store.Succeeds.{WellFormed, Storable, save_mihomo_config-ok}
use subgen.Configs
use subgen.Configs.{ConfigRow, ConfigsError, ensure_base_config_id, user_config_id, base_config_id}
use subgen.Configs.Owners.{RealUsers, ensure_base_config_id-Ensured}
use subgen.ConfigSave.Accepted.{checked-Accepted}
use subgen.ConfigSave.{Tables, Reply, saved, resolve_config_id, checked, config_save}

module _ {E : Type 0} (unmarshal : String → Result E ConfigDto)
    (top_keys : String → Option (List String)) where
  -- A draft that passes the checks is well-formed.
  pub checked-WellFormed :
      (raw : Result E String) (draft : ConfigDraft)
      → checked unmarshal top_keys raw ≡ ok draft
      → WellFormed draft
  checked-WellFormed raw draft h =
      let (json, read, decoded, base, groups, acyclic, rules, provs, prof) =
        checked-Accepted unmarshal top_keys raw draft h in
      (groups, rules)

  module _ (new_config now : ℤ) (new_group new_provider : ℕ → ℕ) (user_id : ℤ)
      (raw : Result E String) (t : Tables) where
    abbrev outcome : Reply E × Tables
    outcome = config_save unmarshal top_keys new_config now new_group new_provider user_id raw t

    -- The scope of the request: the base config, or the custom config that the user has.
    abbrev pub HasScope : Type 0
    HasScope =
        (user_id ≡ pos 0)
        ⊎ ((user_id ≢ pos 0)
            × ((id : ℤ) × (user_config_id user_id Configs.mihomo t.configs ≡ some id)))

    -- The config `c` of the rows after the request is the one of the scope, and the custom configs are
    -- those of before.
    abbrev pub OfScope : ℤ → List ConfigRow → Type 0
    OfScope c rows =
        (user_id ≡ pos 0 → base_config_id Configs.mihomo rows ≡ some c)
        × (user_id ≢ pos 0 → user_config_id user_id Configs.mihomo rows ≡ some c)
        × ((u : ℤ) (k : String) → user_config_id u k rows ≡ user_config_id u k t.configs)

    resolve_config_id-OfScope :
        RealUsers t.configs
        → HasScope
        → (c : ℤ) × (rows : List ConfigRow) × (resolve_config_id new_config now user_id t.configs
            ≡ ok (c, rows))
          × OfScope c rows
    unfolding resolve_config_id
    resolve_config_id-OfScope real (inl e) =
        let (c, rows, made, (at, same, kept)) =
          ensure_base_config_id-Ensured new_config now Configs.mihomo t.configs real in
        (
          c,
          rows,
          rw ((int_eqb_iff user_id (pos 0)).1 e) made,
          ((λ i. at), (λ ne. absurd (ne e)), same),
        )
    resolve_config_id-OfScope real (inr (ne, (c, at))) = elim (Bool-cases (user_id == pos 0)) [
      | inl zero_id ↦ absurd (ne ((int_eqb_iff user_id (pos 0)).0 zero_id))
      | inr other ↦
          (c, t.configs, rw (other, at) refl, ((λ e. absurd (ne e)), (λ n. at), (λ u k. refl)))
    ]

    -- A draft that passes the checks, with a scope, rule-providers of different names and known
    -- inbounds, is saved in the config of the scope.
    pub config_save-saved :
        (draft : ConfigDraft)
        → Increasing new_provider
        → RealUsers t.configs
        → HasScope
        → checked unmarshal top_keys raw ≡ ok draft
        → Storable draft t.content.inbounds
        → (c : ℤ) × (rows : List ConfigRow) × (db : Db) × (outcome
            ≡ (saved, record { configs = rows; content = db }))
          × OfScope c rows
          × (save_mihomo_config new_group new_provider c draft t.content ≡ ok db)
    unfolding config_save
    config_save-saved draft up real scope ok_draft storable =
        let (c, rows, resolved, of_scope) = resolve_config_id-OfScope real scope in
        let (db, made) =
          save_mihomo_config-ok new_group new_provider up c draft t.content
            (checked-WellFormed raw draft ok_draft) storable in
        (c, rows, db, rw (ok_draft, resolved, made) refl, of_scope, made)
