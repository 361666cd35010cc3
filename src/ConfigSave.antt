-- ===== src/ConfigSave.antt =====
-- internal/handlers/config_save: POST /admin/api/config/mihomo/save.
pub mod Messages
pub mod Replaces
pub mod Shapes
pub mod Accepted
use subgen.Prelude.Int.{ℤ, pos, int_eq}
use subgen.Prelude.Lists.{length}
use subgen.Prelude.{
  ℕ, String, Bool, List, Option, none, some, Result, ok, err, ◌>>=◌, ◌==◌, if◌then◌else◌,
}
use subgen.Mihomo.Errors.{Check}
use subgen.Mihomo.Draft.{ConfigDraft}
use subgen.Mihomo.Draft
use subgen.Mihomo.Decode.{ConfigDto, decode_config}
use subgen.Mihomo.Groups.{validate_proxy_groups, validate_base_yaml}
use subgen.Mihomo.Validate.{validate_routing_rules, validate_rule_providers, validate_profile}
use subgen.Store.Tables.{Db, StoreError, rule_provider_name_taken}
use subgen.Store.Save.{save_mihomo_config}
use subgen.Configs.{
  ConfigRow, ConfigsError, user_config_not_found, no_rows, user_config_id, ensure_base_config_id,
}
use subgen.Configs
use subgen.ConfigSave.Messages.{SaveError, validation_message}

-- The tables that the handler reaches through its two repositories.
pub record Tables : Type 0 where
  pub configs : List ConfigRow
  pub content : Db

-- The answer: the message MsgSaved, a 400 with a text, or an error that becomes a 5xx.
pub data Reply (E : Type 0) : Type 0 where
  saved : Reply E
  bad_request : String → Reply E
  failed : SaveError E → Reply E

-- An error of one part as an error of the handler.
abbrev lift {ℓ κ μ} : {E : Type ℓ} {F : Type κ} {A : Type μ} → (E → F) → Result E A → Result F A
lift f (err e) = err (f e)
lift f (ok a) = ok a

abbrev custom : Option ℤ → List ConfigRow → Result ConfigsError (ℤ × List ConfigRow)
custom none rows = err user_config_not_found
custom (some id) rows = ok (id, rows)

-- resolveConfigID, for the id and the time of a new base row.
unfoldable pub resolve_config_id :
    ℤ → ℤ → ℤ → List ConfigRow → Result ConfigsError (ℤ × List ConfigRow)
unfolding ensure_base_config_id user_config_id
resolve_config_id new_id now user_id rows =
    if user_id == pos 0
    then ensure_base_config_id new_id now Configs.mihomo rows
    else custom (user_config_id user_id Configs.mihomo rows) rows

module _ {E : Type 0} (unmarshal : String → Result E ConfigDto)
    (top_keys : String → Option (List String)) where
  -- Decoding and the five checks, for the request as JSON.
  unfoldable pub checked : Result E String → Result (SaveError E) ConfigDraft
  unfolding decode_config validate_base_yaml validate_proxy_groups validate_routing_rules
      validate_rule_providers validate_profile
  checked raw = do
    json ← lift SaveError.codec raw
    draft ← lift SaveError.codec (decode_config unmarshal json)
    u ← lift SaveError.mihomo (validate_base_yaml top_keys draft.base_yaml)
    u ← lift SaveError.mihomo (validate_proxy_groups draft.groups)
    u ←
        lift SaveError.mihomo
          (validate_routing_rules draft.rules (length draft.groups) (length draft.providers))
    u ← lift SaveError.mihomo (validate_rule_providers draft.providers)
    u ← lift SaveError.mihomo (validate_profile draft.profile)
    ok draft

  abbrev pub refused_as : SaveError E → Option String → Reply E
  refused_as e none = failed e
  refused_as e (some text) = bad_request text

  abbrev pub unresolved : ConfigsError → Reply E
  unresolved user_config_not_found = bad_request "The user has no custom config"
  unresolved e = failed (SaveError.configs e)

  abbrev pub unsaved : StoreError → Reply E
  unsaved rule_provider_name_taken = bad_request "A rule-provider with this name already exists"
  unsaved e = failed (SaveError.store e)

  abbrev pub stored_as : List ConfigRow → Db → Result StoreError Db → Reply E × Tables
  stored_as rows db (err e) = (unsaved e, record { configs = rows; content = db })
  stored_as rows db (ok db') = (saved, record { configs = rows; content = db' })

  module _ (new_config now : ℤ) (new_group new_provider : ℕ → ℕ) where
    abbrev pub save_to :
        ConfigDraft → Tables → Result ConfigsError (ℤ × List ConfigRow) → Reply E × Tables
    save_to draft t (err e) = (unresolved e, t)
    save_to draft t (ok (id, rows)) =
        stored_as rows t.content (save_mihomo_config new_group new_provider id draft t.content)

    abbrev pub save_checked : ℤ → Tables → Result (SaveError E) ConfigDraft → Reply E × Tables
    save_checked user_id t (err e) = (refused_as e (validation_message e), t)
    save_checked user_id t (ok draft) =
        save_to draft t (resolve_config_id new_config now user_id t.configs)

    -- ConfigSave, for the ids that new rows are assigned, the time, the user of the scope and the
    -- request as JSON.
    unfoldable pub config_save : ℤ → Result E String → Tables → Reply E × Tables
    unfolding checked validation_message resolve_config_id save_mihomo_config
    config_save user_id raw t = save_checked user_id t (checked raw)
