-- ===== src/Tests/Saving.antt =====
-- A request to save the base config beside a custom one, and what is served after it.
use subgen.Prelude.Int.{ℤ, pos}
use subgen.Prelude.{
  ℕ, ◌+◌, ◌≡◌, ◌≢◌, refl, inl, inr, arith, String, Bool, true, List, [], ◌∷◌, Option, none, some,
  Result, ok, err, map, if◌then◌else◌, ◌==◌, string_eq,
}
use subgen.Mihomo.RuleType.{RuleType}
use subgen.Mihomo.PolicyRef.{PolicyKind}
use subgen.Mihomo.ProxyGroup.{ProxyGroupType, RuleProvider}
use subgen.Mihomo.Errors.{MihomoError}
use subgen.Mihomo.Draft.{RefDraft, RuleFields, rule, RuleDrafts, nil, cons, ConfigDraft}
use subgen.Mihomo.Decode.{PolicyRefDto, RuleDtoFields, rule_dto, no_dto, more_dto, ConfigDto}
use subgen.Entity.Fleet.{Subscriber}
use subgen.Render.Document.{Section}
use subgen.Store.Tables.{Db}
use subgen.Configs.{ConfigRow}
use subgen.Configs.Owners.{RealUsers}
use subgen.ConfigSave.Messages.{SaveError}
use subgen.ConfigSave.{Tables, Reply, saved, bad_request, checked, config_save}
use subgen.ConfigSave.Accepted.{Accepted, Stored}
use subgen.Serve.Saved.{PickedFor, Rendered, config_save-Rendered}
use subgen.Tests.Stored.{
  before, group_id, provider_id, group_id-Increasing, provider_id-Increasing, le as name_le,
}

abbrev ref : String → Option ℤ → Option ℤ → PolicyRefDto
ref kind inbound group = record { kind = kind; inbound_id = inbound; group_idx = group }

abbrev dto : ConfigDto
dto = record {
  base_yaml = "mode: rule";
  groups =
      record {
        name = " Auto ";
        type = "select";
        url = "";
        interval = none;
        tolerance = none;
        lazy = none;
        members = ref "inbound" (some (pos 7)) none ∷ ref "direct" none none ∷ [];
      }
      ∷ [];
  rules =
      more_dto
        (rule_dto
          (record {
            type = "MATCH";
            value = none;
            provider_idx = none;
            no_resolve = none;
            target = some (ref "group" none (some (pos 0)));
          })
          no_dto)
        no_dto;
  providers = [];
  profile_title = "home";
  filename = "home.yaml";
  profile_update_interval = pos 24;
}

abbrev draft : ConfigDraft
draft = record {
  groups =
      record {
        name = "Auto";
        type = ProxyGroupType.select;
        url = "";
        interval = none;
        tolerance = none;
        lazy = none;
        members =
            record { kind = PolicyKind.inbound; inbound_id = some (pos 7); group_idx = none }
            ∷ record { kind = PolicyKind.direct; inbound_id = none; group_idx = none }
            ∷ [];
      }
      ∷ [];
  rules =
      cons
        (rule
          (record {
            type = RuleType.match_all;
            value = none;
            provider_idx = none;
            no_resolve = none;
            target =
                some
                  (record { kind = PolicyKind.group; inbound_id = none; group_idx = some (pos 0) });
          })
          nil)
        nil;
  providers = [];
  base_yaml = "mode: rule";
  profile = record { title = "home"; filename = "home.yaml"; update_interval = pos 24 };
}

-- The JSON library, for two requests and a text that is none.
abbrev unmarshal : String → Result String ConfigDto
unmarshal s = if s == "" then err "unexpected end" else ok dto

abbrev top_keys : String → Option (List String)
top_keys _ = some ("mode" ∷ [])

abbrev tables : Tables
tables = record {
  configs = record { id = pos 1; user_id = some (pos 5); kind = "mihomo"; created_at = pos 0 } ∷ [];
  content = before;
}

checked_runs :
    (checked unmarshal top_keys (ok "{}") ≡ ok draft)
    × (checked unmarshal top_keys (ok "") ≡ err (SaveError.codec "unexpected end"))
    × (checked unmarshal (λ s. none) (ok "{}")
        ≡ err (SaveError.mihomo MihomoError.base_yaml_invalid))
unfolding checked subgen.Mihomo.Draft.valid_group subgen.Prelude.Text.trim_space
    subgen.Mihomo.ProxyGroup.of_string subgen.Mihomo.Validate.validate_ref
    subgen.Mihomo.Decode.ref_from_dto subgen.Mihomo.PolicyRef.of_string
    subgen.Mihomo.Cycle.cyclic_groups subgen.Mihomo.Decode.rules_from_dto
    subgen.Mihomo.Validate.validate_rule subgen.Mihomo.Draft.valid_rule
    subgen.Mihomo.RuleType.of_string subgen.Mihomo.Decode.trim_ptr
    subgen.Mihomo.Validate.validate_target subgen.Mihomo.Validate.validate_child
checked_runs = (refl, refl, refl)

real : RealUsers tables.configs
real = ((λ e. cc), tt)

abbrev parse : String → Result String (List (String × String))
parse s = ok (("mode", "rule") ∷ [])

abbrev marshal : List (String × Section String) → Result String (List String)
marshal doc = ok (map (λ s. s.0) doc)

config_save-Rendered_example :
    (c : ℤ) × (rows : List ConfigRow) × (db : Db) × (config_save unmarshal top_keys
        (pos 2)
        (pos 9)
        group_id
        provider_id
        (pos 0)
        (ok "{}")
        tables
      ≡ (saved, record { configs = rows; content = db }))
    × PickedFor name_le parse marshal "https://s.example" unmarshal top_keys
        (pos 2)
        (pos 9)
        group_id
        provider_id
        (pos 0)
        (ok "{}")
        tables
        draft
        c
        rows
    × ((sub : Subscriber)
        → Rendered name_le parse marshal "https://s.example" group_id provider_id c draft before db
            sub)
config_save-Rendered_example =
    config_save-Rendered name_le parse marshal "https://s.example" unmarshal top_keys (pos 2)
      (pos 9) group_id provider_id (pos 0) (ok "{}") tables draft group_id-Increasing
      provider_id-Increasing (omega arith, tt) real (inl refl) checked_runs.0
      (tt, (((inl refl), (tt, tt)), tt), (tt, tt))

-- A user without a custom config.
unscoped_run :
    config_save unmarshal top_keys (pos 2) (pos 9) group_id provider_id (pos 8) (ok "{}") tables
    ≡ (bad_request "The user has no custom config", tables)
unfolding config_save
unscoped_run = rw (checked_runs.0) refl

abbrev accepted : Reply String × Tables
accepted =
    config_save unmarshal top_keys (pos 2) (pos 9) group_id provider_id (pos 5) (ok "{}") tables
