-- ===== src/ConfigSave/Accepted.antt =====
-- internal/handlers/config_save: which requests are saved.
use subgen.Prelude.Int.{ℤ, pos, int_eq}
use subgen.Prelude.Lists
use subgen.Prelude.Lists.{All, In}
use subgen.Prelude.{
  ℕ, ◌≡◌, ◌≢◌, subst, String, List, [], Option, some, Result, ok, err, >>=-eq-ok, string_eq,
}
use subgen.Mihomo.Draft.{ConfigDraft}
use subgen.Mihomo.Decode.{ConfigDto, decode_config}
use subgen.Mihomo.Shape.{RulesShape}
use subgen.Mihomo.Cycle.Graph.{Reach}
use subgen.Mihomo.Groups.{validate_proxy_groups, validate_base_yaml}
use subgen.Mihomo.Groups.Accepts.{GroupsShape, validate_proxy_groups_iff}
use subgen.Mihomo.Validate.{validate_routing_rules, validate_rule_providers, validate_profile}
use subgen.Mihomo.Validate.Accepts.{validate_routing_rules_iff}
use subgen.Store.Save.{save_mihomo_config}
use subgen.Configs
use subgen.Configs.{ConfigRow, user_config_id, base_config_id}
use subgen.ConfigSave.Shapes.{
  BaseShape, ProviderShape, ProfileShape, base-Shape, providers-Shape, profile-Shape,
}
use subgen.ConfigSave.Messages.{SaveError}
use subgen.ConfigSave.{Tables, lift, checked}

lift-ok : {E F A : Type 0} (f : E → F) (r : Result E A) (a : A) → lift f r ≡ ok a → r ≡ ok a
lift-ok f (ok b) a h = cc
lift-ok f (err e) a h = cc

module _ {E : Type 0} (unmarshal : String → Result E ConfigDto)
    (top_keys : String → Option (List String)) where
  -- The request is the JSON of a draft that is well-formed in all its parts.
  abbrev pub Accepted : Result E String → ConfigDraft → Type 0
  Accepted raw draft =
      (json : String) × (raw ≡ ok json)
      × (decode_config unmarshal json ≡ ok draft)
      × BaseShape top_keys draft.base_yaml
      × GroupsShape [] draft.groups (Lists.length draft.groups)
      × ((i : ℕ) → ¬ Reach draft.groups i i)
      × RulesShape draft.rules (Lists.length draft.groups) (Lists.length draft.providers)
      × All ProviderShape draft.providers
      × ProfileShape draft.profile

  pub checked-Accepted :
      (raw : Result E String) (draft : ConfigDraft)
      → checked unmarshal top_keys raw ≡ ok draft
      → Accepted raw draft
  unfolding checked
  checked-Accepted raw draft h =
      let (json, j, h1) = >>=-eq-ok (lift SaveError.codec raw) _ draft h in
      let (d, dec, h2) =
        >>=-eq-ok (lift SaveError.codec (decode_config unmarshal json)) _ draft h1 in
      let (u, base, h3) =
        >>=-eq-ok (lift SaveError.mihomo (validate_base_yaml top_keys d.base_yaml)) _ draft h2 in
      let (u', groups, h4) =
        >>=-eq-ok (lift SaveError.mihomo (validate_proxy_groups d.groups)) _ draft h3 in
      let (u'', rules, h5) =
        >>=-eq-ok
          (lift SaveError.mihomo
            (validate_routing_rules d.rules (Lists.length d.groups) (Lists.length d.providers)))
          _ draft h4 in
      let (v, provs, h6) =
        >>=-eq-ok (lift SaveError.mihomo (validate_rule_providers d.providers)) _ draft h5 in
      let (v', prof, h7) =
        >>=-eq-ok (lift SaveError.mihomo (validate_profile d.profile)) _ draft h6 in
      let (shape, acyclic) =
        (validate_proxy_groups_iff d.groups).0 (lift-ok SaveError.mihomo _ tt groups) in
      let same : d ≡ draft = cc in
      subst (Accepted raw) same (
        json,
        lift-ok SaveError.codec raw json j,
        lift-ok SaveError.codec (decode_config unmarshal json) d dec,
        base-Shape top_keys d.base_yaml (lift-ok SaveError.mihomo _ tt base),
        shape,
        acyclic,
        (validate_routing_rules_iff d.rules (Lists.length d.groups) (Lists.length d.providers)).0
            (lift-ok SaveError.mihomo _ tt rules),
        providers-Shape d.providers (lift-ok SaveError.mihomo _ tt provs),
        profile-Shape d.profile (lift-ok SaveError.mihomo _ tt prof),
      )

  module _ (new_config now : ℤ) (new_group new_provider : ℕ → ℕ) (user_id : ℤ) (t : Tables) where
    -- The config of the scope, for the tables after the request: the base config, or the custom config that
    -- the user had.
    abbrev pub Scope : ℤ → List ConfigRow → Type 0
    Scope c rows =
        (user_id ≡ pos 0 → base_config_id Configs.mihomo rows ≡ some c)
        × (user_id ≢ pos 0 → user_config_id user_id Configs.mihomo t.configs ≡ some c)

    -- The draft is what the config of the scope was replaced by.
    abbrev pub Stored : ConfigDraft → Tables → Type 0
    Stored draft t' =
        (c : ℤ) × Scope c t'.configs
        × (save_mihomo_config new_group new_provider c draft t.content ≡ ok t'.content)
