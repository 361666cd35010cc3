-- ===== src/Mihomo/Decode.antt =====
-- internal/mihomo/decode.go: from the JSON request to a draft. The request is the value that
-- json.Unmarshal fills; unmarshalling itself is a parameter.
use subgen.Prelude.Int.{ℤ}
use subgen.Prelude.Text.{trim_space}
use subgen.Prelude.{
  String, Bool, List, map, Option, none, some, Result, ok, ◌>>=◌, ◌==◌, string_eq, if◌then◌else◌,
}
use subgen.Mihomo.RuleType
use subgen.Mihomo.PolicyRef
use subgen.Mihomo.PolicyRef.{PolicyKind}
use subgen.Mihomo.ProxyGroup
use subgen.Mihomo.ProxyGroup.{RuleProvider}
use subgen.Mihomo.Draft.{RefDraft, RuleFields, RuleDraft, rule, RuleDrafts, GroupDraft, ConfigDraft}

pub record PolicyRefDto : Type 0 where
  pub kind : String
  pub inbound_id : Option ℤ
  pub group_idx : Option ℤ

-- The fields of a ruleDTO but for its children.
pub record RuleDtoFields : Type 0 where
  pub type : String
  pub value : Option String
  pub provider_idx : Option ℤ
  pub no_resolve : Option Bool
  pub target : Option PolicyRefDto

mutual
  pub data RuleDto : Type 0 where
    rule_dto : RuleDtoFields → RuleDtos → RuleDto

  -- []ruleDTO
  pub data RuleDtos : Type 0 where
    no_dto : RuleDtos
    more_dto : RuleDto → RuleDtos → RuleDtos

pub record GroupDto : Type 0 where
  pub name : String
  pub type : String
  pub url : String
  pub interval : Option ℤ
  pub tolerance : Option ℤ
  pub lazy : Option Bool
  pub members : List PolicyRefDto

pub record ProviderDto : Type 0 where
  pub name : String
  pub behavior : String
  pub format : String
  pub url : String
  pub interval : ℤ
  pub mirror : Bool
  pub mirror_interval : ℤ

pub record ConfigDto : Type 0 where
  pub base_yaml : String
  pub groups : List GroupDto
  pub rules : RuleDtos
  pub providers : List ProviderDto
  pub profile_title : String
  pub filename : String
  pub profile_update_interval : ℤ

ref_of_kind : PolicyKind → PolicyRefDto → RefDraft
ref_of_kind PolicyKind.inbound d = record {
  kind = PolicyKind.inbound;
  inbound_id = d.inbound_id;
  group_idx = none;
}
ref_of_kind PolicyKind.group d = record {
  kind = PolicyKind.group;
  inbound_id = none;
  group_idx = d.group_idx;
}
ref_of_kind kind d = record { kind = kind; inbound_id = none; group_idx = none }

-- refFromDTO
unfoldable pub ref_from_dto : PolicyRefDto → RefDraft
unfolding ref_of_kind
ref_from_dto d = ref_of_kind (PolicyRef.of_string (trim_space d.kind)) d

-- trimPtr
unfoldable pub trim_ptr : Option String → Option String
trim_ptr none = none
trim_ptr (some s) = let v = trim_space s in if v == "" then none else some v

target_from_dto : Option PolicyRefDto → Option RefDraft
target_from_dto none = none
target_from_dto (some t) = some (ref_from_dto t)

fields_from_dto : RuleDtoFields → RuleFields
unfolding target_from_dto
fields_from_dto ru = record {
  type = RuleType.of_string (trim_space ru.type);
  value = trim_ptr ru.value;
  provider_idx = ru.provider_idx;
  no_resolve = ru.no_resolve;
  target = target_from_dto ru.target;
}

-- rulesFromDTO; a nil slice and an empty one are one value here.
unfoldable mutual
  unfolding fields_from_dto

  rule_from_dto : RuleDto → RuleDraft
  rule_from_dto (rule_dto ru children) = rule (fields_from_dto ru) (rules_from_dto children)

  pub rules_from_dto : RuleDtos → RuleDrafts
  rules_from_dto no_dto = RuleDrafts.nil
  rules_from_dto (more_dto ru rest) = RuleDrafts.cons (rule_from_dto ru) (rules_from_dto rest)

group_from_dto : GroupDto → GroupDraft
group_from_dto g = record {
  name = trim_space g.name;
  type = ProxyGroup.of_string (trim_space g.type);
  url = trim_space g.url;
  interval = g.interval;
  tolerance = g.tolerance;
  lazy = g.lazy;
  members = map ref_from_dto g.members;
}

-- The id is not yet assigned: Go's zero value.
provider_from_dto : ProviderDto → RuleProvider
provider_from_dto p = record {
  id = ℤ.pos 0;
  name = trim_space p.name;
  behavior = p.behavior;
  format = p.format;
  mirror = p.mirror;
  url = trim_space p.url;
  interval = p.interval;
  mirror_interval = p.mirror_interval;
}

unfoldable pub draft_from_dto : ConfigDto → ConfigDraft
unfolding group_from_dto provider_from_dto
draft_from_dto dto = record {
  groups = map group_from_dto dto.groups;
  rules = rules_from_dto dto.rules;
  providers = map provider_from_dto dto.providers;
  base_yaml = dto.base_yaml;
  profile = record {
    title = trim_space dto.profile_title;
    filename = trim_space dto.filename;
    update_interval = dto.profile_update_interval;
  };
}

-- DecodeConfig, for `unmarshal`, which is json.Unmarshal into a configDTO.
unfoldable pub decode_config {ℓ} :
    {E : Type ℓ} → (String → Result E ConfigDto) → String → Result E ConfigDraft
unfolding draft_from_dto
decode_config unmarshal raw = do dto ← unmarshal raw; ok (draft_from_dto dto)
