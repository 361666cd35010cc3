-- ===== src/Mihomo/Draft.antt =====
-- internal/mihomo/draft.go: the config as it is saved, with references by array index, and the
-- checks that do not depend on a node's position. A Go pointer is an `Option`.
use subgen.Prelude.Int.{ℤ}
use subgen.Prelude.{
  ℕ, suc, String, Bool, true, false, ◌&&◌, ◌||◌, not, List, [], ◌∷◌, Option, none, some, ◌>>◌,
  reject_if, ◌==◌, string_eq, ltb, if◌then◌else◌,
}
use subgen.Mihomo.Errors.{MihomoError, Check}
use subgen.Mihomo.RuleType
use subgen.Mihomo.RuleType.{RuleType}
use subgen.Mihomo.PolicyRef.{PolicyKind, valid_kind, is_inbound, is_group, is_set, differ}
use subgen.Mihomo.ProxyGroup
use subgen.Mihomo.ProxyGroup.{ProxyGroupType, RuleProvider, Profile}

pub record RefDraft : Type 0 where
  pub kind : PolicyKind
  pub inbound_id : Option ℤ
  pub group_idx : Option ℤ

-- RefDraft.Valid()
unfoldable pub valid_ref : RefDraft → Check
unfolding valid_kind
valid_ref r = do
  reject_if (not (valid_kind r.kind)) MihomoError.bad_ref
  reject_if (differ (is_inbound r.kind) (is_set r.inbound_id)) MihomoError.bad_ref
  reject_if (differ (is_group r.kind) (is_set r.group_idx)) MihomoError.bad_ref

-- The fields of a RuleDraft but for its children.
pub record RuleFields : Type 0 where
  pub type : RuleType
  pub value : Option String
  pub provider_idx : Option ℤ
  pub no_resolve : Option Bool
  pub target : Option RefDraft

mutual
  pub data RuleDraft : Type 0 where
    rule : RuleFields → RuleDrafts → RuleDraft

  -- []RuleDraft
  pub data RuleDrafts : Type 0 where
    nil : RuleDrafts
    cons : RuleDraft → RuleDrafts → RuleDrafts

abbrev pub fields : RuleDraft → RuleFields
fields (rule f cs) = f

abbrev pub children : RuleDraft → RuleDrafts
children (rule f cs) = cs

abbrev pub length : RuleDrafts → ℕ
length nil = 0
length (cons r rs) = suc (length rs)

-- value == nil || *value == ""
abbrev pub no_text : Option String → Bool
no_text none = true
no_text (some s) = s == ""

-- b != nil && *b
abbrev pub is_true : Option Bool → Bool
is_true none = false
is_true (some b) = b

-- The switch of RuleDraft.Valid(): the payload that the type takes.
unfoldable pub valid_payload : RuleFields → Check
unfolding RuleType.is_logical RuleType.is_match RuleType.takes_provider
valid_payload f =
    if RuleType.is_logical f.type
    then reject_if (is_set f.value || is_set f.provider_idx) MihomoError.rule_payload_not_allowed
    else if RuleType.is_match f.type
    then reject_if (is_set f.value || is_set f.provider_idx) MihomoError.rule_payload_not_allowed
    else if RuleType.takes_provider f.type
    then (do
      reject_if (is_set f.value) MihomoError.rule_payload_not_allowed
      reject_if (not (is_set f.provider_idx)) MihomoError.provider_ref_range)
    else (do
      reject_if (is_set f.provider_idx) MihomoError.rule_payload_not_allowed
      reject_if (no_text f.value) MihomoError.rule_value_required)

-- RuleDraft.Valid()
unfoldable pub valid_rule : RuleDraft → Check
unfolding valid_payload RuleType.valid RuleType.is_logical RuleType.supports_no_resolve
valid_rule (rule f cs) = do
  reject_if (not (RuleType.valid f.type)) MihomoError.unknown_rule_type
  valid_payload f
  reject_if (ltb 0 (length cs) && not (RuleType.is_logical f.type)) MihomoError.children_not_allowed
  reject_if (is_true f.no_resolve && not (RuleType.supports_no_resolve f.type))
      MihomoError.no_resolve_unsupported

pub record GroupDraft : Type 0 where
  pub name : String
  pub type : ProxyGroupType
  pub url : String
  pub interval : Option ℤ
  pub tolerance : Option ℤ
  pub lazy : Option Bool
  pub members : List RefDraft

abbrev pub is_empty {ℓ} : {A : Type ℓ} → List A → Bool
is_empty [] = true
is_empty (x ∷ xs) = false

-- GroupDraft.Valid()
unfoldable pub valid_group : GroupDraft → Check
unfolding ProxyGroup.valid ProxyGroup.uses_health_check ProxyGroup.uses_tolerance
valid_group g = do
  reject_if (g.name == "") MihomoError.group_name_empty
  reject_if (not (ProxyGroup.valid g.type)) MihomoError.group_unknown_type
  reject_if (is_empty g.members) MihomoError.group_no_members
  reject_if
      (not (ProxyGroup.uses_health_check g.type)
        && (not (g.url == "") || is_set g.interval || is_set g.lazy))
      MihomoError.group_field_not_allowed
  reject_if (not (ProxyGroup.uses_tolerance g.type) && is_set g.tolerance)
      MihomoError.group_field_not_allowed

pub record ConfigDraft : Type 0 where
  pub groups : List GroupDraft
  pub rules : RuleDrafts
  pub providers : List RuleProvider
  pub base_yaml : String
  pub profile : Profile
