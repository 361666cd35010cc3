-- ===== src/Tests/Drafts.antt =====
-- A small draft: what validation and the search for cycles say of it.
use subgen.Prelude.Int.{pos}
use subgen.Prelude.{ℕ, ◌≡◌, ◌≢◌, ◌↔◌, refl, String, true, List, [], ◌∷◌, none, some, ok, err}
use subgen.Mihomo.Errors.{MihomoError}
use subgen.Mihomo.RuleType
use subgen.Mihomo.RuleType.{RuleType}
use subgen.Mihomo.PolicyRef.{PolicyKind}
use subgen.Mihomo.ProxyGroup.{ProxyGroupType}
use subgen.Mihomo.Draft.{
  RefDraft, RuleFields, rule, RuleDrafts, nil, cons, GroupDraft, valid_group, valid_rule,
}
use subgen.Mihomo.Shape.{RulesShape}
use subgen.Mihomo.Validate.{
  validate_routing_rules, validate_rule, validate_target, validate_ref, validate_child,
  validate_arity,
}
use subgen.Mihomo.Validate.Accepts.{validate_routing_rules_iff}
use subgen.Mihomo.Groups.{validate_proxy_groups}
use subgen.Mihomo.Groups.Accepts.{GroupsShape, validate_proxy_groups_iff}
use subgen.Mihomo.Cycle.{cyclic_groups, search_groups}
use subgen.Mihomo.Cycle.Graph.{Reach}
use subgen.Mihomo.Cycle.Decides.{cyclic_groups-decides, search_groups-total}

abbrev direct_ref : RefDraft
direct_ref = record { kind = PolicyKind.direct; inbound_id = none; group_idx = none }

abbrev group_ref : ℕ → RefDraft
group_ref i = record { kind = PolicyKind.group; inbound_id = none; group_idx = some (pos i) }

abbrev inbound_ref : ℕ → RefDraft
inbound_ref i = record { kind = PolicyKind.inbound; inbound_id = some (pos i); group_idx = none }

abbrev group : String → List RefDraft → GroupDraft
group name members = record {
  name = name;
  type = ProxyGroupType.select;
  url = "";
  interval = none;
  tolerance = none;
  lazy = none;
  members = members;
}

abbrev pub chain : List GroupDraft
chain =
    group "Auto" (group_ref 1 ∷ direct_ref ∷ [])
    ∷ group "Video" (group_ref 2 ∷ inbound_ref 7 ∷ [])
    ∷ group "Home" (direct_ref ∷ [])
    ∷ []

abbrev ring : List GroupDraft
ring =
    group "Auto" (group_ref 1 ∷ [])
    ∷ group "Video" (group_ref 2 ∷ [])
    ∷ group "Home" (direct_ref ∷ group_ref 1 ∷ [])
    ∷ []

abbrev leaf : RuleType → String → RuleFields
leaf t v = record {
  type = t;
  value = some v;
  provider_idx = none;
  no_resolve = none;
  target = none;
}

abbrev from_provider : ℕ → RuleFields
from_provider i = record {
  type = RuleType.rule_set;
  value = none;
  provider_idx = some (pos i);
  no_resolve = none;
  target = none;
}

abbrev bare : RuleType → RefDraft → RuleFields
bare t ref = record {
  type = t;
  value = none;
  provider_idx = none;
  no_resolve = none;
  target = some ref;
}

abbrev pub rules : RuleDrafts
rules =
    cons
      (rule
        (record (leaf RuleType.ip_cidr "10.0.0.0/8") {
          no_resolve = some true;
          target = some direct_ref;
        })
        nil)
      (cons
        (rule (bare RuleType.and (group_ref 0)) (
          cons (rule (leaf RuleType.domain "a.example") nil) (
            cons
              (rule (record (bare RuleType.not direct_ref) { target = none })
                (cons (rule (from_provider 0) nil) nil))
              nil)))
        (cons (rule (bare RuleType.match_all (group_ref 2)) nil) nil))

validate_groups_run :
    (validate_proxy_groups chain ≡ ok tt)
    × (validate_proxy_groups ring ≡ err MihomoError.group_cycle)
    × (validate_proxy_groups (group "A" [] ∷ []) ≡ err MihomoError.group_no_members)
    × (validate_proxy_groups (group "A" (direct_ref ∷ []) ∷ group "A" (direct_ref ∷ []) ∷ [])
        ≡ err MihomoError.group_name_taken)
unfolding validate_proxy_groups cyclic_groups valid_group validate_ref
validate_groups_run = (refl, refl, refl, refl)

validate_rules_run :
    (validate_routing_rules rules 3 1 ≡ ok tt)
    × (validate_routing_rules rules 2 1 ≡ err MihomoError.group_ref_range)
    × (validate_routing_rules rules 3 0 ≡ err MihomoError.provider_ref_range)
unfolding validate_routing_rules validate_rule valid_rule validate_target validate_ref
    validate_child validate_arity RuleType.is_not
validate_rules_run = (refl, refl, refl)

cyclic_groups-decides_example : (cyclic_groups ring ≡ true) ↔ ((i : ℕ) × Reach ring i i)
cyclic_groups-decides_example = cyclic_groups-decides ring

search_groups-total_example : search_groups ring ≢ none
search_groups-total_example = search_groups-total ring

validate_proxy_groups_iff_example :
    (validate_proxy_groups chain ≡ ok tt) ↔ (GroupsShape [] chain 3 × ((i : ℕ) → ¬ Reach chain i i))
validate_proxy_groups_iff_example = validate_proxy_groups_iff chain

validate_routing_rules_iff_example :
    (validate_routing_rules rules 3 1 ≡ ok tt) ↔ RulesShape rules 3 1
validate_routing_rules_iff_example = validate_routing_rules_iff rules 3 1
