-- ===== src/Store/Load.antt =====
-- internal/repository/routing: proxy_groups.go, rules.go, rule_providers.go, profile.go, setting.go.
use subgen.Prelude.Int.{ℤ, pos, int_eq}
use subgen.Prelude.Lists.{length}
use subgen.Prelude.Maps.{lookup}
use subgen.Prelude.{
  ℕ, zero, suc, String, Bool, true, false, ◌&&◌, ◌||◌, List, [], ◌∷◌, ◌++◌, map, Option, none, some,
  ◌==◌, nat_eq, string_eq, if◌then◌else◌, leb, nat_eqb,
}
use subgen.Mihomo.PolicyRef.{PolicyKind, PolicyRef}
use subgen.Mihomo.ProxyGroup.{ProxyGroup, RuleProvider, Profile}
use subgen.Mihomo.RoutingRule.{RoutingFields, RoutingRule, rule, RoutingRules, nil, cons}
use subgen.Store.Tables.{
  GroupRow, MemberRow, ProviderRow, RuleRow, Db, select, order_by, null_le, null_lt,
}
use subgen.Store.Save.{of_config, provider_of, rule_of, by_position}

-- A nullable id as a pointer.
abbrev pub id_ptr : Option ℕ → Option ℤ
id_ptr none = none
id_ptr (some id) = some (pos id)

-- v != 0
abbrev pub int_bool : ℕ → Bool
int_bool zero = false
int_bool (suc n) = true

abbrev pub lazy_ptr : Option ℕ → Option Bool
lazy_ptr none = none
lazy_ptr (some v) = some (int_bool v)

-- policyRef
abbrev pub policy_ref : PolicyKind → Option ℤ → Option ℕ → PolicyRef
policy_ref kind inbound group = record {
  kind = kind;
  inbound_id = inbound;
  group_id = id_ptr group;
}

abbrev pub group_of_row : GroupRow → ProxyGroup
group_of_row r = record {
  id = pos r.id;
  position = pos r.position;
  name = r.name;
  type = r.type;
  url = r.url;
  interval = r.interval;
  tolerance = r.tolerance;
  lazy = lazy_ptr r.lazy;
  members = [];
}

abbrev pub ref_of_row : MemberRow → PolicyRef
ref_of_row m = policy_ref m.kind m.inbound_id m.ref_group_id

-- The group of the row gets one more member; a row of no group is passed over.
abbrev pub attach : MemberRow → ProxyGroup → ProxyGroup
attach m g =
    if pos m.group_id == g.id then record g { members = g.members ++ ref_of_row m ∷ [] } else g

-- The loop of loadMembers.
unfoldable pub attach_all : List MemberRow → List ProxyGroup → List ProxyGroup
attach_all [] groups = groups
attach_all (m ∷ ms) groups = attach_all ms (map (attach m) groups)

-- ORDER BY group_id, position
abbrev pub by_group : MemberRow → MemberRow → Bool
by_group a b =
    if nat_eqb a.group_id b.group_id then leb a.position b.position else leb a.group_id b.group_id

-- ProxyGroups
unfoldable pub proxy_groups : Db → ℤ → List ProxyGroup
unfolding select order_by attach_all
proxy_groups db c =
    attach_all (order_by by_group db.members)
      (map group_of_row (order_by by_position (select (of_config c) db.groups)))

abbrev pub no_resolve_ptr : ℕ → Option Bool
no_resolve_ptr zero = none
no_resolve_ptr (suc n) = some true

abbrev pub target_ptr : Option PolicyKind → Option ℤ → Option ℕ → Option PolicyRef
target_ptr none inbound group = none
target_ptr (some kind) inbound group = some (policy_ref kind inbound group)

-- What is scanned from a row.
abbrev pub rule_of_row : RuleRow → RoutingFields
rule_of_row r = record {
  id = pos r.id;
  position = pos r.position;
  type = r.type;
  value = r.value;
  provider_id = id_ptr r.provider_id;
  no_resolve = no_resolve_ptr r.no_resolve;
  target = target_ptr r.target_kind r.inbound_id r.target_group_id;
}

-- ORDER BY parent_id, position
abbrev pub by_parent : RuleRow → RuleRow → Bool
by_parent a b =
    null_lt a.parent_id b.parent_id
    || (null_le a.parent_id b.parent_id && leb a.position b.position)

abbrev pub same_parent : Option ℕ → Option ℕ → Bool
same_parent none none = true
same_parent (some a) (some b) = nat_eqb a b
same_parent _ _ = false

abbrev pub has_parent : Option ℕ → RuleRow → Bool
has_parent p r = same_parent r.parent_id p

-- The trees of the rows, in their order.
unfoldable pub freeze_all : (RuleRow → RoutingRule) → List RuleRow → RoutingRules
freeze_all tree [] = nil
freeze_all tree (r ∷ rs) = cons (tree r) (freeze_all tree rs)

-- `freeze`: a node's children are the rows that were linked to it. The fuel bounds the depth.
unfoldable pub freeze : ℕ → List RuleRow → RuleRow → RoutingRule
unfolding select freeze_all
freeze zero rows r = rule (rule_of_row r) nil
freeze (suc fuel) rows r =
    rule (rule_of_row r) (freeze_all (freeze fuel rows) (select (has_parent (some r.id)) rows))

-- Rules
unfoldable pub rules : Db → ℤ → RoutingRules
unfolding select order_by freeze freeze_all
rules db c =
    let rows = order_by by_parent (select (rule_of c) db.rules) in
    freeze_all (freeze (length rows) rows) (select (has_parent none) rows)

abbrev pub provider_of_row : ProviderRow → RuleProvider
provider_of_row r = record {
  id = pos r.id;
  name = r.name;
  behavior = r.behavior;
  format = r.format;
  mirror = int_bool r.mirror;
  url = r.url;
  interval = r.interval;
  mirror_interval = r.mirror_interval;
}

-- RuleProviders and AllRuleProviders; `name_le` is the order in which the database sorts texts.
unfoldable pub rule_providers : (String → String → Bool) → Db → ℤ → List RuleProvider
unfolding select order_by
rule_providers name_le db c =
    map provider_of_row
      (order_by (λ a b. name_le a.name b.name) (select (provider_of c) db.providers))

unfoldable pub all_rule_providers : (String → String → Bool) → Db → List RuleProvider
unfolding order_by
all_rule_providers name_le db =
    map provider_of_row (order_by (λ a b. name_le a.name b.name) db.providers)

abbrev or_zero_profile : Option Profile → Profile
or_zero_profile none = record { title = ""; filename = ""; update_interval = pos 0 }
or_zero_profile (some p) = p

-- Profile
unfoldable pub profile : Db → ℤ → Profile
unfolding lookup
profile db c = or_zero_profile (lookup c db.profiles)

abbrev or_empty_text : Option String → String
or_empty_text none = ""
or_empty_text (some v) = v

abbrev setting_in : Option (List (String × String)) → String → String
setting_in none key = ""
setting_in (some m) key = or_empty_text (lookup key m)

-- Setting
unfoldable pub setting : Db → ℤ → String → String
unfolding lookup
setting db c key = setting_in (lookup c db.settings) key
