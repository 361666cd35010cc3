-- ===== src/Render/Resolver.antt =====
-- internal/mihomo/render/policy.go: names for typed references, for one subscriber.
pub mod Sound
pub mod Lacks
use subgen.Prelude.Int.{ℤ, pos, int_eqb, int_eq}
use subgen.Prelude.Maps.{lookup, insert}
use subgen.Prelude.{String, Bool, List, [], ◌∷◌, Option, none, some, if◌then◌else◌, ◌==◌}
use subgen.Mihomo.PolicyRef.{PolicyKind, PolicyRef}
use subgen.Mihomo.ProxyGroup.{ProxyGroup, RuleProvider}
use subgen.Entity.Fleet.{Proxy, Subscriber}

-- map[int64]string
abbrev pub Names : Type 0
Names = List (ℤ × String)

pub record EntityNameResolver : Type 0 where
  pub sub_id : String
  pub inbound_name : Names
  pub group_name : Names
  pub provider_name : Names

unfoldable pub index_inbounds : List Proxy → Names → Names
index_inbounds [] names = names
index_inbounds (p ∷ ps) names =
    index_inbounds ps (if p.inbound_id == pos 0 then names else insert p.inbound_id p.name names)

unfoldable pub index_groups : List ProxyGroup → Names → Names
index_groups [] names = names
index_groups (g ∷ gs) names = index_groups gs (insert g.id g.name names)

unfoldable pub index_providers : List RuleProvider → Names → Names
index_providers [] names = names
index_providers (p ∷ ps) names = index_providers ps (insert p.id p.name names)

-- newEntityNameResolver
unfoldable pub new_entity_name_resolver :
    Subscriber → List ProxyGroup → List RuleProvider → EntityNameResolver
unfolding index_inbounds index_groups index_providers
new_entity_name_resolver sub groups providers = record {
  sub_id = sub.sub_id;
  inbound_name = index_inbounds sub.proxies [];
  group_name = index_groups groups [];
  provider_name = index_providers providers [];
}

-- The lookup of an optional id.
unfoldable pub lookup_id : Option ℤ → Names → Option String
lookup_id none names = none
lookup_id (some id) names = lookup id names

unfoldable pub resolve_kind : EntityNameResolver → PolicyKind → PolicyRef → Option String
resolve_kind r PolicyKind.direct ref = some "DIRECT"
resolve_kind r PolicyKind.reject ref = some "REJECT"
resolve_kind r PolicyKind.reject_drop ref = some "REJECT-DROP"
resolve_kind r PolicyKind.reject_no_drop ref = some "REJECT-NO-DROP"
resolve_kind r PolicyKind.pass ref = some "PASS"
resolve_kind r PolicyKind.inbound ref = lookup_id ref.inbound_id r.inbound_name
resolve_kind r PolicyKind.group ref = lookup_id ref.group_id r.group_name
resolve_kind r (PolicyKind.unknown s) ref = none

-- resolve
unfoldable pub resolve : EntityNameResolver → PolicyRef → Option String
unfolding resolve_kind
resolve r ref = resolve_kind r ref.kind ref
