-- ===== src/Tests/Documents.antt =====
-- A small stored config, and its document for two subscribers.
use subgen.Prelude.Int.{pos}
use subgen.Prelude.Lists.{All}
use subgen.Prelude.Maps.{lookup, insert}
use subgen.Prelude.{ℕ, ◌≡◌, ◌↔◌, refl, String, true, List, [], ◌∷◌, map, none, some, inl}
use subgen.Mihomo.RuleType.{RuleType}
use subgen.Mihomo.PolicyRef.{PolicyKind, PolicyRef, is_inbound}
use subgen.Mihomo.ProxyGroup.{ProxyGroupType, ProxyGroup, RuleProvider}
use subgen.Mihomo.RoutingRule.{RoutingFields, rule, RoutingRules, nil, cons}
use subgen.Entity.Fleet.{Proxy, Subscriber, hysteria2}
use subgen.Render.Resolver.{new_entity_name_resolver, resolve, lookup_id}
use subgen.Render.Resolver.Sound.{IsPolicyName}
use subgen.Render.Groups.{build_groups, groups_log}
use subgen.Render.Groups.Integrity.{AreEntries, build_groups_integrity}
use subgen.Render.Rules.{build_rules, rules_log, rule_line}
use subgen.Render.Rules.Integrity.{IsLine, build_rules_integrity}
use subgen.Render.Resolver.Lacks.{Lacks}
use subgen.Render.Consistent.{consistent_logs_nothing, consistent_drops_inbounds}
use subgen.Render.Providers.{rule_providers}
use subgen.Render.Proxies.{proxy_to_map}
use subgen.Render.Document.{Options, entries, lines, document}
use subgen.Render.Document.Sections.{Put, document_sections}

abbrev node : ℕ → String → Proxy
node id name = record {
  name = name;
  inbound_id = pos id;
  protocol = hysteria2 (record {
    server = "vpn.example";
    port = pos 443;
    password = "secret";
    obfs = "";
    obfs_password = "";
    sni = "vpn.example";
    up = "";
    down = "";
  });
}

abbrev subscriber : List Proxy → Subscriber
subscriber proxies = record {
  sub_id = "s1";
  emails = [];
  proxies = proxies;
  up = pos 0;
  down = pos 0;
  total = pos 0;
  expiry = pos 0;
}

-- One subscriber has inbound 7, the other has not.
abbrev with_seven : Subscriber
with_seven = subscriber (node 7 "RU1-force" ∷ [])

abbrev without_seven : Subscriber
without_seven = subscriber []

abbrev direct_ref : PolicyRef
direct_ref = record { kind = PolicyKind.direct; inbound_id = none; group_id = none }

abbrev seven_ref : PolicyRef
seven_ref = record { kind = PolicyKind.inbound; inbound_id = some (pos 7); group_id = none }

abbrev group_ref : PolicyRef
group_ref = record { kind = PolicyKind.group; inbound_id = none; group_id = some (pos 31) }

abbrev groups : List ProxyGroup
groups =
    record {
      id = pos 31;
      position = pos 0;
      name = "Auto";
      type = ProxyGroupType.url_test;
      url = "http://probe";
      interval = some (pos 300);
      tolerance = none;
      lazy = some true;
      members = seven_ref ∷ [];
    }
    ∷ []

abbrev providers : List RuleProvider
providers =
    record {
      id = pos 5;
      name = "ads";
      behavior = "domain";
      format = "mrs";
      mirror = true;
      url = "http://upstream/ads";
      interval = pos 86400;
      mirror_interval = pos 0;
    }
    ∷ []

abbrev ads : RoutingFields
ads = record {
  id = pos 1;
  position = pos 0;
  type = RuleType.rule_set;
  value = none;
  provider_id = some (pos 5);
  no_resolve = some true;
  target = some group_ref;
}

abbrev video : RoutingFields
video = record {
  id = pos 2;
  position = pos 1;
  type = RuleType.domain;
  value = some "video.example";
  provider_id = none;
  no_resolve = none;
  target = some seven_ref;
}

abbrev rules : RoutingRules
rules = cons (rule ads nil) (cons (rule video nil) nil)

lines_run :
    (build_rules rules (new_entity_name_resolver with_seven groups providers)
      ≡ "RULE-SET,ads,Auto,no-resolve" ∷ "DOMAIN,video.example,RU1-force" ∷ [])
    × (build_rules rules (new_entity_name_resolver without_seven groups providers)
        ≡ "RULE-SET,ads,Auto,no-resolve" ∷ [])
unfolding build_rules new_entity_name_resolver resolve lookup_id lookup insert
lines_run = (refl, refl)

build_groups_integrity_example :
    AreEntries without_seven groups groups
      (build_groups groups (new_entity_name_resolver without_seven groups providers))
build_groups_integrity_example = build_groups_integrity without_seven groups providers

build_rules_integrity_example :
    All
      (IsLine
        (new_entity_name_resolver with_seven groups providers)
        (IsPolicyName with_seven groups))
      (build_rules rules (new_entity_name_resolver with_seven groups providers))
build_rules_integrity_example = build_rules_integrity with_seven groups providers rules

consistent_logs_nothing_example :
    (groups_log groups (new_entity_name_resolver without_seven groups providers) ≡ [])
    × (rules_log rules (new_entity_name_resolver without_seven groups providers) ≡ [])
consistent_logs_nothing_example =
    consistent_logs_nothing without_seven groups providers rules ((tt, tt), tt)
      ((inl refl, (inl refl, tt)), ((tt, (tt, tt)), tt))

consistent_drops_inbounds_example :
    (rule_line (new_entity_name_resolver without_seven groups providers) (rule video nil) ≡ none)
    ↔ ((is_inbound PolicyKind.inbound ≡ true) × Lacks without_seven seven_ref)
consistent_drops_inbounds_example =
    consistent_drops_inbounds without_seven groups providers video nil seven_ref refl (tt, (tt, tt))

abbrev options : Options
options = record {
  base_yaml = "";
  rules = rules;
  groups = groups;
  providers = providers;
  public_base = "https://sub.example/";
}

abbrev parsed : List (String × String)
parsed = ("dns", "enabled") ∷ ("rules", "smuggled") ∷ []

document_sections_example :
    Put parsed
      (rule_providers providers "https://sub.example/")
      (lines (build_rules rules (new_entity_name_resolver with_seven groups providers)))
      (entries (build_groups groups (new_entity_name_resolver with_seven groups providers)))
      (entries (map proxy_to_map (node 7 "RU1-force" ∷ [])))
      (document parsed with_seven options)
document_sections_example = document_sections parsed with_seven options
