-- ===== src/Render/Document.antt =====
-- internal/mihomo/render/render.go: `Render`. The YAML library is a parameter: what it parses the
-- base text to, and how it writes a document.
pub mod Sections
use subgen.Prelude.Int.{ℤ}
use subgen.Prelude.Maps.{lookup, insert}
use subgen.Prelude.Text.{trim_space}
use subgen.Prelude.{
  String, Bool, List, [], ◌∷◌, map, Option, none, some, Result, ok, err, ◌>>=◌, ◌==◌, string_eq,
  if◌then◌else◌,
}
use subgen.Mihomo.ProxyGroup.{ProxyGroup, RuleProvider, generated_keys}
use subgen.Mihomo.RoutingRule.{RoutingRules}
use subgen.Mihomo.Validate.{slice_set}
use subgen.Entity.Fleet.{Subscriber}
use subgen.Render.Value.{Fields}
use subgen.Render.Resolver.{EntityNameResolver, new_entity_name_resolver}
use subgen.Render.Groups.{build_groups}
use subgen.Render.Rules.{build_rules}
use subgen.Render.Proxies.{proxy_to_map}
use subgen.Render.Providers.{rule_providers}

pub record Options : Type 0 where
  pub base_yaml : String
  pub rules : RoutingRules
  pub groups : List ProxyGroup
  pub providers : List RuleProvider
  pub public_base : String

-- A value of a top-level key: one that the parser found in the base text, or a generated one.
pub data Section (Y : Type 0) : Type 0 where
  base : Y → Section Y
  entries : List Fields → Section Y
  lines : List String → Section Y
  named : List (String × Fields) → Section Y

module _ {Y : Type 0} where
  without_keys : List String → List (String × Y) → List (String × Section Y)
  without_keys ks [] = []
  without_keys ks ((k, y) ∷ m) =
      let rest = without_keys ks m in if slice_set ks k then rest else (k, base y) ∷ rest

  -- delete(base, k) for the generated keys
  unfoldable pub without_generated : List (String × Y) → List (String × Section Y)
  unfolding without_keys slice_set generated_keys
  without_generated = without_keys generated_keys

  abbrev put_providers :
      Option (List (String × Fields)) → List (String × Section Y) → List (String × Section Y)
  put_providers none doc = doc
  put_providers (some ps) doc = insert "rule-providers" (named ps) doc

  -- The document that is marshalled, for the parsed base.
  unfoldable pub document : List (String × Y) → Subscriber → Options → List (String × Section Y)
  unfolding without_generated new_entity_name_resolver build_groups build_rules insert
  document parsed sub o =
      let res = new_entity_name_resolver sub o.groups o.providers in
      put_providers (rule_providers o.providers o.public_base) (
        insert "rules" (lines (build_rules o.rules res)) (
          insert "proxy-groups" (entries (build_groups o.groups res))
            (insert "proxies" (entries (map proxy_to_map sub.proxies)) (without_generated parsed))))

  -- Render, for yaml.Unmarshal into a map and yaml.Marshal. A base of white space is not parsed.
  unfoldable pub render {ℓ} :
      {E : Type ℓ} {B : Type 0}
      → (String → Result E (List (String × Y)))
      → (List (String × Section Y) → Result E B)
      → Subscriber
      → Options
      → Result E B
  unfolding document
  render unmarshal marshal sub o = do
    parsed ← (if trim_space o.base_yaml == "" then ok [] else unmarshal o.base_yaml)
    marshal (document parsed sub o)
