-- ===== src/Render/Rules/Integrity.antt =====
-- What the rendered rule lines refer to, and which rules are rendered.
use subgen.Prelude.Lists.{All}
use subgen.Prelude.Text.{concat}
use subgen.Prelude.{String, ◌≡◌, refl, List, [], ◌∷◌, Option, none, some}
use subgen.Mihomo.PolicyRef.{PolicyRef}
use subgen.Mihomo.ProxyGroup.{ProxyGroup, RuleProvider}
use subgen.Mihomo.RoutingRule.{RoutingFields, rule, RoutingRules, nil, cons}
use subgen.Entity.Fleet.{Subscriber}
use subgen.Render.Resolver.{EntityNameResolver, new_entity_name_resolver, resolve}
use subgen.Render.Resolver.Sound.{IsPolicyName, resolve_sound}
use subgen.Render.Rules.{
  render_matcher, suffix, line_of, resolve_target, rule_line, keep_line, build_rules,
}

-- How a rendered line came about: the rule, its matcher, and the name of its target.
pub record IsLine (res : EntityNameResolver) (Known : String → Type 0) (line : String)
    : Type 0 where
  pub source : RoutingFields
  pub children : RoutingRules
  pub target : PolicyRef
  pub name : String
  pub matcher : String
  pub has_target : source.target ≡ some target
  pub resolved : resolve res target ≡ some name
  pub known : Known name
  pub matched : render_matcher (rule source children) res ≡ some matcher
  pub shown : line ≡ concat (matcher ∷ "," ∷ name ∷ suffix source.no_resolve ∷ [])

module _ (sub : Subscriber) (groups : List ProxyGroup) (providers : List RuleProvider) where
  abbrev res : EntityNameResolver
  res = new_entity_name_resolver sub groups providers

  rule_line_sound :
      (f : RoutingFields) (cs : RoutingRules) (line : String)
      → rule_line res (rule f cs) ≡ some line
      → IsLine res (IsPolicyName sub groups) line
  unfolding rule_line
  rule_line_sound f cs line h =
      go f.target (resolve_target res f.target) (render_matcher (rule f cs) res) refl refl refl h
    where
      go :
          (t : Option PolicyRef) (o m : Option String)
          → f.target ≡ t
          → resolve_target res t ≡ o
          → render_matcher (rule f cs) res ≡ m
          → line_of f o m ≡ some line
          → IsLine res (IsPolicyName sub groups) line
      go t none m et eo em e = cc
      go t (some n) none et eo em e = cc
      go none (some n) (some m) et eo em e = cc
      go (some t) (some n) (some m) et eo em e = record {
        source = f;
        children = cs;
        target = t;
        name = n;
        matcher = m;
        has_target = et;
        resolved = eo;
        known = resolve_sound sub groups providers t n eo;
        matched = em;
        shown = cc;
      }

  keep_line_sound :
      (o : Option String) (lines : List String)
      → ((line : String) → o ≡ some line → IsLine res (IsPolicyName sub groups) line)
      → All (IsLine res (IsPolicyName sub groups)) lines
      → All (IsLine res (IsPolicyName sub groups)) (keep_line o lines)
  keep_line_sound none lines h rest = rest
  keep_line_sound (some line) lines h rest = (h line refl, rest)

  lines_sound :
      (rules : RoutingRules) → All (IsLine res (IsPolicyName sub groups)) (build_rules rules res)
  unfolding build_rules
  lines_sound nil = tt
  lines_sound (cons (rule f cs) rs) =
      keep_line_sound (rule_line res (rule f cs)) (build_rules rs res) (rule_line_sound f cs)
        (lines_sound rs)

-- Every rule line of a subscriber's document is the matcher of a rule, the name of the rule's
-- target and its no-resolve option, and the name is that of a built-in policy, of a proxy of that
-- subscriber or of a group of the config.
pub build_rules_integrity :
    (sub : Subscriber) (groups : List ProxyGroup) (providers : List RuleProvider)
    (rules : RoutingRules)
    → All
        (IsLine (new_entity_name_resolver sub groups providers) (IsPolicyName sub groups))
        (build_rules rules (new_entity_name_resolver sub groups providers))
build_rules_integrity sub groups providers rules = lines_sound sub groups providers rules
