-- ===== src/Render/Rules.antt =====
-- internal/mihomo/render/rules.go: the rule lines of the document.
pub mod Integrity
use subgen.Prelude.Int.{ℤ}
use subgen.Prelude.Text.{concat, join}
use subgen.Prelude.{
  String, Bool, true, false, List, [], ◌∷◌, ◌++◌, Option, none, some, if◌then◌else◌,
}
use subgen.Mihomo.RuleType
use subgen.Mihomo.RuleType.{RuleType}
use subgen.Mihomo.PolicyRef.{PolicyRef, is_inbound}
use subgen.Mihomo.Draft.{is_true}
use subgen.Mihomo.RoutingRule.{RoutingFields, RoutingRule, rule, RoutingRules, nil, cons}
use subgen.Render.Value.{
  LogEvent, rule_no_target, target_unresolved, no_provider_id, provider_unresolved,
}
use subgen.Render.Resolver.{EntityNameResolver, Names, resolve, lookup_id}

-- TYPE,VALUE
abbrev pub type_and : RuleType → String → String
type_and t v = concat (RuleType.to_string t ∷ "," ∷ v ∷ [])

abbrev pub named : RuleType → Option String → Option String
named t none = none
named t (some name) = some (type_and t name)

abbrev pub valued : RuleType → Option String → String
valued t none = RuleType.to_string t
valued t (some v) = type_and t v

abbrev pub logical : RuleType → Option (List String) → Option String
logical t none = none
logical t (some parts) = some (concat (RuleType.to_string t ∷ ",(" ∷ join "," parts ∷ ")" ∷ []))

-- One more part, unless some part has failed.
abbrev pub with_part : Option String → Option (List String) → Option (List String)
with_part none parts = none
with_part (some s) none = none
with_part (some s) (some parts) = some (concat ("(" ∷ s ∷ ")" ∷ []) ∷ parts)

unfoldable mutual
  unfolding RuleType.is_logical RuleType.takes_provider RuleType.to_string concat join

  -- renderMatcher: none where it returns false.
  pub render_matcher : RoutingRule → EntityNameResolver → Option String
  render_matcher (rule f cs) res =
      let parts = render_parts cs res in
      if RuleType.is_logical f.type
      then logical f.type parts
      else if RuleType.takes_provider f.type
      then named f.type (lookup_id f.provider_id res.provider_name)
      else some (valued f.type f.value)

  -- The loop over the children, which ends at the first that fails.
  pub render_parts : RoutingRules → EntityNameResolver → Option (List String)
  render_parts nil res = some []
  render_parts (cons c cs) res =
      let rest = render_parts cs res in with_part (render_matcher c res) rest

-- The events for the provider id of a RULE-SET and the name that it resolves to.
abbrev pub log_provider : RuleType → Option ℤ → Option String → List LogEvent
log_provider t none name = no_provider_id t ∷ []
log_provider t (some id) none = provider_unresolved id ∷ []
log_provider t (some id) (some name) = []

-- The events of a part, and those of the parts after it if it does not fail.
abbrev pub log_part : Option String → List LogEvent → List LogEvent → List LogEvent
log_part none log rest = log
log_part (some s) log rest = log ++ rest

unfoldable mutual
  unfolding render_matcher

  -- The events that renderMatcher logs.
  pub matcher_log : RoutingRule → EntityNameResolver → List LogEvent
  matcher_log (rule f cs) res =
      let below = parts_log cs res in
      if RuleType.is_logical f.type
      then below
      else if RuleType.takes_provider f.type
      then log_provider f.type f.provider_id (lookup_id f.provider_id res.provider_name)
      else []

  pub parts_log : RoutingRules → EntityNameResolver → List LogEvent
  parts_log nil res = []
  parts_log (cons c cs) res =
      let rest = parts_log cs res in log_part (render_matcher c res) (matcher_log c res) rest

abbrev pub suffix : Option Bool → String
suffix no_resolve = if is_true no_resolve then ",no-resolve" else ""

abbrev pub line_of : RoutingFields → Option String → Option String → Option String
line_of f none matcher = none
line_of f (some target) none = none
line_of f (some target) (some matcher) =
    some (concat (matcher ∷ "," ∷ target ∷ suffix f.no_resolve ∷ []))

abbrev pub resolve_target : EntityNameResolver → Option PolicyRef → Option String
resolve_target res none = none
resolve_target res (some target) = resolve res target

-- The body of the loop: the line of a top-level rule, or none where it is dropped.
unfoldable pub rule_line : EntityNameResolver → RoutingRule → Option String
unfolding render_matcher
rule_line res (rule f cs) = line_of f (resolve_target res f.target) (render_matcher (rule f cs) res)

abbrev pub log_line :
    RoutingFields → Option PolicyRef → Option String → List LogEvent → List LogEvent
log_line f none name below = rule_no_target f.type ∷ []
log_line f (some target) none below =
    if is_inbound target.kind then [] else target_unresolved f.type target.kind ∷ []
log_line f (some target) (some name) below = below

-- The events that the body of the loop logs.
unfoldable pub line_log : EntityNameResolver → RoutingRule → List LogEvent
unfolding matcher_log
line_log res (rule f cs) =
    log_line f f.target (resolve_target res f.target) (matcher_log (rule f cs) res)

abbrev pub keep_line : Option String → List String → List String
keep_line none lines = lines
keep_line (some line) lines = line ∷ lines

-- buildRules: the lines, and the events logged.
unfoldable pub build_rules : RoutingRules → EntityNameResolver → List String
unfolding rule_line
build_rules nil res = []
build_rules (cons r rs) res = keep_line (rule_line res r) (build_rules rs res)

unfoldable pub rules_log : RoutingRules → EntityNameResolver → List LogEvent
unfolding line_log
rules_log nil res = []
rules_log (cons r rs) res = line_log res r ++ rules_log rs res
