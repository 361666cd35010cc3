-- ===== src/Render/Consistent.antt =====
-- Stored configs whose references are consistent render with nothing logged, and the renderer drops
-- only the rules for inbounds that the subscriber lacks.
use subgen.Prelude.Int.{ℤ, int_eq}
use subgen.Prelude.Lists.{All}
use subgen.Prelude.{
  String, ◌≡◌, ◌↔◌, refl, subst, ◌∙◌, true, false, List, [], ◌∷◌, map, Option, none, some, inl, inr,
  Bool-cases,
}
use subgen.Mihomo.RuleType
use subgen.Mihomo.RuleType.{RuleType}
use subgen.Mihomo.PolicyRef.{PolicyKind, PolicyRef, is_inbound}
use subgen.Mihomo.ProxyGroup.{ProxyGroup, RuleProvider}
use subgen.Mihomo.RoutingRule.{RoutingFields, RoutingRule, rule, RoutingRules, nil, cons}
use subgen.Entity.Fleet.{Subscriber}
use subgen.Render.Value.{LogEvent}
use subgen.Render.Resolver.{
  EntityNameResolver, new_entity_name_resolver, lookup_id, resolve, resolve_kind,
}
use subgen.Render.Resolver.Lacks.{Lacks, resolve-none_iff}
use subgen.Render.Groups.{log_member, member_log, groups_log}
use subgen.Render.Rules.{
  render_matcher, render_parts, matcher_log, parts_log, line_of, resolve_target, rule_line,
  log_line, rules_log, with_part, log_part, log_provider,
}
use subgen.Render.Among.{
  IdAmong, KindAmong, TargetAmong, ProviderAmong, ProvidersAmong, AllProvidersAmong, RuleAmong,
  RulesAmong, MembersAmong, groups_keep, providers_keep,
}

log_member_inbound :
    (group : String) (m : PolicyRef) (o : Option String) (log : List LogEvent)
    → is_inbound m.kind ≡ true
    → log_member group m o log ≡ log
log_member_inbound group m none log h = rw h
log_member_inbound group m (some n) log h = refl

log_line_inbound :
    (f : RoutingFields) (below : List LogEvent) (t : PolicyRef) (o : Option String)
    → is_inbound t.kind ≡ true
    → below ≡ []
    → log_line f (some t) o below ≡ []
log_line_inbound f below t none h e = rw h
log_line_inbound f below t (some n) h e = e

takes_provider_Among :
    (t : RuleType) (id : Option ℤ) (ids : List ℤ)
    → RuleType.takes_provider t ≡ true
    → ProviderAmong t id ids
    → IdAmong id ids
unfolding RuleType.takes_provider
takes_provider_Among RuleType.rule_set id ids e h = h
takes_provider_Among _ id ids e h = cc

log_provider_nil :
    (t : RuleType) (id : Option ℤ) (ids : List ℤ)
    → IdAmong id ids
    → (n : String) → log_provider t id (some n) ≡ []
log_provider_nil t none ids h n = absurd h
log_provider_nil t (some i) ids h n = refl

-- A matcher that is rendered with nothing logged; the same of a list of them.
abbrev NodeTotal : Option String → List LogEvent → Type 0
NodeTotal o log = ((s : String) × (o ≡ some s)) × (log ≡ [])

abbrev PartsTotal : Option (List String) → List LogEvent → Type 0
PartsTotal o log = ((ss : List String) × (o ≡ some ss)) × (log ≡ [])

two_parts :
    (o : Option String) (log : List LogEvent) (os : Option (List String)) (logs : List LogEvent)
    → NodeTotal o log
    → PartsTotal os logs
    → PartsTotal (with_part o os) (log_part o log logs)
two_parts none log os logs h k = cc h.0.1
two_parts (some s) log none logs h k = cc k.0.1
two_parts (some s) log (some ss) logs h k = ((_, refl), rw (h.1, k.1))

line_of_iff :
    (f : RoutingFields) (o m : Option String)
    → ((s : String) × (m ≡ some s))
    → (line_of f o m ≡ none) ↔ (o ≡ none)
line_of_iff f none m h = ((λ e. refl), (λ e. refl))
line_of_iff f (some n) none h = cc (h.1)
line_of_iff f (some n) (some m) h = ((λ e. cc), (λ e. cc))

module _ (sub : Subscriber) (groups : List ProxyGroup) (providers : List RuleProvider) where
  abbrev res : EntityNameResolver
  res = new_entity_name_resolver sub groups providers

  abbrev group_ids : List ℤ
  group_ids = map (λ g. g.id) groups

  abbrev provider_ids : List ℤ
  provider_ids = map (λ p. p.id) providers

  group_found :
      (id : Option ℤ) → IdAmong id group_ids → (n : String) × (lookup_id id res.group_name ≡ some n)
  unfolding lookup_id new_entity_name_resolver
  group_found none h = absurd h
  group_found (some i) h = groups_keep groups [] i (inr h)

  provider_found :
      (id : Option ℤ)
      → IdAmong id provider_ids
      → (n : String) × (lookup_id id res.provider_name ≡ some n)
  unfolding lookup_id new_entity_name_resolver
  provider_found none h = absurd h
  provider_found (some i) h = providers_keep providers [] i (inr h)

  -- Only an inbound can be missing.
  kind_resolves :
      (k : PolicyKind) (ref : PolicyRef)
      → KindAmong k ref group_ids
      → is_inbound k ≡ false
      → (n : String) × (resolve_kind res k ref ≡ some n)
  unfolding resolve_kind
  kind_resolves PolicyKind.group ref h e = group_found ref.group_id h
  kind_resolves PolicyKind.inbound ref h e = cc
  kind_resolves (PolicyKind.unknown s) ref h e = absurd h
  kind_resolves PolicyKind.direct ref h e = ("DIRECT", refl)
  kind_resolves PolicyKind.reject ref h e = ("REJECT", refl)
  kind_resolves PolicyKind.reject_drop ref h e = ("REJECT-DROP", refl)
  kind_resolves PolicyKind.reject_no_drop ref h e = ("REJECT-NO-DROP", refl)
  kind_resolves PolicyKind.pass ref h e = ("PASS", refl)

  resolves :
      (ref : PolicyRef)
      → KindAmong ref.kind ref group_ids
      → is_inbound ref.kind ≡ false
      → (n : String) × (resolve res ref ≡ some n)
  unfolding resolve
  resolves ref h e = kind_resolves ref.kind ref h e

  member_log_nil :
      (name : String) (ms : List PolicyRef)
      → All (λ (m : PolicyRef). KindAmong m.kind m group_ids) ms
      → member_log res name ms ≡ []
  unfolding member_log
  member_log_nil name [] h = refl
  member_log_nil name (m ∷ ms) h = elim (Bool-cases (is_inbound m.kind)) [
    | inl inbound ↦ log_member_inbound name m (resolve res m) _ inbound ∙ member_log_nil name ms h.1
    | inr other ↦ let (n, e) = resolves m h.0 other in rw e (member_log_nil name ms h.1)
  ]

  groups_log_nil :
      (gs : List ProxyGroup)
      → All (λ (g : ProxyGroup). MembersAmong g group_ids) gs
      → groups_log gs res ≡ []
  unfolding groups_log
  groups_log_nil [] h = refl
  groups_log_nil (g ∷ gs) h = rw (member_log_nil g.name g.members h.0) (groups_log_nil gs h.1)

  node_total :
      (f : RoutingFields) (cs : RoutingRules)
      → PartsTotal (render_parts cs res) (parts_log cs res)
      → ProviderAmong f.type f.provider_id provider_ids
      → NodeTotal (render_matcher (rule f cs) res) (matcher_log (rule f cs) res)
  unfolding render_matcher matcher_log
  node_total f cs ((parts, e), l) h = elim (Bool-cases (RuleType.is_logical f.type)) [
    | inl logical ↦ rw (logical, e, l) ((_, refl), refl)
    | inr other ↦ elim (Bool-cases (RuleType.takes_provider f.type)) [
      | inl provider ↦
          let (n, found) =
            provider_found f.provider_id (takes_provider_Among f.type _ provider_ids provider h) in
          rw (other, provider, found)
            (
              (_, refl),
              log_provider_nil f.type f.provider_id provider_ids
                  (takes_provider_Among f.type _ provider_ids provider h) n,
            )
      | inr plain ↦ rw (other, plain) ((_, refl), refl)
    ]
  ]

  mutual
    unfolding render_matcher matcher_log

    -- The matcher of a consistent rule is rendered, and nothing is logged.
    matcher_total :
        (r : RoutingRule)
        → ProvidersAmong r provider_ids
        → ((s : String) × (render_matcher r res ≡ some s)) × (matcher_log r res ≡ [])
    matcher_total (rule f cs) h = node_total f cs (parts_total cs h.1) h.0

    parts_total :
        (cs : RoutingRules)
        → AllProvidersAmong cs provider_ids
        → ((ss : List String) × (render_parts cs res ≡ some ss)) × (parts_log cs res ≡ [])
    parts_total nil h = (([], refl), refl)
    parts_total (cons c cs) h =
        two_parts (render_matcher c res) (matcher_log c res) (render_parts cs res)
          (parts_log cs res) (matcher_total c h.0) (parts_total cs h.1)

  line_log_nil :
      (f : RoutingFields) (below : List LogEvent) (t : Option PolicyRef)
      → TargetAmong t group_ids
      → below ≡ []
      → log_line f t (resolve_target res t) below ≡ []
  line_log_nil f below none h e = absurd h
  line_log_nil f below (some t) h e = elim (Bool-cases (is_inbound t.kind)) [
    | inl inbound ↦ log_line_inbound f below t (resolve res t) inbound e
    | inr other ↦ let (n, found) = resolves t h other in rw found e
  ]

  rules_log_nil :
      (rules : RoutingRules) → RulesAmong rules group_ids provider_ids → rules_log rules res ≡ []
  unfolding rules_log
  rules_log_nil nil h = refl
  rules_log_nil (cons (rule f cs) rs) h =
      rw
        (line_log_nil f (matcher_log (rule f cs) res) f.target h.0.0
          (matcher_total (rule f cs) h.0.1).1)
        (rules_log_nil rs h.1)

  -- The line of a consistent rule is missing only for an inbound that the subscriber lacks.
  line_iff :
      (f : RoutingFields) (cs : RoutingRules) (t : PolicyRef)
      → f.target ≡ some t
      → RuleAmong (rule f cs) group_ids provider_ids
      → (rule_line res (rule f cs) ≡ none) ↔ (resolve res t ≡ none)
  unfolding rule_line
  line_iff f cs t e h = rw e (
      line_of_iff f (resolve res t) (render_matcher (rule f cs) res)
        (matcher_total (rule f cs) h.1).0)

  resolve_inbound :
      (t : PolicyRef)
      → KindAmong t.kind t group_ids
      → resolve res t ≡ none
      → is_inbound t.kind ≡ true
  resolve_inbound t h e = elim (Bool-cases (is_inbound t.kind)) [
    | inl inbound ↦ inbound
    | inr other ↦ cc ((resolves t h other).1)
  ]

-- A config whose group references, RULE-SET providers and targets all exist is rendered without a
-- logged error, for every subscriber.
pub consistent_logs_nothing :
    (sub : Subscriber) (groups : List ProxyGroup) (providers : List RuleProvider)
    (rules : RoutingRules)
    → All (λ (g : ProxyGroup). MembersAmong g (map (λ g. g.id) groups)) groups
    → RulesAmong rules (map (λ g. g.id) groups) (map (λ p. p.id) providers)
    → (groups_log groups (new_entity_name_resolver sub groups providers) ≡ [])
      × (rules_log rules (new_entity_name_resolver sub groups providers) ≡ [])
consistent_logs_nothing sub groups providers rules hg hr =
    (groups_log_nil sub groups providers groups hg, rules_log_nil sub groups providers rules hr)

-- A rule with target `t`, whose references to groups and rule-providers all exist in the config,
-- has no line in the document of a subscriber exactly where `t` is an inbound and no proxy of the
-- subscriber is for that inbound.
pub consistent_drops_inbounds :
    (sub : Subscriber) (groups : List ProxyGroup) (providers : List RuleProvider)
    (f : RoutingFields) (cs : RoutingRules) (t : PolicyRef)
    → f.target ≡ some t
    → RuleAmong (rule f cs) (map (λ g. g.id) groups) (map (λ p. p.id) providers)
    → (rule_line (new_entity_name_resolver sub groups providers) (rule f cs) ≡ none)
      ↔ ((is_inbound t.kind ≡ true) × Lacks sub t)
consistent_drops_inbounds sub groups providers f cs t e h =
    let iff = line_iff sub groups providers f cs t e h in
    let known : TargetAmong (some t) (map (λ g. g.id) groups) =
      subst (λ o. TargetAmong o (map (λ g. g.id) groups)) e h.0 in
    (
      (λ missing.
          let gone = iff.0 missing in
          let inbound = resolve_inbound sub groups providers t known gone in
          (inbound, (resolve-none_iff sub groups providers t inbound).0 gone)),
      (λ (inbound, lacks). iff.1 ((resolve-none_iff sub groups providers t inbound).1 lacks)),
    )
