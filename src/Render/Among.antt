-- ===== src/Render/Among.antt =====
-- Stored configs whose references are consistent: each group, provider and target that the config
-- refers to is in it.
use subgen.Prelude.Int.{ℤ, int_eqb_iff, int_eq}
use subgen.Prelude.Lists.{All, In}
use subgen.Prelude.Maps.{lookup, insert, lookup-insert}
use subgen.Prelude.{
  String, ◌≡◌, List, [], ◌∷◌, map, Option, none, some, inl, inr, ◌⊎◌, arith, Bool-cases, ◌==◌,
}
use subgen.Mihomo.RuleType.{RuleType}
use subgen.Mihomo.PolicyRef.{PolicyKind, PolicyRef}
use subgen.Mihomo.ProxyGroup.{ProxyGroup, RuleProvider}
use subgen.Mihomo.RoutingRule.{RoutingRule, rule, RoutingRules, nil, cons}
use subgen.Render.Resolver.{Names, index_groups, index_providers}

-- The optional id is that of some item.
abbrev pub IdAmong : Option ℤ → List ℤ → Type 0
IdAmong none ids = ⊥
IdAmong (some i) ids = In i ids

-- A reference is a built-in policy, an inbound, or a group of the config.
abbrev pub KindAmong : PolicyKind → PolicyRef → List ℤ → Type 0
KindAmong PolicyKind.group ref ids = IdAmong ref.group_id ids
KindAmong (PolicyKind.unknown s) ref ids = ⊥
KindAmong _ ref ids = Unit

abbrev pub TargetAmong : Option PolicyRef → List ℤ → Type 0
TargetAmong none ids = ⊥
TargetAmong (some ref) ids = KindAmong ref.kind ref ids

abbrev pub ProviderAmong : RuleType → Option ℤ → List ℤ → Type 0
ProviderAmong RuleType.rule_set id ids = IdAmong id ids
ProviderAmong _ id ids = Unit

-- Every RULE-SET of the tree refers to a provider of the config.
abbrev mutual
  pub ProvidersAmong : RoutingRule → List ℤ → Type 0
  ProvidersAmong (rule f cs) ids = ProviderAmong f.type f.provider_id ids × AllProvidersAmong cs ids

  pub AllProvidersAmong : RoutingRules → List ℤ → Type 0
  AllProvidersAmong nil ids = Unit
  AllProvidersAmong (cons c cs) ids = ProvidersAmong c ids × AllProvidersAmong cs ids

abbrev pub RuleAmong : RoutingRule → List ℤ → List ℤ → Type 0
RuleAmong (rule f cs) group_ids provider_ids =
    TargetAmong f.target group_ids × ProvidersAmong (rule f cs) provider_ids

abbrev pub RulesAmong : RoutingRules → List ℤ → List ℤ → Type 0
RulesAmong nil group_ids provider_ids = Unit
RulesAmong (cons r rs) group_ids provider_ids =
    RuleAmong r group_ids provider_ids × RulesAmong rs group_ids provider_ids

abbrev pub MembersAmong : ProxyGroup → List ℤ → Type 0
MembersAmong g ids = All (λ (m : PolicyRef). KindAmong m.kind m ids) g.members

pub insert_keeps :
    (i k : ℤ) (v : String) (m : Names)
    → ((n : String) × (lookup i m ≡ some n))
    → (n : String) × (lookup i (insert k v m) ≡ some n)
insert_keeps i k v m (n, h) = elim (Bool-cases (k == i)) [
  | inl same ↦ (v, rw (lookup-insert k i v m, same))
  | inr other ↦ (n, rw (lookup-insert k i v m, other) h)
]

insert_finds : (k i : ℤ) (v : String) (m : Names) → k ≡ i → lookup i (insert k v m) ≡ some v
insert_finds k i v m e = ground (arith, lookup-insert k i v m, int_eqb_iff k i)

pub groups_keep :
    (gs : List ProxyGroup) (names : Names) (i : ℤ)
    → ((n : String) × (lookup i names ≡ some n)) ⊎ In i (map (λ g. g.id) gs)
    → (n : String) × (lookup i (index_groups gs names) ≡ some n)
unfolding index_groups
groups_keep [] names i (inl h) = h
groups_keep [] names i (inr h) = absurd h
groups_keep (g ∷ gs) names i (inl h) = groups_keep gs _ i (inl (insert_keeps i g.id g.name names h))
groups_keep (g ∷ gs) names i (inr (inl e)) =
    groups_keep gs _ i (inl (g.name, insert_finds g.id i g.name names e))
groups_keep (g ∷ gs) names i (inr (inr m)) = groups_keep gs _ i (inr m)

pub providers_keep :
    (ps : List RuleProvider) (names : Names) (i : ℤ)
    → ((n : String) × (lookup i names ≡ some n)) ⊎ In i (map (λ p. p.id) ps)
    → (n : String) × (lookup i (index_providers ps names) ≡ some n)
unfolding index_providers
providers_keep [] names i (inl h) = h
providers_keep [] names i (inr h) = absurd h
providers_keep (p ∷ ps) names i (inl h) =
    providers_keep ps _ i (inl (insert_keeps i p.id p.name names h))
providers_keep (p ∷ ps) names i (inr (inl e)) =
    providers_keep ps _ i (inl (p.name, insert_finds p.id i p.name names e))
providers_keep (p ∷ ps) names i (inr (inr m)) = providers_keep ps _ i (inr m)
