-- ===== src/Mihomo/Shape.antt =====
-- What a well-formed draft is, said without the code: the reference of internal/mihomo/draft.go.
use subgen.Prelude.Int.{ℤ, pos}
use subgen.Prelude.{ℕ, ◌≤◌, ◌<◌, ◌≡◌, ◌≢◌, String, Bool, true, false, Option, none, some}
use subgen.Mihomo.RuleType.{RuleType}
use subgen.Mihomo.PolicyRef.{PolicyKind}
use subgen.Mihomo.Draft.{RefDraft, RuleDraft, rule, RuleDrafts, nil, cons, fields, length}

-- A reference has the field of its kind and no other, and a group's index is below `n`.
abbrev pub RefShape : PolicyKind → Option ℤ → Option ℤ → ℕ → Type 0
RefShape PolicyKind.inbound (some id) none n = Unit
RefShape PolicyKind.inbound _ _ n = ⊥
RefShape PolicyKind.group none (some (pos i)) n = i < n
RefShape PolicyKind.group _ _ n = ⊥
RefShape (PolicyKind.unknown s) _ _ n = ⊥
RefShape _ none none n = Unit
RefShape _ _ _ n = ⊥

abbrev pub IsRef : RefDraft → ℕ → Type 0
IsRef ref n = RefShape ref.kind ref.inbound_id ref.group_idx n

abbrev pub IndexBelow : Option ℤ → ℕ → Type 0
IndexBelow (some (pos i)) n = i < n
IndexBelow _ n = ⊥

abbrev pub HasText : Option String → Type 0
HasText none = ⊥
HasText (some s) = s ≢ ""

-- The payload that each type of rule takes, with `n` providers to refer to.
abbrev pub Payload : RuleType → Option String → Option ℤ → ℕ → Type 0
Payload RuleType.and value provider n = (value ≡ none) × (provider ≡ none)
Payload RuleType.or value provider n = (value ≡ none) × (provider ≡ none)
Payload RuleType.not value provider n = (value ≡ none) × (provider ≡ none)
Payload RuleType.match_all value provider n = (value ≡ none) × (provider ≡ none)
Payload RuleType.rule_set value provider n = (value ≡ none) × IndexBelow provider n
Payload (RuleType.unknown s) value provider n = ⊥
Payload _ value provider n = HasText value × (provider ≡ none)

-- The number of sub-rules of each type of rule.
abbrev pub Arity : RuleType → ℕ → Type 0
Arity RuleType.and n = 2 ≤ n
Arity RuleType.or n = 2 ≤ n
Arity RuleType.not n = n ≡ 1
Arity _ n = n ≡ 0

-- no-resolve is on only at the top, and for the types that read it.
abbrev pub NoResolve : RuleType → Option Bool → Bool → Type 0
NoResolve RuleType.ip_cidr (some true) top = top ≡ true
NoResolve RuleType.ip_cidr6 (some true) top = top ≡ true
NoResolve RuleType.ip_suffix (some true) top = top ≡ true
NoResolve RuleType.ip_asn (some true) top = top ≡ true
NoResolve RuleType.geoip (some true) top = top ≡ true
NoResolve RuleType.rule_set (some true) top = top ≡ true
NoResolve _ (some true) top = ⊥
NoResolve _ _ top = Unit

-- A top-level rule has a target, and a sub-rule has none.
abbrev pub Target : Option RefDraft → Bool → ℕ → Type 0
Target (some ref) true n = IsRef ref n
Target none false n = Unit
Target _ _ n = ⊥

-- MATCH stands only at the top.
abbrev pub Position : RuleType → Bool → Type 0
Position RuleType.match_all top = top ≡ true
Position _ top = Unit

-- The well-formed rules of a config with `g` groups and `p` providers.
abbrev mutual
  pub RuleShape : RuleDraft → Bool → ℕ → ℕ → Type 0
  RuleShape (rule f cs) top g p =
      Payload f.type f.value f.provider_idx p
      × Arity f.type (length cs)
      × NoResolve f.type f.no_resolve top
      × Position f.type top
      × Target f.target top g
      × ChildrenShape cs g p

  pub ChildrenShape : RuleDrafts → ℕ → ℕ → Type 0
  ChildrenShape nil g p = Unit
  ChildrenShape (cons r rs) g p = RuleShape r false g p × ChildrenShape rs g p

-- Only the last of the rules is a MATCH.
abbrev pub LastIfMatch : RuleType → RuleDrafts → Type 0
LastIfMatch RuleType.match_all (cons r rs) = ⊥
LastIfMatch _ rs = Unit

abbrev pub RulesShape : RuleDrafts → ℕ → ℕ → Type 0
RulesShape nil g p = Unit
RulesShape (cons r rs) g p =
    RuleShape r true g p × LastIfMatch (fields r).type rs × RulesShape rs g p
