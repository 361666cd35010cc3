-- ===== src/Mihomo/Validate/Accepts.antt =====
-- The validation of rules accepts the well-formed drafts and no others.
use subgen.Prelude.Int.{ℤ, pos, negsuc}
use subgen.Prelude.{
  ℕ, ◌≡◌, ◌↔◌, refl, String, Bool, true, false, Option, none, some, ok, arith, ◌>>◌, ◌&&◌, not, ltb,
  reject_if, Result, if◌then◌else◌, >>-eq-ok, eq_iff,
}
use subgen.Mihomo.Errors.{MihomoError}
use subgen.Mihomo.RuleType
use subgen.Mihomo.RuleType.{RuleType}
use subgen.Mihomo.PolicyRef.{PolicyKind}
use subgen.Mihomo.Draft.{
  RefDraft, RuleFields, RuleDraft, rule, RuleDrafts, nil, cons, fields, length, valid_payload,
  valid_rule, is_true,
}
use subgen.Mihomo.Shape.{
  RefShape, Payload, Arity, NoResolve, Target, Position, RuleShape, ChildrenShape, LastIfMatch,
  RulesShape,
}
use subgen.Mihomo.Validate.{
  validate_ref, validate_target, validate_child, bad_index, is_last, validate_arity, validate_rule,
  validate_children, validate_routing_rules,
}

pub ref_iff :
    (k : PolicyKind) (inbound group : Option ℤ) (n : ℕ)
    → (validate_ref (record { kind = k; inbound_id = inbound; group_idx = group }) n ≡ ok tt)
      ↔ RefShape k inbound group n
unfolding validate_ref
ref_iff PolicyKind.group none none n = ground arith
ref_iff PolicyKind.group none (some (pos i)) n = ground arith
ref_iff PolicyKind.group none (some (negsuc i)) n = ground arith
ref_iff PolicyKind.group (some a) none n = ground arith
ref_iff PolicyKind.group (some a) (some b) n = ground arith
ref_iff _ none none n = ground arith
ref_iff _ (some a) none n = ground arith
ref_iff _ none (some b) n = ground arith
ref_iff _ (some a) (some b) n = ground arith

-- The checks of the payload, wherever validation makes them.
abbrev PayloadChecks : RuleFields → ℕ → Type 0
PayloadChecks f n =
    (reject_if (not (RuleType.valid f.type)) MihomoError.unknown_rule_type ≡ ok tt)
    × (valid_payload f ≡ ok tt)
    × (reject_if (RuleType.takes_provider f.type && bad_index f.provider_idx n)
          MihomoError.provider_ref_range
        ≡ ok tt)

Payload-iff :
    (t : RuleType) (v : Option String) (p : Option ℤ) (nr : Option Bool) (tg : Option RefDraft)
    (n : ℕ)
    → PayloadChecks
        (record { type = t; value = v; provider_idx = p; no_resolve = nr; target = tg })
        n
      ↔ Payload t v p n
unfolding valid_payload RuleType.valid RuleType.takes_provider
Payload-iff RuleType.rule_set v none nr tg n = ground arith
Payload-iff RuleType.rule_set v (some (pos i)) nr tg n = ground arith
Payload-iff RuleType.rule_set v (some (negsuc i)) nr tg n = ground arith
Payload-iff _ none p nr tg n = ground arith
Payload-iff _ (some s) p nr tg n = ground (arith, eq_iff s "")

abbrev ArityChecks : RuleType → ℕ → Type 0
ArityChecks t n =
    (reject_if (ltb 0 n && not (RuleType.is_logical t)) MihomoError.children_not_allowed ≡ ok tt)
    × ((if RuleType.is_logical t then validate_arity t n else ok tt) ≡ ok tt)

Arity-iff : (t : RuleType) (n : ℕ) → ArityChecks t n ↔ Arity t n
unfolding RuleType.is_logical validate_arity RuleType.is_not
Arity-iff RuleType.and n = ground arith
Arity-iff _ n = ground arith

abbrev OptionChecks : RuleFields → Bool → Type 0
OptionChecks f top =
    (reject_if (is_true f.no_resolve && not (RuleType.supports_no_resolve f.type))
        MihomoError.no_resolve_unsupported
      ≡ ok tt)
    × (validate_child f top ≡ ok tt)

option_iff :
    (t : RuleType) (v : Option String) (p : Option ℤ) (nr : Option Bool) (tg : Option RefDraft)
    (top : Bool)
    → OptionChecks
        (record { type = t; value = v; provider_idx = p; no_resolve = nr; target = tg })
        top
      ↔ (NoResolve t nr top × Position t top)
unfolding validate_child RuleType.supports_no_resolve RuleType.is_match
option_iff _ v p none tg true = ground arith
option_iff _ v p none tg false = ground arith
option_iff _ v p (some true) tg true = ground arith
option_iff _ v p (some false) tg true = ground arith
option_iff _ v p (some true) tg false = ground arith
option_iff _ v p (some false) tg false = ground arith

Target-iff :
    (tg : Option RefDraft) (top : Bool) (n : ℕ)
    → (validate_target tg top n ≡ ok tt) ↔ Target tg top n
unfolding validate_target
Target-iff (some ref) true n = ref_iff ref.kind ref.inbound_id ref.group_idx n
Target-iff (some ref) false n = ground arith
Target-iff none true n = ground arith
Target-iff none false n = ground arith

-- Two checks of a sequence, each with what it accepts.
pub both_iff {ℓ} :
    {E : Type ℓ} {P Q : Type 0} (m k : Result E (Unit {0}))
    → (m ≡ ok tt) ↔ P
    → (k ≡ ok tt) ↔ Q
    → ((m >> k) ≡ ok tt) ↔ (P × Q)
both_iff m k p q = (
  (λ h. let (a, b) = (>>-eq-ok m k).0 h in (p.0 a, q.0 b)),
  (λ (a, b). (>>-eq-ok m k).1 (p.1 a, q.1 b)),
)

-- A check under a condition, of which the first part is made by itself.
if_both {ℓ} :
    {E : Type ℓ} (b : Bool) (m k : Result E (Unit {0}))
    → ((if b then (m >> k) else ok tt) ≡ ok tt)
      ↔ (((if b then m else ok tt) ≡ ok tt) × (b ≡ true → k ≡ ok tt))
if_both true m k = (
  (λ h. let (a, b) = (>>-eq-ok m k).0 h in (a, λ _. b)),
  (λ (a, b). (>>-eq-ok m k).1 (a, b refl)),
)
if_both false m k = ((λ h. (refl, λ e. cc)), (λ h. refl))

-- A rule of a type that takes no sub-rules has none, and then its list of sub-rules passes.
no_children :
    (t : RuleType) (cs : RuleDrafts) (g p : ℕ)
    → Arity t (length cs)
    → (RuleType.is_logical t ≡ true → validate_children cs g p ≡ ok tt)
    → validate_children cs g p ≡ ok tt
unfolding RuleType.is_logical validate_rule
no_children t nil g p a h = refl
no_children RuleType.and (cons c cs) g p a h = h refl
no_children RuleType.or (cons c cs) g p a h = h refl
no_children RuleType.not (cons c cs) g p a h = h refl
no_children _ (cons c cs) g p a h = absurd (omega arith)

-- The order in which `validateRule` and `RuleDraft.Valid` make their checks is of no matter for
-- what they accept.
chain_to {ℓ} :
    {E : Type ℓ} (a b c d t e f w : Result E (Unit {0}))
    → (((a >> (b >> (c >> d))) >> (t >> (e >> (f >> w)))) ≡ ok tt)
    → (a ≡ ok tt)
      × (b ≡ ok tt)
      × (c ≡ ok tt)
      × (d ≡ ok tt)
      × (t ≡ ok tt)
      × (e ≡ ok tt)
      × (f ≡ ok tt)
      × (w ≡ ok tt)
chain_to a b c d t e f w h = ground arith

chain_from {ℓ} :
    {E : Type ℓ} (a b c d t e f w : Result E (Unit {0}))
    → a ≡ ok tt
    → b ≡ ok tt
    → c ≡ ok tt
    → d ≡ ok tt
    → t ≡ ok tt
    → e ≡ ok tt
    → f ≡ ok tt
    → w ≡ ok tt
    → ((a >> (b >> (c >> d))) >> (t >> (e >> (f >> w)))) ≡ ok tt
chain_from a b c d t e f w = ground arith

-- One node, for its sub-rules.
node_iff :
    (f : RuleFields) (cs : RuleDrafts) (top : Bool) (g p : ℕ)
    → (validate_children cs g p ≡ ok tt) ↔ ChildrenShape cs g p
    → (validate_rule (rule f cs) top g p ≡ ok tt) ↔ RuleShape (rule f cs) top g p
unfolding validate_rule valid_rule
node_iff f cs top g p below = (
  (λ h.
      let (a, b, c, d, t, e, i, w) = chain_to _ _ _ _ _ _ _ _ h in
      let (arity_ok, rest) = (if_both (RuleType.is_logical f.type) _ _).0 w in
      let arity = (Arity-iff f.type (length cs)).0 (c, arity_ok) in
      let options = (option_iff f.type f.value f.provider_idx f.no_resolve f.target top).0 (d, e) in
      (
        (Payload-iff f.type f.value f.provider_idx f.no_resolve f.target p).0 (a, b, i),
        arity,
        options.0,
        options.1,
        (Target-iff f.target top g).0 t,
        below.0 (no_children f.type cs g p arity rest),
      )),
  (λ (payload, arity, no_res, position, target, children).
      let (a, b, i) =
        (Payload-iff f.type f.value f.provider_idx f.no_resolve f.target p).1 payload in
      let (c, arity_ok) = (Arity-iff f.type (length cs)).1 arity in
      let (d, e) =
        (option_iff f.type f.value f.provider_idx f.no_resolve f.target top).1 (no_res, position) in
      chain_from _ _ _ _ _ _ _ _ a b c d ((Target-iff f.target top g).1 target) e i
        ((if_both (RuleType.is_logical f.type) _ _).1 (arity_ok, λ _. below.1 children))),
)

mutual
  unfolding validate_rule valid_rule

  rule_iff :
      (r : RuleDraft) (top : Bool) (g p : ℕ)
      → (validate_rule r top g p ≡ ok tt) ↔ RuleShape r top g p
  rule_iff (rule f cs) top g p = node_iff f cs top g p (children_iff cs g p)

  children_iff :
      (cs : RuleDrafts) (g p : ℕ) → (validate_children cs g p ≡ ok tt) ↔ ChildrenShape cs g p
  children_iff nil g p = ((λ h. tt), (λ h. refl))
  children_iff (cons c cs) g p =
      both_iff (validate_rule c false g p) (validate_children cs g p) (rule_iff c false g p)
        (children_iff cs g p)

last_iff :
    (t : RuleType) (rs : RuleDrafts)
    → (reject_if (RuleType.is_match t && not (is_last rs)) MihomoError.match_not_last ≡ ok tt)
      ↔ LastIfMatch t rs
unfolding RuleType.is_match
last_iff RuleType.match_all nil = ground arith
last_iff RuleType.match_all (cons r rs) = ground arith
last_iff _ rs = ground arith

-- ValidateRoutingRules accepts a list of rules exactly when every rule has the payload, arity,
-- options, position and target of its type, with references in range, its sub-rules likewise, and
-- only the last rule is a MATCH.
pub validate_routing_rules_iff :
    (rules : RuleDrafts) (num_groups num_providers : ℕ)
    → (validate_routing_rules rules num_groups num_providers ≡ ok tt)
      ↔ RulesShape rules num_groups num_providers
unfolding validate_routing_rules
validate_routing_rules_iff nil g p = ((λ h. tt), (λ h. refl))
validate_routing_rules_iff (cons r rs) g p =
    let whole =
      both_iff
        (validate_rule r true g p
          >> reject_if (RuleType.is_match (fields r).type && not (is_last rs))
              MihomoError.match_not_last)
        (validate_routing_rules rs g p)
        (both_iff (validate_rule r true g p) _ (rule_iff r true g p) (last_iff (fields r).type rs))
        (validate_routing_rules_iff rs g p) in
    ((λ h. let ((a, b), c) = whole.0 h in (a, b, c)), (λ (a, b, c). whole.1 ((a, b), c)))
