-- ===== src/Mihomo/Validate.antt =====
-- internal/mihomo/validate.go: validation of routing rules, providers and the profile.
pub mod Accepts
use Prim.Native.Char.{code}
use subgen.Prelude.Int.{ℤ, pos, int_ltb, out_of_range}
use subgen.Prelude.Lists
use subgen.Prelude.Text.{any_char}
use subgen.Prelude.{
  ℕ, String, Bool, true, false, ◌&&◌, ◌||◌, not, List, [], ◌∷◌, Option, none, some, ok, err, ◌>>◌,
  reject_if, ◌==◌, string_eq, ltb, leb, nat_eqb, if◌then◌else◌,
}
use subgen.Mihomo.Errors.{MihomoError, Check}
use subgen.Mihomo.RuleType
use subgen.Mihomo.RuleType.{RuleType}
use subgen.Mihomo.PolicyRef.{is_group}
use subgen.Mihomo.ProxyGroup.{RuleProvider, Profile, rule_provider_behaviors, rule_provider_formats}
use subgen.Mihomo.Draft.{
  RefDraft, valid_ref, RuleFields, RuleDraft, rule, RuleDrafts, nil, cons, fields, length, is_true,
  valid_rule,
}

-- idx == nil || *idx < 0 || *idx >= n
abbrev pub bad_index : Option ℤ → ℕ → Bool
bad_index none n = true
bad_index (some i) n = out_of_range i n

-- validateRef
unfoldable pub validate_ref : RefDraft → ℕ → Check
unfolding valid_ref
validate_ref ref num_groups = do
  valid_ref ref
  reject_if (is_group ref.kind && bad_index ref.group_idx num_groups) MihomoError.group_ref_range

-- The switch on the target: a top-level rule has one in range, a sub-rule none.
unfoldable pub validate_target : Option RefDraft → Bool → ℕ → Check
validate_target none true num_groups = err MihomoError.target_required
validate_target (some ref) true num_groups = validate_ref ref num_groups
validate_target none false num_groups = ok tt
validate_target (some ref) false num_groups = err MihomoError.child_target

-- The block under `if !top`.
unfoldable pub validate_child : RuleFields → Bool → Check
validate_child f true = ok tt
validate_child f false = do
  reject_if (RuleType.is_match f.type) MihomoError.match_child
  reject_if (is_true f.no_resolve) MihomoError.no_resolve_unsupported

-- The arity of NOT, and of AND and OR.
unfoldable pub validate_arity : RuleType → ℕ → Check
validate_arity t n =
    if RuleType.is_not t
    then reject_if (not (nat_eqb n 1)) MihomoError.not_arity
    else reject_if (ltb n 2) MihomoError.logical_arity

unfoldable mutual
  -- validateRule
  pub validate_rule : RuleDraft → Bool → ℕ → ℕ → Check
  validate_rule (rule f cs) top num_groups num_providers = do
    valid_rule (rule f cs)
    validate_target f.target top num_groups
    validate_child f top
    reject_if (RuleType.takes_provider f.type && bad_index f.provider_idx num_providers)
        MihomoError.provider_ref_range
    let below = validate_children cs num_groups num_providers
    if RuleType.is_logical f.type then (validate_arity f.type (length cs) >> below) else ok tt

  -- The loop over the children.
  pub validate_children : RuleDrafts → ℕ → ℕ → Check
  validate_children nil num_groups num_providers = ok tt
  validate_children (cons r rs) num_groups num_providers =
      let rest = validate_children rs num_groups num_providers in
      validate_rule r false num_groups num_providers >> rest

abbrev pub is_last : RuleDrafts → Bool
is_last nil = true
is_last (cons r rs) = false

-- ValidateRoutingRules
unfoldable pub validate_routing_rules : RuleDrafts → ℕ → ℕ → Check
validate_routing_rules nil num_groups num_providers = ok tt
validate_routing_rules (cons r rs) num_groups num_providers =
    let rest = validate_routing_rules rs num_groups num_providers in
    validate_rule r true num_groups num_providers
    >> reject_if (RuleType.is_match (fields r).type && not (is_last rs)) MihomoError.match_not_last
    >> rest

-- m[s] for the set that `sliceSet` builds.
unfoldable pub slice_set : List String → String → Bool
slice_set [] s = false
slice_set (t ∷ ts) s = t == s || slice_set ts s

-- ValidateRuleProviders
unfoldable pub validate_rule_providers : List RuleProvider → Check
unfolding slice_set rule_provider_behaviors rule_provider_formats
validate_rule_providers [] = ok tt
validate_rule_providers (p ∷ ps) =
    let rest = validate_rule_providers ps in
    reject_if (p.name == "") MihomoError.provider_name_empty
    >> reject_if (not (slice_set rule_provider_behaviors p.behavior))
        MihomoError.provider_bad_behavior
    >> reject_if (not (slice_set rule_provider_formats p.format)) MihomoError.provider_bad_format
    >> reject_if (p.url == "") MihomoError.provider_url_empty
    >> rest

-- isControl
unfoldable pub is_control : ℕ → Bool
is_control c = ltb c 0x20 || nat_eqb c 0x7f

-- A character that strings.ContainsAny finds in the filename.
unfoldable pub is_separator : ℕ → Bool
is_separator c = nat_eqb c b'/' || nat_eqb c 92

-- ValidateProfile
unfoldable pub validate_profile : Profile → Check
unfolding any_char is_control is_separator
validate_profile p = do
  reject_if (p.title == "") MihomoError.profile_title_empty
  reject_if (p.filename == "") MihomoError.profile_filename_empty
  reject_if (any_char is_separator p.filename || any_char is_control p.filename)
      MihomoError.profile_filename_invalid
  reject_if (int_ltb p.update_interval (pos 1)) MihomoError.profile_update_interval_invalid
