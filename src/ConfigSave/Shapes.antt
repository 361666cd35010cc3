-- ===== src/ConfigSave/Shapes.antt =====
-- internal/mihomo/validate.go: what validation accepts of the rule-providers, the profile and the base text.
use subgen.Prelude.Int.{pos, int_eq, int_ltb}
use subgen.Prelude.Lists.{All, In}
use subgen.Prelude.{
  ◌≡◌, ◌≢◌, inl, inr, refl, String, Bool, true, false, not, List, [], ◌∷◌, Option, some, ok,
  >>-eq-ok, reject_if, eq_iff, string_eq, ◌==◌, Bool-cases, Option-cases,
}
use subgen.Mihomo.Errors.{MihomoError}
use subgen.Mihomo.ProxyGroup.{
  RuleProvider, Profile, generated_keys, rule_provider_behaviors, rule_provider_formats,
}
use subgen.Mihomo.Groups.{validate_base_yaml, has_generated}
use subgen.Mihomo.Groups.Accepts.{slice_set_iff}
use subgen.Mihomo.Validate.{slice_set, validate_rule_providers, validate_profile}

reject_false : (b : Bool) (e : MihomoError) → reject_if b e ≡ ok tt → b ≡ false
reject_false true e h = absurd cc
reject_false false e h = refl

not_false : (b : Bool) → not b ≡ false → b ≡ true
not_false true h = refl
not_false false h = absurd cc

given : (s : String) (e : MihomoError) → reject_if (s == "") e ≡ ok tt → s ≢ ""
given s e h same = let t = (eq_iff s "").1 same in let f = reject_false (s == "") e h in absurd cc

one_of_these :
    (ss : List String) (s : String) (e : MihomoError)
    → reject_if (not (slice_set ss s)) e ≡ ok tt
    → In s ss
one_of_these ss s e h = (slice_set_iff ss s).0 (not_false (slice_set ss s) (reject_false _ e h))

-- A rule-provider with a name, a URL, and a known behavior and format.
abbrev pub ProviderShape : RuleProvider → Type 0
ProviderShape p =
    (p.name ≢ "")
    × In p.behavior ("domain" ∷ "ipcidr" ∷ "classical" ∷ [])
    × In p.format ("mrs" ∷ "yaml" ∷ "text" ∷ [])
    × (p.url ≢ "")

pub providers-Shape :
    (ps : List RuleProvider) → validate_rule_providers ps ≡ ok tt → All ProviderShape ps
unfolding validate_rule_providers rule_provider_behaviors rule_provider_formats
providers-Shape [] h = tt
providers-Shape (p ∷ ps) h =
    let (four, rest) = (>>-eq-ok _ (validate_rule_providers ps)).0 h in
    let (three, url) = (>>-eq-ok _ _).0 four in
    let (two, format) = (>>-eq-ok _ _).0 three in
    let (name, behavior) = (>>-eq-ok _ _).0 two in
    (
      (
        given p.name _ name,
        one_of_these rule_provider_behaviors p.behavior MihomoError.provider_bad_behavior behavior,
        one_of_these rule_provider_formats p.format MihomoError.provider_bad_format format,
        given p.url _ url,
      ),
      providers-Shape ps rest,
    )

-- A title and a file name, and a positive interval.
abbrev pub ProfileShape : Profile → Type 0
ProfileShape p = (p.title ≢ "") × (p.filename ≢ "") × (int_ltb p.update_interval (pos 1) ≡ false)

pub profile-Shape : (p : Profile) → validate_profile p ≡ ok tt → ProfileShape p
unfolding validate_profile
profile-Shape p h =
    let (title, h1) = (>>-eq-ok _ _).0 h in
    let (filename, h2) = (>>-eq-ok _ _).0 h1 in
    let (chars, interval) = (>>-eq-ok _ _).0 h2 in
    (given p.title _ title, given p.filename _ filename, reject_false _ _ interval)

-- The text is YAML, and none of its keys is one of a generated section.
abbrev pub BaseShape : (String → Option (List String)) → String → Type 0
BaseShape top_keys base =
    (keys : List String) × (top_keys base ≡ some keys)
    × All (λ k. ¬ In k keys)
        ("proxies" ∷ "proxy-groups" ∷ "rules" ∷ "rule-providers" ∷ "sub-rules" ∷ [])

none_generated : (keys ks : List String) → has_generated keys ks ≡ false → All (λ k. ¬ In k keys) ks
unfolding has_generated
none_generated keys [] h = tt
none_generated keys (k ∷ ks) h = elim (Bool-cases (slice_set keys k)) [
  | inl found ↦ let e = (rw found at h) in absurd cc
  | inr free ↦ (
    (λ i. let t = (slice_set_iff keys k).1 i in absurd cc),
    none_generated keys ks (rw free at h),
  )
]

pub base-Shape :
    (top_keys : String → Option (List String)) (base : String)
    → validate_base_yaml top_keys base ≡ ok tt
    → BaseShape top_keys base
unfolding validate_base_yaml generated_keys
base-Shape top_keys base h = elim (Option-cases (top_keys base)) [
  | inl invalid ↦ let e = (rw (invalid, validate_base_yaml) at h) in absurd cc
  | inr (keys, at) ↦ (
    keys,
    at,
    none_generated keys generated_keys (
        reject_false (has_generated keys generated_keys) MihomoError.generated_key_present
          (rw (at, validate_base_yaml) at h)),
  )
]
