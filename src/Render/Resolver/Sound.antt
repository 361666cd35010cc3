-- ===== src/Render/Resolver/Sound.antt =====
-- What the resolver's names stand for.
use subgen.Prelude.Int.{ℤ, pos, int_eqb_iff, int_eq}
use subgen.Prelude.Lists.{In}
use subgen.Prelude.Maps.{lookup, insert, lookup-insert}
use subgen.Prelude.{
  String, ◌≡◌, List, [], ◌∷◌, map, Option, none, some, ◌==◌, Bool-cases, ◌⊎◌, inl, inr, arith,
}
use subgen.Mihomo.PolicyRef.{PolicyKind, PolicyRef}
use subgen.Mihomo.ProxyGroup.{ProxyGroup, RuleProvider}
use subgen.Entity.Fleet.{Proxy, Subscriber}
use subgen.Render.Resolver.{
  Names, EntityNameResolver, index_inbounds, index_groups, new_entity_name_resolver, lookup_id,
  resolve, resolve_kind,
}

-- The name was given to the id by some item of a list.
abbrev pub Named : {A : Type 0} → (A → ℤ) → (A → String) → ℤ → String → List A → Type 0
Named id name i n [] = ⊥
Named id name i n (x ∷ xs) = ((id x ≡ i) × (name x ≡ n)) ⊎ Named id name i n xs

pub Named-In :
    {A : Type 0} (id : A → ℤ) (name : A → String) (i : ℤ) (n : String) (xs : List A)
    → Named id name i n xs
    → In n (map name xs)
Named-In id name i n [] h = h
Named-In id name i n (x ∷ xs) (inl h) = inl h.1
Named-In id name i n (x ∷ xs) (inr h) = inr (Named-In id name i n xs h)

-- A name that an insertion gives is the new one or an old one.
insert_cases :
    (k i : ℤ) (v n : String) (m : Names)
    → lookup i (insert k v m) ≡ some n
    → ((k ≡ i) × (v ≡ n)) ⊎ (lookup i m ≡ some n)
insert_cases k i v n m h = ground (arith, lookup-insert k i v m, int_eqb_iff k i)

pub index_groups_sound :
    (gs : List ProxyGroup) (names : Names) (i : ℤ) (n : String)
    → lookup i (index_groups gs names) ≡ some n
    → Named (λ g. g.id) (λ g. g.name) i n gs ⊎ (lookup i names ≡ some n)
unfolding index_groups
index_groups_sound [] names i n h = inr h
index_groups_sound (g ∷ gs) names i n h =
    elim (index_groups_sound gs (insert g.id g.name names) i n h) [
      | inl later ↦ inl (inr later)
      | inr now ↦ elim (insert_cases g.id i g.name n names now) [
        | inl this ↦ inl (inl this)
        | inr before ↦ inr before
      ]
    ]

pub index_inbounds_sound :
    (ps : List Proxy) (names : Names) (i : ℤ) (n : String)
    → lookup i (index_inbounds ps names) ≡ some n
    → Named (λ p. p.inbound_id) (λ p. p.name) i n ps ⊎ (lookup i names ≡ some n)
unfolding index_inbounds
index_inbounds_sound [] names i n h = inr h
index_inbounds_sound (p ∷ ps) names i n h = elim (index_inbounds_sound ps _ i n h) [
  | inl later ↦ inl (inr later)
  | inr now ↦ elim (Bool-cases (p.inbound_id == pos 0)) [
    | inl skipped ↦ inr (rw skipped at now)
    | inr kept ↦ elim (insert_cases p.inbound_id i p.name n names (rw kept at now)) [
      | inl this ↦ inl (inl this)
      | inr before ↦ inr before
    ]
  ]
]

-- The fixed names of the built-in policies.
abbrev pub builtin_names : List String
builtin_names = "DIRECT" ∷ "REJECT" ∷ "REJECT-DROP" ∷ "REJECT-NO-DROP" ∷ "PASS" ∷ []

-- A built-in policy, a proxy of the subscriber, or a group of the config.
abbrev pub IsPolicyName : Subscriber → List ProxyGroup → String → Type 0
IsPolicyName sub groups n =
    In n builtin_names ⊎ In n (map (λ p. p.name) sub.proxies) ⊎ In n (map (λ g. g.name) groups)

module _ (sub : Subscriber) (groups : List ProxyGroup) (providers : List RuleProvider) where
  abbrev res : EntityNameResolver
  res = new_entity_name_resolver sub groups providers

  lookup_inbound :
      (id : Option ℤ) (n : String)
      → lookup_id id res.inbound_name ≡ some n
      → In n (map (λ p. p.name) sub.proxies)
  unfolding lookup lookup_id new_entity_name_resolver
  lookup_inbound none n h = cc
  lookup_inbound (some i) n h = elim (index_inbounds_sound sub.proxies [] i n h) [
    | inl found ↦ Named-In _ _ i n sub.proxies found
    | inr empty ↦ cc
  ]

  lookup_group :
      (id : Option ℤ) (n : String)
      → lookup_id id res.group_name ≡ some n
      → In n (map (λ g. g.name) groups)
  unfolding lookup lookup_id new_entity_name_resolver
  lookup_group none n h = cc
  lookup_group (some i) n h = elim (index_groups_sound groups [] i n h) [
    | inl found ↦ Named-In _ _ i n groups found
    | inr empty ↦ cc
  ]

  resolve_kind_sound :
      (k : PolicyKind) (ref : PolicyRef) (n : String)
      → resolve_kind res k ref ≡ some n
      → IsPolicyName sub groups n
  unfolding resolve_kind
  resolve_kind_sound PolicyKind.direct ref n h = inl (inl (cc))
  resolve_kind_sound PolicyKind.reject ref n h = inl (inr (inl (cc)))
  resolve_kind_sound PolicyKind.reject_drop ref n h = inl (inr (inr (inl (cc))))
  resolve_kind_sound PolicyKind.reject_no_drop ref n h = inl (inr (inr (inr (inl (cc)))))
  resolve_kind_sound PolicyKind.pass ref n h = inl (inr (inr (inr (inr (inl (cc))))))
  resolve_kind_sound PolicyKind.inbound ref n h = inr (inl (lookup_inbound ref.inbound_id n h))
  resolve_kind_sound PolicyKind.group ref n h = inr (inr (lookup_group ref.group_id n h))
  resolve_kind_sound (PolicyKind.unknown s) ref n h = cc

  -- A resolved reference names something that is in the document.
  pub resolve_sound :
      (ref : PolicyRef) (n : String) → resolve res ref ≡ some n → IsPolicyName sub groups n
  unfolding resolve
  resolve_sound ref n h = resolve_kind_sound ref.kind ref n h
