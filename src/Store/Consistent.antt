-- ===== src/Store/Consistent.antt =====
-- internal/repository/routing and internal/mihomo/render: what is loaded of a saved draft has no dangling
-- reference.
use subgen.Prelude.Int.{ℤ, pos, negsuc, int_eq}
use subgen.Prelude.Lists
use subgen.Prelude.Lists.{All, In, get_elem?, In-map}
use subgen.Prelude.{
  ℕ, zero, suc, ◌<◌, ◌≡◌, refl, sym, ap, subst, String, Bool, true, false, List, [], ◌∷◌, map,
  Option, none, some, inl, inr, Bool-cases, ◌⊎◌,
}
use subgen.Mihomo.RuleType.{RuleType, is_logical}
use subgen.Mihomo.PolicyRef.{PolicyKind, PolicyRef}
use subgen.Mihomo.ProxyGroup.{ProxyGroup}
use subgen.Mihomo.Draft.{RefDraft, rule, RuleDrafts, nil, cons, GroupDraft}
use subgen.Mihomo.Shape.{RefShape, IsRef, Payload, Target}
use subgen.Store.Tables.{place, order_by}
use subgen.Store.Refs.{id_of, resolved}
use subgen.Store.Forest.{stored}
use subgen.Store.Members.{ids_from}
use subgen.Store.Groups.{stored_groups}
use subgen.Store.Fits.{Shapes, ChildrenShape-Shapes, get_elem?-some}
use subgen.Render.Among.{
  IdAmong, KindAmong, TargetAmong, ProviderAmong, AllProvidersAmong, RulesAmong, MembersAmong,
}

get_elem?-In : {A : Type 0} (xs : List A) (i : ℕ) (a : A) → get_elem? xs i ≡ some a → In a xs
get_elem?-In [] i a h = cc
get_elem?-In (x ∷ xs) zero a h = inl (cc)
get_elem?-In (x ∷ xs) (suc i) a h = inr (get_elem?-In xs i a h)

module _ (ids : List ℕ) (known : List ℤ) (all : (id : ℕ) → In id ids → In (pos id) known) where
  id_of-Among : (i : ℕ) → i < Lists.length ids → IdAmong (id_of ids (some (pos i))) known
  id_of-Among i h =
      let (id, at) = get_elem?-some ids i h in
      subst (λ o. IdAmong (elim o [ none ↦ none | some id ↦ some (pos id) ]) known) (sym at)
        (all id (get_elem?-In ids i id at))

  resolved-kind :
      (kind : PolicyKind) (r : RefDraft) (inbound group : Option ℤ)
      → RefShape kind inbound group (Lists.length ids)
      → KindAmong kind
          (record {
            kind = kind;
            inbound_id = elim kind [ PolicyKind.inbound ↦ inbound | _ ↦ none ];
            group_id = elim kind [ PolicyKind.group ↦ id_of ids group | _ ↦ none ];
          })
          known
  resolved-kind PolicyKind.group r none (some (pos i)) h = id_of-Among i h
  resolved-kind PolicyKind.group r none (some (negsuc i)) h = absurd h
  resolved-kind PolicyKind.group r none none h = absurd h
  resolved-kind PolicyKind.group r (some a) none h = absurd h
  resolved-kind PolicyKind.group r (some a) (some b) h = absurd h
  resolved-kind (PolicyKind.unknown s) r inbound group h = absurd h
  resolved-kind _ r inbound group h = tt

  resolved-Among :
      (r : RefDraft) → IsRef r (Lists.length ids) → KindAmong r.kind (resolved ids r) known
  unfolding resolved
  resolved-Among r h = resolved-kind r.kind r r.inbound_id r.group_idx h

  members-Among :
      (ms : List RefDraft)
      → All (λ m. IsRef m (Lists.length ids)) ms
      → All (λ (m : PolicyRef). KindAmong m.kind m known) (map (resolved ids) ms)
  unfolding resolved
  members-Among [] h = tt
  members-Among (m ∷ ms) h = (resolved-Among m h.0, members-Among ms h.1)

module _ (groups providers : List ℕ) (gs ps : List ℤ)
    (all_groups : (id : ℕ) → In id groups → In (pos id) gs)
    (all_providers : (id : ℕ) → In id providers → In (pos id) ps) where
  provider-Among :
      (t : RuleType) (value : Option String) (provider : Option ℤ)
      → Payload t value provider (Lists.length providers)
      → ProviderAmong t (id_of providers provider) ps
  provider-Among RuleType.rule_set value (some (pos i)) h =
      id_of-Among providers ps all_providers i h.1
  provider-Among RuleType.rule_set value (some (negsuc i)) h = absurd h.1
  provider-Among RuleType.rule_set value none h = absurd h.1
  provider-Among _ value provider h = tt

  Target-Among :
      (t : Option RefDraft)
      → Target t true (Lists.length groups)
      → TargetAmong (elim t [ none ↦ none | some r ↦ some (resolved groups r) ]) gs
  unfolding resolved
  Target-Among none h = absurd h
  Target-Among (some r) h = resolved-Among groups gs all_groups r h

  -- Every RULE-SET of the stored rules refers to a provider of the list.
  providers-Among :
      (ds : RuleDrafts) (top : Bool) (k n : ℕ)
      → Shapes ds top (Lists.length groups) (Lists.length providers)
      → AllProvidersAmong (stored groups providers ds k n) ps
  unfolding stored
  providers-Among nil top k n h = tt
  providers-Among (cons (rule f cs) rs) top k n h =
      let own = provider-Among f.type f.value f.provider_idx h.0.0 in
      let below = providers-Among cs false 0 (suc n) (ChildrenShape-Shapes cs _ _ h.0.5) in
      elim (Bool-cases (is_logical f.type)) [
        | inl logical ↦ rw logical ((own, below), providers-Among rs top _ _ h.1)
        | inr plain ↦ rw plain ((own, tt), providers-Among rs top _ _ h.1)
      ]

  pub rules-Among :
      (ds : RuleDrafts) (k n : ℕ)
      → Shapes ds true (Lists.length groups) (Lists.length providers)
      → RulesAmong (stored groups providers ds k n) gs ps
  unfolding stored
  rules-Among nil k n h = tt
  rules-Among (cons (rule f cs) rs) k n h =
      let own = provider-Among f.type f.value f.provider_idx h.0.0 in
      let below = providers-Among cs false 0 (suc n) (ChildrenShape-Shapes cs _ _ h.0.5) in
      let target = Target-Among f.target h.0.4 in
      elim (Bool-cases (is_logical f.type)) [
        | inl logical ↦ rw logical ((target, (own, below)), rules-Among rs _ _ h.1)
        | inr plain ↦ rw plain ((target, (own, tt)), rules-Among rs _ _ h.1)
      ]

  pub groups-Among :
      (new_id : ℕ → ℕ) (i : ℕ) (ds : List GroupDraft)
      → All (λ g. All (λ m. IsRef m (Lists.length groups)) g.members) ds
      → All (λ (g : ProxyGroup). MembersAmong g gs) (stored_groups groups new_id i ds)
  unfolding stored_groups
  groups-Among new_id i [] h = tt
  groups-Among new_id i (d ∷ ds) h =
      (members-Among groups gs all_groups d.members h.0, groups-Among new_id (suc i) ds h.1)

-- Nothing is lost by an ORDER BY.
In-place :
    {A : Type 0} (le : A → A → Bool) (a x : A) (xs : List A)
    → (x ≡ a) ⊎ In a xs
    → In a (place le x xs)
unfolding place
In-place le a x [] h = h
In-place le a x (y ∷ ys) h = elim (Bool-cases (le x y)) [
  | inl before ↦ rw before h
  | inr after ↦ rw after (elim h [
    | inl e ↦ inr (In-place le a x ys (inl e))
    | inr (inl e) ↦ inl e
    | inr (inr i) ↦ inr (In-place le a x ys (inr i))
  ])
]

pub In-order_by :
    {A : Type 0} (le : A → A → Bool) (a : A) (xs : List A) → In a xs → In a (order_by le xs)
unfolding order_by
In-order_by le a [] h = h
In-order_by le a (x ∷ xs) (inl e) = In-place le a x (order_by le xs) (inl e)
In-order_by le a (x ∷ xs) (inr i) = In-place le a x (order_by le xs) (inr (In-order_by le a xs i))

pub group_ids-stored :
    (ids : List ℕ) (new_id : ℕ → ℕ) (i : ℕ) (ds : List GroupDraft)
    → map (λ g. g.id) (stored_groups ids new_id i ds)
      ≡ map (λ id. pos id) (ids_from new_id i (Lists.length ds))
unfolding stored_groups ids_from
group_ids-stored ids new_id i [] = refl
group_ids-stored ids new_id i (d ∷ ds) =
    ap (λ xs. pos (new_id i) ∷ xs) (group_ids-stored ids new_id (suc i) ds)
