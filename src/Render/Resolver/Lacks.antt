-- ===== src/Render/Resolver/Lacks.antt =====
-- internal/mihomo/render/policy.go: which inbounds of a subscriber have a name.
use subgen.Prelude.Int.{ℤ, pos, int_eqb_iff, int_eq}
use subgen.Prelude.Lists.{In}
use subgen.Prelude.Maps.{lookup, insert, lookup-insert}
use subgen.Prelude.{
  ◌≡◌, ◌≢◌, ◌↔◌, refl, sym, ◌∙◌, ap, subst, String, true, List, [], ◌∷◌, Option, none, some, ◌==◌,
  Bool-cases, inl, inr,
}
use subgen.Mihomo.PolicyRef.{PolicyKind, PolicyRef, is_inbound}
use subgen.Mihomo.ProxyGroup.{ProxyGroup, RuleProvider}
use subgen.Entity.Fleet.{Proxy, Subscriber}
use subgen.Render.Resolver.{
  Names, index_inbounds, new_entity_name_resolver, lookup_id, resolve, resolve_kind,
}

-- Some proxy is for the inbound of this id; 0 stands for none.
abbrev pub Has : ℤ → List Proxy → Type 0
Has i ps = (p : Proxy) × In p ps × (p.inbound_id ≡ i) × (i ≢ pos 0)

insert-none_iff :
    (k i : ℤ) (v : String) (m : Names)
    → (lookup i (insert k v m) ≡ none) ↔ ((k ≢ i) × (lookup i m ≡ none))
insert-none_iff k i v m = elim (Bool-cases (k == i)) [
  | inl same ↦ (
    (λ h. let e = rw (lookup-insert k i v m, same) at h in absurd cc),
    (λ (ne, h). absurd (ne ((int_eqb_iff k i).0 same))),
  )
  | inr other ↦
      let e : lookup i (insert k v m) ≡ lookup i m = lookup-insert k i v m ∙ rw other refl in
      (
        (λ h. ((λ same. let t = (int_eqb_iff k i).1 same in absurd cc), sym e ∙ h)),
        (λ (ne, h). e ∙ h),
      )
]

index_inbounds-none_iff :
    (ps : List Proxy) (names : Names) (i : ℤ)
    → (lookup i (index_inbounds ps names) ≡ none) ↔ ((lookup i names ≡ none) × (¬ Has i ps))
unfolding index_inbounds
index_inbounds-none_iff [] names i = ((λ h. (h, λ has. absurd (has.1))), (λ h. h.0))
index_inbounds-none_iff (p ∷ ps) names i = elim (Bool-cases (p.inbound_id == pos 0)) [
  | inl skipped ↦
      let iff = index_inbounds-none_iff ps names i in
      rw skipped (
        (λ h.
            let (old, lacks) = iff.0 h in
            (
              old,
              λ (q, at, e, ne). elim at [
                | inl same ↦ ne (
                    sym e
                    ∙ ap (λ x. x.inbound_id) (sym same)
                    ∙ (int_eqb_iff p.inbound_id (pos 0)).0 skipped)
                | inr later ↦ lacks (q, later, e, ne)
              ],
            )),
        (λ (old, lacks). iff.1 (old, λ (q, at, e, ne). lacks (q, inr at, e, ne))),
      )
  | inr named ↦
      let iff = index_inbounds-none_iff ps (insert p.inbound_id p.name names) i in
      let new = insert-none_iff p.inbound_id i p.name names in
      rw named (
        (λ h.
            let (put, lacks) = iff.0 h in
            let (other, old) = new.0 put in
            (
              old,
              λ (q, at, e, ne). elim at [
                | inl same ↦ other (ap (λ x. x.inbound_id) same ∙ e)
                | inr later ↦ lacks (q, later, e, ne)
              ],
            )),
        (λ (old, lacks). iff.1 (
          new.1 (
            (λ e. lacks (
              p,
              inl refl,
              e,
              λ z. let t = (int_eqb_iff p.inbound_id (pos 0)).1 (e ∙ z) in absurd cc,
            )),
            old,
          ),
          (λ (q, at, e, ne). lacks (q, inr at, e, ne)),
        )),
      )
]

-- No proxy of the subscriber is for the inbound that the reference names.
abbrev pub Lacks : Subscriber → PolicyRef → Type 0
Lacks sub t = (i : ℤ) → t.inbound_id ≡ some i → ¬ Has i sub.proxies

lookup_id-none_iff :
    (o : Option ℤ) (ps : List Proxy)
    → (lookup_id o (index_inbounds ps []) ≡ none) ↔ ((i : ℤ) → o ≡ some i → ¬ Has i ps)
unfolding lookup_id lookup
lookup_id-none_iff none ps = ((λ h i e. absurd cc), (λ h. refl))
lookup_id-none_iff (some i) ps =
    let iff = index_inbounds-none_iff ps [] i in
    (
      (λ h j e. let same : i ≡ j = cc in subst (λ x. ¬ Has x ps) same (iff.0 h).1),
      (λ lacks. iff.1 (refl, lacks i refl)),
    )

kind-none_iff :
    (sub : Subscriber) (groups : List ProxyGroup) (providers : List RuleProvider) (t : PolicyRef)
    (k : PolicyKind)
    → is_inbound k ≡ true
    → (resolve_kind (new_entity_name_resolver sub groups providers) k t ≡ none) ↔ Lacks sub t
unfolding resolve_kind new_entity_name_resolver
kind-none_iff sub groups providers t PolicyKind.inbound h =
    lookup_id-none_iff t.inbound_id sub.proxies
kind-none_iff sub groups providers t _ h = absurd cc

pub resolve-none_iff :
    (sub : Subscriber) (groups : List ProxyGroup) (providers : List RuleProvider) (t : PolicyRef)
    → is_inbound t.kind ≡ true
    → (resolve (new_entity_name_resolver sub groups providers) t ≡ none) ↔ Lacks sub t
unfolding resolve
resolve-none_iff sub groups providers t h = kind-none_iff sub groups providers t t.kind h
