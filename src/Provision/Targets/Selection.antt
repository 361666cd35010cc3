-- ===== src/Provision/Targets/Selection.antt =====
-- How the selected ids are resolved: each id once, in order, and none that is unknown.
use subgen.Prelude.Int.{ℤ, int_eq, int_eqb_iff}
use subgen.Prelude.Lists.{In, Distinct, All, All-mono, All-of, All-both}
use subgen.Prelude.Maps.{lookup}
use subgen.Prelude.{
  ℕ, suc, ◌<◌, ◌≢◌, arith, Option-cases, ◌⊎◌, some, none, err, if◌then◌else◌, true, List, [], ◌∷◌,
  Result, ok, ◌≡◌, refl, ◌↔◌, ◌==◌, Bool-cases, inl, inr, ||_iff, sym, subst,
}
use subgen.Provision.Act.{Error}
use subgen.Provision.Targets.{
  InboundsById, InboundRef, ConnTarget, target_of, contains, found_target, desired_targets,
  distinct,
}

contains_iff : (xs : List ℤ) (id : ℤ) → (contains xs id ≡ true) ↔ In id xs
unfolding contains
contains_iff [] id = ((λ h. cc), (λ h. absurd h))
contains_iff (x ∷ xs) id = ||_iff (x == id) (contains xs id) (int_eqb_iff x id) (contains_iff xs id)

-- Each id resolved, or the error of the first that is unknown.
resolve_all : InboundsById → List ℤ → Result Error (List ConnTarget)
resolve_all inbounds [] = ok []
resolve_all inbounds (id ∷ ids) = found_target (lookup id inbounds) (resolve_all inbounds ids)

desired_targets-distinct :
    (inbounds : InboundsById) (seen ids : List ℤ)
    → desired_targets inbounds seen ids ≡ resolve_all inbounds (distinct seen ids)
unfolding desired_targets resolve_all distinct
desired_targets-distinct inbounds seen [] = refl
desired_targets-distinct inbounds seen (id ∷ ids) =
    let rest = desired_targets-distinct inbounds (id ∷ seen) ids in
    elim (Bool-cases (contains seen id)) [
      | inl old ↦ rw (old, rest) refl
      | inr new ↦ rw (new, rest) refl
    ]

In-distinct : (x : ℤ) (seen ids : List ℤ) → In x (distinct seen ids) ↔ (In x ids × (¬ In x seen))
unfolding distinct
In-distinct x seen [] = ((λ h. absurd h), (λ h. absurd h.0))
In-distinct x seen (id ∷ ids) = elim (Bool-cases (contains seen id)) [
  | inl old ↦ rw old (old_case ((contains_iff seen id).0 old) (In-distinct x (id ∷ seen) ids))
  | inr new ↦
      rw new (new_case (λ i. cc ((contains_iff seen id).1 i)) (In-distinct x (id ∷ seen) ids))
]
  where
    old_case :
        In id seen
        → In x (distinct (id ∷ seen) ids) ↔ (In x ids × (¬ In x (id ∷ seen)))
        → In x (distinct (id ∷ seen) ids) ↔ (In x (id ∷ ids) × (¬ In x seen))
    old_case i f = (
      (λ h. let (a, n) = f.0 h in (inr a, λ j. n (inr j))),
      (λ h. f.1 (elim h.0 [
        | inl e ↦ absurd (h.1 (subst (λ z. In z seen) e i))
        | inr a ↦ (a, λ j. elim j [ inl e ↦ h.1 (subst (λ z. In z seen) e i) | inr k ↦ h.1 k ])
      ])),
    )

    new_case :
        (¬ In id seen)
        → In x (distinct (id ∷ seen) ids) ↔ (In x ids × (¬ In x (id ∷ seen)))
        → In x (id ∷ distinct (id ∷ seen) ids) ↔ (In x (id ∷ ids) × (¬ In x seen))
    new_case n f = (
      (λ h. elim h [
        | inl e ↦ (inl e, λ j. n (subst (λ z. In z seen) (sym e) j))
        | inr i ↦ (inr ((f.0 i).0), λ j. (f.0 i).1 (inr j))
      ]),
      (λ h. elim (Bool-cases (id == x)) [
        | inl same ↦ inl ((int_eqb_iff id x).0 same)
        | inr other ↦ elim h.0 [
          | inl e ↦ inl e
          | inr a ↦
              inr (f.1 (a, λ j. elim j [ inl e ↦ cc ((int_eqb_iff id x).1 e) | inr k ↦ h.1 k ]))
        ]
      ]),
    )

Distinct-distinct : (seen ids : List ℤ) → Distinct (distinct seen ids)
unfolding distinct
Distinct-distinct seen [] = tt
Distinct-distinct seen (id ∷ ids) = elim (Bool-cases (contains seen id)) [
  | inl old ↦ rw old (Distinct-distinct (id ∷ seen) ids)
  | inr new ↦ rw new (
    (λ i. ((In-distinct id (id ∷ seen) ids).0 i).1 (inl refl)),
    Distinct-distinct (id ∷ seen) ids,
  )
]

-- Where an id stands first.
unfoldable pub first_index : ℤ → List ℤ → ℕ
first_index x [] = 0
first_index x (id ∷ ids) = let later = suc (first_index x ids) in if id == x then 0 else later

-- The list follows the first places of its ids.
unfoldable pub InOrderOf : List ℤ → List ℤ → Type 0
unfolding first_index
InOrderOf ids [] = Unit
InOrderOf ids (x ∷ xs) = All (λ y. first_index x ids < first_index y ids) xs × InOrderOf ids xs

later_index :
    (id y : ℤ) (ids : List ℤ) → id ≢ y → first_index y (id ∷ ids) ≡ suc (first_index y ids)
unfolding first_index
later_index id y ids ne = elim (Bool-cases (id == y)) [
  | inl same ↦ absurd (ne ((int_eqb_iff id y).0 same))
  | inr other ↦ rw other refl
]

own_index : (id : ℤ) (ids : List ℤ) → first_index id (id ∷ ids) ≡ 0
unfolding first_index
own_index id ids = rw ((int_eqb_iff id id).1 refl) refl

InOrderOf-later :
    (id : ℤ) (ids xs : List ℤ) → All (λ y. id ≢ y) xs → InOrderOf ids xs → InOrderOf (id ∷ ids) xs
unfolding InOrderOf
InOrderOf-later id ids [] h o = tt
InOrderOf-later id ids (x ∷ xs) h o = (
  All-mono xs
      (λ y (ne, l).
        let e = later_index id x ids h.0 in let f = later_index id y ids ne in omega arith)
      (All-both (λ y. id ≢ y) (λ y. first_index x ids < first_index y ids) xs h.1 o.0),
  InOrderOf-later id ids xs h.1 o.1,
)

distinct-InOrderOf : (seen ids : List ℤ) → InOrderOf ids (distinct seen ids)
unfolding InOrderOf distinct
distinct-InOrderOf seen [] = tt
distinct-InOrderOf seen (id ∷ ids) =
    let rest = distinct (id ∷ seen) ids in
    let others : All (λ y. id ≢ y) rest =
      All-of (λ y. id ≢ y) rest (λ y i e. ((In-distinct y (id ∷ seen) ids).0 i).1 (inl e)) in
    let below = InOrderOf-later id ids rest others (distinct-InOrderOf (id ∷ seen) ids) in
    elim (Bool-cases (contains seen id)) [
      | inl old ↦ rw old below
      | inr new ↦ rw new (
        All-mono rest
            (λ y ne. let f = later_index id y ids ne in let e = own_index id ids in omega arith)
            others,
        below,
      )
    ]

-- The target is that of the inbound of this id.
abbrev pub IsTarget : InboundsById → ℤ → ConnTarget → Type 0
IsTarget inbounds id t =
    (r : InboundRef) × (lookup id inbounds ≡ some r)
    × (t.node_id ≡ r.node.id)
    × (t.node ≡ r.node.name)
    × (t.port ≡ r.inbound.port)
    × (t.inbound_id ≡ r.inbound.id)
    × (t.kind ≡ r.inbound.kind)

unfoldable pub AreTargets : InboundsById → List ℤ → List ConnTarget → Type 0
unfolding lookup
AreTargets inbounds [] [] = Unit
AreTargets inbounds (id ∷ ids) (t ∷ ts) = IsTarget inbounds id t × AreTargets inbounds ids ts
AreTargets inbounds _ _ = ⊥

-- The targets of the ids, or the error of an unknown inbound where one of them is unknown.
abbrev pub Resolved : InboundsById → List ℤ → Result Error (List ConnTarget) → Type 0
Resolved inbounds ids r =
    ((ts : List ConnTarget) × (r ≡ ok ts) × AreTargets inbounds ids ts)
    ⊎ ((r ≡ err Error.inbound_not_found) × ((id : ℤ) × In id ids × (lookup id inbounds ≡ none)))

resolve_all-Resolved :
    (inbounds : InboundsById) (ids : List ℤ) → Resolved inbounds ids (resolve_all inbounds ids)
unfolding resolve_all AreTargets
resolve_all-Resolved inbounds [] = inl ([], refl, tt)
resolve_all-Resolved inbounds (id ∷ ids) = elim (Option-cases (lookup id inbounds)) [
  | inl unknown ↦ inr (rw unknown refl, (id, inl refl, unknown))
  | inr (r, at) ↦ elim (resolve_all-Resolved inbounds ids) [
    | inl (ts, e, are) ↦
        inl (target_of r ∷ ts, rw (at, e) refl, ((r, at, refl, refl, refl, refl, refl), are))
    | inr (e, (x, i, missing)) ↦ inr (rw (at, e) refl, (x, inr i, missing))
  ]
]

-- The targets of a selection are those of the list in which each selected id stands exactly once, in the
-- order of the places where the ids stand first: for each of them in turn the node, the port and the kind
-- of the inbound of this id; or the error of an unknown inbound, where one of them is unknown.
pub desired_targets-Resolved :
    (inbounds : InboundsById) (ids : List ℤ)
    → (once : List ℤ) × Distinct once
      × ((id : ℤ) → In id once ↔ In id ids)
      × InOrderOf ids once
      × Resolved inbounds once (desired_targets inbounds [] ids)
desired_targets-Resolved inbounds ids = (
  distinct [] ids,
  Distinct-distinct [] ids,
  members,
  distinct-InOrderOf [] ids,
  subst (Resolved inbounds (distinct [] ids)) (sym (desired_targets-distinct inbounds [] ids))
      (resolve_all-Resolved inbounds (distinct [] ids)),
)
  where
    members : (id : ℤ) → In id (distinct [] ids) ↔ In id ids
    members id = let f = In-distinct id [] ids in ((λ i. (f.0 i).0), (λ i. f.1 (i, λ e. e)))
