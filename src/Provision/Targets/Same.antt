-- ===== src/Provision/Targets/Same.antt =====
-- What `sameInboundIDs` decides.
use subgen.Prelude.Int.{ℤ, pos, negsuc, int_eq, int_eqb, int_eqb_iff}
use subgen.Prelude.Lists.{length, In, Distinct}
use subgen.Prelude.Maps.{lookup, insert, lookup-insert, keys, keys-insert}
use subgen.Prelude.{
  ◌+◌, ℕ, zero, suc, true, List, [], ◌∷◌, none, ◌==◌, ◌≡◌, refl, ◌↔◌, Bool-cases, inl, inr,
  if◌then◌else◌, arith, nat_eqb, nat_eqb_iff, ap, ◌∙◌, subst, sym,
}
use subgen.Provision.Targets.{count_of, add_each, all_zero, succ_int, pred_int, same_inbound_ids}

-- How often the id stands in the list.
pub count : ℤ → List ℤ → ℕ
count id [] = 0
count id (x ∷ xs) = let rest = count id xs in if x == id then suc rest else rest

times : ℕ → (ℤ → ℤ) → ℤ → ℤ
times zero step z = z
times (suc n) step z = times n step (step z)

abbrev Counts : Type 0
Counts = List (ℤ × ℤ)

-- What the loop leaves under an id.
add_each-at :
    (step : ℤ → ℤ) (xs : List ℤ) (m : Counts) (id : ℤ)
    → count_of (lookup id (add_each step xs m)) ≡ times (count id xs) step (count_of (lookup id m))
unfolding add_each count times
add_each-at step [] m id = refl
add_each-at step (x ∷ xs) m id =
    let v = step (count_of (lookup x m)) in
    add_each-at step xs (insert x v m) id ∙ (elim (Bool-cases (x == id)) [
      | inl same ↦ rw (lookup-insert x id v m, same, (int_eqb_iff x id).0 same) refl
      | inr other ↦ rw (lookup-insert x id v m, other) refl
    ])

times-succ : (n k : ℕ) → times n succ_int (pos k) ≡ pos (n + k)
unfolding times succ_int
times-succ zero k = ap pos (omega arith)
times-succ (suc n) k = times-succ n (suc k) ∙ ap pos (omega arith)

times-pred_below : (n k : ℕ) → times n pred_int (negsuc k) ≡ negsuc (n + k)
unfolding times pred_int
times-pred_below zero k = ap negsuc (omega arith)
times-pred_below (suc n) k = times-pred_below n (suc k) ∙ ap negsuc (omega arith)

times-pred_iff : (n k : ℕ) → (times n pred_int (pos k) ≡ pos 0) ↔ (k ≡ n)
unfolding times pred_int
times-pred_iff zero k = ((λ h. cc h), (λ h. ap pos h))
times-pred_iff (suc n) zero = ((λ h. cc (times-pred_below n 0)), (λ h. absurd (omega arith)))
times-pred_iff (suc n) (suc k) =
    ((λ h. ap suc ((times-pred_iff n k).0 h)), (λ h. (times-pred_iff n k).1 (omega arith)))

Distinct-insert : (k v : ℤ) (m : Counts) → Distinct (keys m) → Distinct (keys (insert k v m))
unfolding keys insert
Distinct-insert k v [] d = ((λ h. h), tt)
Distinct-insert k v (entry ∷ m) d = elim (Bool-cases (entry.0 == k)) [
  | inl same ↦
      rw same ((λ i. d.0 (subst (λ x. In x (keys m)) (cc ((int_eqb_iff entry.0 k).0 same)) i)), d.1)
  | inr other ↦ rw other (
    (λ i. elim (keys-insert k entry.0 v m i) [
      | inl e ↦ cc ((int_eqb_iff entry.0 k).1 (cc e))
      | inr j ↦ d.0 j
    ]),
    Distinct-insert k v m d.1,
  )
]

Distinct-add_each :
    (step : ℤ → ℤ) (xs : List ℤ) (m : Counts)
    → Distinct (keys m)
    → Distinct (keys (add_each step xs m))
unfolding add_each
Distinct-add_each step [] m d = d
Distinct-add_each step (x ∷ xs) m d = Distinct-add_each step xs _ (Distinct-insert x _ m d)

lookup-out : (id : ℤ) (m : Counts) → ¬ In id (keys m) → lookup id m ≡ none
unfolding lookup keys
lookup-out id [] h = refl
lookup-out id (entry ∷ m) h = elim (Bool-cases (entry.0 == id)) [
  | inl same ↦ absurd (h (inl ((int_eqb_iff entry.0 id).0 same)))
  | inr other ↦ rw other (lookup-out id m (λ i. h (inr i)))
]

all_at :
    (entry : ℤ × ℤ) (m : Counts)
    → (all_zero m ≡ true → (id : ℤ) → count_of (lookup id m) ≡ pos 0)
    → all_zero (entry ∷ m) ≡ true
    → (id : ℤ) → count_of (lookup id (entry ∷ m)) ≡ pos 0
unfolding all_zero lookup
all_at entry m rest h id = elim (Bool-cases (entry.1 == pos 0)) [
  | inl zero_here ↦ elim (Bool-cases (entry.0 == id)) [
    | inl same ↦ rw same ((int_eqb_iff entry.1 (pos 0)).0 zero_here)
    | inr other ↦ rw other (rest (rw zero_here at h) id)
  ]
  | inr other ↦ absurd (cc (rw other at h))
]

both :
    (entry : ℤ × ℤ) (m : Counts)
    → (int_eqb entry.1 (pos 0) ≡ true) ↔ (entry.1 ≡ pos 0)
    → entry.1 ≡ pos 0
    → all_zero m ≡ true
    → all_zero (entry ∷ m) ≡ true
unfolding all_zero
both entry m f e h = rw (f.1 e) h

all_zero_iff :
    (m : Counts)
    → Distinct (keys m)
    → (all_zero m ≡ true) ↔ ((id : ℤ) → count_of (lookup id m) ≡ pos 0)
unfolding all_zero lookup keys
all_zero_iff [] d = ((λ h id. refl), (λ h. refl))
all_zero_iff (entry ∷ m) d =
    let rest = all_zero_iff m d.1 in
    (
      all_at entry m rest.0,
      (λ h. both entry m (int_eqb_iff entry.1 (pos 0)) (first h) (rest.1 (others h))),
    )
  where
    first : ((id : ℤ) → count_of (lookup id (entry ∷ m)) ≡ pos 0) → entry.1 ≡ pos 0
    first h = rw ((int_eqb_iff entry.0 entry.0).1 refl) at (h entry.0)

    others :
        ((id : ℤ) → count_of (lookup id (entry ∷ m)) ≡ pos 0)
        → (id : ℤ) → count_of (lookup id m) ≡ pos 0
    others h id = elim (Bool-cases (entry.0 == id)) [
      | inl same ↦
          let at = (int_eqb_iff entry.0 id).0 same in
          rw (lookup-out id m (λ i. d.0 (subst (λ x. In x (keys m)) (sym at) i))) refl
      | inr other ↦ rw other at (h id)
    ]

-- Both loops, from the empty map.
balance : List ℤ → List ℤ → Counts
balance a b = add_each pred_int b (add_each succ_int a [])

balance_iff :
    (a b : List ℤ) (id : ℤ)
    → (count_of (lookup id (balance a b)) ≡ pos 0) ↔ (count id a ≡ count id b)
unfolding balance lookup
balance_iff a b id =
    let up : count_of (lookup id (add_each succ_int a [])) ≡ pos (count id a) =
      add_each-at succ_int a [] id ∙ times-succ (count id a) 0 ∙ ap pos (omega arith) in
    let down : count_of (lookup id (balance a b)) ≡ times (count id b) pred_int (pos (count id a)) =
      add_each-at pred_int b (add_each succ_int a []) id ∙ ap (times (count id b) pred_int) up in
    rw down (times-pred_iff (count id b) (count id a))

-- `sameInboundIDs` returns true exactly where the two lists have the same length and every id stands in
-- both equally often.
pub same_inbound_ids_iff :
    (a b : List ℤ)
    → (same_inbound_ids a b ≡ true) ↔ ((length a ≡ length b) × ((id : ℤ) → count id a ≡ count id b))
unfolding same_inbound_ids balance keys
same_inbound_ids_iff a b =
    let zeros =
      all_zero_iff (balance a b)
        (Distinct-add_each pred_int b _ (Distinct-add_each succ_int a [] tt)) in
    elim (Bool-cases (nat_eqb (length a) (length b))) [
      | inl same ↦ rw same (
        (λ h. (
          (nat_eqb_iff (length a) (length b)).0 same,
          λ id. (balance_iff a b id).0 (zeros.0 h id),
        )),
        (λ h. zeros.1 (λ id. (balance_iff a b id).1 (h.1 id))),
      )
      | inr other ↦ rw other ((λ h. cc), (λ h. cc ((nat_eqb_iff (length a) (length b)).1 h.0)))
    ]
