-- ===== src/Provision/Sync/Grouped.antt =====
-- The maps that `syncPanels` groups by node, against a count without the code.
use subgen.Prelude.Int.{ℤ, int_eq, int_eqb_iff}
use subgen.Prelude.Lists.{length, In}
use subgen.Prelude.Maps.{lookup, insert, lookup-insert, keys, keys-insert}
use subgen.Prelude.{
  ℕ, suc, String, Bool, true, List, [], ◌∷◌, ◌++◌, ◌==◌, if◌then◌else◌, ◌≡◌, refl, ap, ◌∙◌, ◌+◌,
  ◌<◌, ◌⊎◌, arith, Bool-cases, inl, inr,
}
use subgen.Entity.Node.{is_hysteria2_kind}
use subgen.Entity.User.{Connection}
use subgen.Provision.Targets.{ConnTarget}
use subgen.Provision.Sync.{group_by_node, desired_by_node, old_by_node, or_nil, touched}

length-snoc : {T : Type 0} (ts : List T) (t : T) → length (ts ++ t ∷ []) ≡ suc (length ts)
length-snoc [] t = refl
length-snoc (x ∷ xs) t = ap suc (length-snoc xs t)

module _ {T : Type 0} (node_id : T → ℤ) (kind : T → String) where
  -- How many elements are on the node and are not hysteria2.
  unfoldable pub provisioned_on : ℤ → List T → ℕ
  provisioned_on id [] = 0
  provisioned_on id (t ∷ ts) =
      let rest = provisioned_on id ts in
      if is_hysteria2_kind (kind t) then rest else if node_id t == id then suc rest else rest

  -- One step of the loop for a value that is kept.
  insert_step :
      (id : ℤ) (t : T) (m : List (ℤ × List T)) (n : ℕ)
      → length (or_nil (lookup id (insert (node_id t) (or_nil (lookup (node_id t) m) ++ t ∷ []) m)))
          + n
        ≡ length (or_nil (lookup id m)) + (if node_id t == id then suc n else n)
  insert_step id t m n =
      let found = lookup-insert (node_id t) id (or_nil (lookup (node_id t) m) ++ t ∷ []) m in
      elim (Bool-cases (node_id t == id)) [
        | inl same ↦
            let at = (int_eqb_iff (node_id t) id).0 same in
            let grown = length-snoc (or_nil (lookup (node_id t) m)) t in
            rw (found, same, grown, at) omega arith
        | inr other ↦ rw (found, other) refl
      ]

  pub group_length :
      (id : ℤ) (ts : List T) (m : List (ℤ × List T))
      → length (or_nil (lookup id (group_by_node node_id kind ts m)))
        ≡ length (or_nil (lookup id m)) + provisioned_on id ts
  unfolding group_by_node provisioned_on
  group_length id [] m = omega arith
  group_length id (t ∷ ts) m = elim (Bool-cases (is_hysteria2_kind (kind t))) [
    | inl passed ↦ rw passed (group_length id ts m)
    | inr kept ↦
        let m' = insert (node_id t) (or_nil (lookup (node_id t) m) ++ t ∷ []) m in
        rw kept (group_length id ts m' ∙ insert_step id t m (provisioned_on id ts))
  ]

  insert-keys_step :
      (id : ℤ) (t : T) (v : List T) (m : List (ℤ × List T)) (n : ℕ)
      → In id (keys (insert (node_id t) v m)) ⊎ (0 < n)
      → In id (keys m) ⊎ (0 < (if node_id t == id then suc n else n))
  insert-keys_step id t v m n (inr p) = inr (ground arith)
  insert-keys_step id t v m n (inl h) = elim (keys-insert (node_id t) id v m h) [
    | inl same ↦ let found = (int_eqb_iff (node_id t) id).1 same in inr (ground arith)
    | inr old ↦ inl old
  ]

  -- A key of the grouped map is an old key, or a node of some element that is kept.
  pub group_keys :
      (id : ℤ) (ts : List T) (m : List (ℤ × List T))
      → In id (keys (group_by_node node_id kind ts m))
      → In id (keys m) ⊎ (0 < provisioned_on id ts)
  unfolding group_by_node provisioned_on
  group_keys id [] m h = inl h
  group_keys id (t ∷ ts) m h = elim (Bool-cases (is_hysteria2_kind (kind t))) [
    | inl passed ↦ rw passed (group_keys id ts m (rw passed at h))
    | inr kept ↦
        let v = or_nil (lookup (node_id t) m) ++ t ∷ [] in
        let m' = insert (node_id t) v m in
        rw kept
          (insert-keys_step id t v m (provisioned_on id ts) (group_keys id ts m' (rw kept at h)))
  ]

-- The inbounds of a node that `syncPanels` provisions, and those that it did before.
abbrev pub wanted_on : ℤ → List ConnTarget → ℕ
wanted_on id desired = provisioned_on (λ t. t.node_id) (λ t. t.kind) id desired

abbrev pub had_on : ℤ → List Connection → ℕ
had_on id old = provisioned_on (λ c. c.node_id) (λ c. c.kind) id old

pub length-desired_by_node :
    (id : ℤ) (desired : List ConnTarget)
    → length (or_nil (lookup id (desired_by_node desired))) ≡ wanted_on id desired
unfolding desired_by_node
length-desired_by_node id desired =
    let h = group_length (λ t. t.node_id) (λ t. t.kind) id desired [] in omega arith

pub length-old_by_node :
    (id : ℤ) (old : List Connection) → length (or_nil (lookup id (old_by_node old))) ≡ had_on id old
unfolding old_by_node
length-old_by_node id old =
    let h = group_length (λ c. c.node_id) (λ c. c.kind) id old [] in omega arith

-- A node that is touched has or had some provisioned inbound.
touched-keys :
    (id : ℤ) (ts : List (ℤ × List ConnTarget)) (cs : List (ℤ × List Connection))
    (m : List (ℤ × Bool))
    → In id (keys (touched ts cs m))
    → In id (keys ts) ⊎ In id (keys cs) ⊎ In id (keys m)
unfolding touched keys
touched-keys id [] [] m h = inr (inr h)
touched-keys id [] (c ∷ cs) m h = elim (touched-keys id [] cs (insert c.0 true m) h) [
  | inl i ↦ absurd i
  | inr (inl i) ↦ inr (inl (inr i))
  | inr (inr i) ↦ elim (keys-insert c.0 id true m i) [
    | inl e ↦ inr (inl (inl e))
    | inr j ↦ inr (inr j)
  ]
]
touched-keys id (t ∷ ts) cs m h = elim (touched-keys id ts cs (insert t.0 true m) h) [
  | inl i ↦ inl (inr i)
  | inr (inl i) ↦ inr (inl i)
  | inr (inr i) ↦ elim (keys-insert t.0 id true m i) [ inl e ↦ inl (inl e) | inr j ↦ inr (inr j) ]
]

pub touched_positive :
    (id : ℤ) (old : List Connection) (desired : List ConnTarget)
    → In id (keys (touched (desired_by_node desired) (old_by_node old) []))
    → 0 < had_on id old + wanted_on id desired
unfolding desired_by_node old_by_node keys
touched_positive id old desired h = elim (touched-keys id _ _ [] h) [
  | inl t ↦ elim (group_keys (λ t. t.node_id) (λ t. t.kind) id desired [] t) [
    | inl i ↦ absurd i
    | inr p ↦ omega arith
  ]
  | inr (inl c) ↦ elim (group_keys (λ c. c.node_id) (λ c. c.kind) id old [] c) [
    | inl i ↦ absurd i
    | inr p ↦ omega arith
  ]
  | inr (inr i) ↦ absurd i
]
