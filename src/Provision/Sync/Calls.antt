-- ===== src/Provision/Sync/Calls.antt =====
-- Which calls `syncPanels` makes.
use subgen.Prelude.Int.{ℤ, int_eq}
use subgen.Prelude.Lists.{length, All, All-of, In}
use subgen.Prelude.Maps.{lookup}
use subgen.Prelude.{
  ℕ, suc, String, Bool, true, false, ◌||◌, not, List, [], ◌∷◌, Option, none, some, Result, ok, err,
  ◌≡◌, refl, ◌+◌, ◌<◌, arith, inl, inr, ◌⊎◌,
}
use subgen.Entity.Node.{Node}
use subgen.Entity.Panel.{PanelTarget, ClientSpec, target}
use subgen.Entity.User.{User, Connection}
use subgen.Provision.Act.{Backend, State, Act, Call, Error}
use subgen.Provision.Keeps.{
  Keeps, Keeps-pure, Keeps-lift, Keeps-attempt, Keeps-random, Keeps-recorded, Keeps-bind, Keeps-if,
}
use subgen.Provision.Targets.{NodesById, ConnTarget}
use subgen.Provision.Sync.{
  desired_by_node, old_by_node, wanted_ids, with_id, Panel, is_nil, list_inbounds, add_client,
  del_client, panel_lookup, reclaim, add_wanted, rebind, drop_client, read_and_rebind, sync_node,
  sync_nodes, sync_panels,
}
use subgen.Provision.Sync.Grouped.{
  wanted_on, had_on, length-desired_by_node, length-old_by_node, touched_positive,
}

-- `t` is the panel of a registered node with some property.
abbrev pub AtNode : NodesById → (ℤ → Type 0) → PanelTarget → Type 0
AtNode by_id P t = (id : ℤ) × (n : Node) × (lookup id by_id ≡ some n) × (t ≡ target n) × P id

-- The user had, or under force has, an inbound on the node.
abbrev pub Ours : List Connection → List ConnTarget → Bool → ℤ → Type 0
Ours old desired force id = (0 < had_on id old) ⊎ ((force ≡ true) × (0 < wanted_on id desired))

-- The calls that `syncPanels` may make: it reads panels of nodes where inbounds are wanted, deletes
-- the user's client where it is ours, and adds it with as many inbounds as are wanted.
unfoldable pub Allowed : NodesById → User → List Connection → List ConnTarget → Bool → Call → Type 0
Allowed by_id u old desired force (Call.listed t) = AtNode by_id (λ id. 0 < wanted_on id desired) t
Allowed by_id u old desired force (Call.deleted t email) =
    (email ≡ u.name) × AtNode by_id (Ours old desired force) t
Allowed by_id u old desired force (Call.added t ids spec) =
    (spec.email ≡ u.name)
    × (spec.sub_id ≡ u.sub_id)
    × (0 < length ids)
    × AtNode by_id (λ id. length ids ≡ wanted_on id desired) t
Allowed by_id u old desired force _ = ⊥

length-with_id :
    (port : ℤ) (o : Option ℤ) (r : Result ℤ (List ℤ)) (n : ℕ) {ids : List ℤ}
    → ((js : List ℤ) → r ≡ ok js → length js ≡ n)
    → with_id port o r ≡ ok ids
    → length ids ≡ suc n
length-with_id port none r n k h = cc
length-with_id port (some id) (err e) n k h = cc
length-with_id port (some id) (ok js) n k h = cc (k js refl)

length-wanted_ids :
    (m : List (ℤ × ℤ)) (want : List ConnTarget) {ids : List ℤ}
    → wanted_ids m want ≡ ok ids
    → length ids ≡ length want
unfolding wanted_ids
length-wanted_ids m [] h = cc
length-wanted_ids m (w ∷ ws) h =
    length-with_id w.port (lookup w.port m) (wanted_ids m ws) (length ws)
      (λ js. length-wanted_ids m ws) h

module _ {W : Type 0} (b : Backend W) (by_id : NodesById) (u : User) (old : List Connection)
    (desired : List ConnTarget) (force : Bool) (Q : Call → Type 0)
    (allow : (c : Call) → Allowed by_id u old desired force c → Q c) where
  -- The parts keep what follows from `Allowed`.
  abbrev Ok : {A : Type 0} → Act W A → Type 0
  Ok m = Keeps Q m

  -- Of a node that is registered, its part of the calls.
  module _ (id : ℤ) (n : Node) (known : lookup id by_id ≡ some n) where
    Ok-drop : 0 < had_on id old → Ok (drop_client b n u)
    unfolding drop_client del_client Allowed
    Ok-drop h =
        let p : Allowed by_id u old desired force (Call.deleted (target n) u.name) =
          (refl, (id, n, known, refl, inl h)) in
        Keeps-bind _ _ _ (Keeps-attempt _ _ (Keeps-recorded _ _ _ (allow _ p)))
          (λ r. Keeps-pure _ _ _)

    Ok-add :
        (cid : String) (r : Result ℤ (List ℤ))
        → ((ids : List ℤ) → r ≡ ok ids → (0 < length ids) × (length ids ≡ wanted_on id desired))
        → Ok (add_wanted b n u cid r)
    unfolding add_wanted add_client Allowed
    Ok-add cid (err port) h = Keeps-pure _ _ _
    Ok-add cid (ok ids) h =
        let spec : ClientSpec = record { id = cid; email = u.name; flow = ""; sub_id = u.sub_id } in
        let (some_wanted, all_wanted) = h ids refl in
        let p : Allowed by_id u old desired force (Call.added (target n) ids spec) =
          (refl, refl, some_wanted, (id, n, known, refl, all_wanted)) in
        Keeps-bind _ _ _ (Keeps-attempt _ _ (Keeps-recorded _ _ _ (allow _ p)))
          (λ r. Keeps-pure _ _ _)

    Ok-reclaim :
        (ours : Bool) (existing : Option String)
        → (ours ≡ true → Ours old desired force id)
        → Ok (reclaim b (target n) u.name ours existing)
    unfolding reclaim del_client Allowed
    Ok-reclaim false existing h = Keeps-random _ _
    Ok-reclaim true existing h =
        let p : Allowed by_id u old desired force (Call.deleted (target n) u.name) =
          (refl, (id, n, known, refl, h refl)) in
        Keeps-bind _ _ _ (Keeps-random _ _) (λ fresh.
          Keeps-bind _ _ _ (Keeps-attempt _ _ (Keeps-recorded _ _ _ (allow _ p)))
            (λ r. Keeps-pure _ _ _))

    Ok-rebind :
        (ours : Bool) (want : List ConnTarget) (panel : Result Error Panel)
        → (ours ≡ true → Ours old desired force id)
        → 0 < length want
        → length want ≡ wanted_on id desired
        → Ok (rebind b n u ours want panel)
    unfolding rebind
    Ok-rebind ours want (err e) h some_wanted all_wanted = Keeps-pure _ _ _
    Ok-rebind ours want (ok (ids, uuids)) h some_wanted all_wanted =
        Keeps-bind _ _ _ (Ok-reclaim ours _ h) (λ cid.
          Ok-add cid _
            (λ js e. let counted = length-wanted_ids ids want e in (omega arith, omega arith)))

    Ok-read :
        (ours : Bool) (want : List ConnTarget)
        → (ours ≡ true → Ours old desired force id)
        → 0 < length want
        → length want ≡ wanted_on id desired
        → Ok (read_and_rebind b n u ours want)
    unfolding read_and_rebind panel_lookup list_inbounds Allowed
    Ok-read ours want h some_wanted all_wanted =
        let p : Allowed by_id u old desired force (Call.listed (target n)) =
          (id, n, known, refl, omega arith) in
        Keeps-bind _ _ _
          (Keeps-attempt _ _
            (Keeps-bind _ _ _ (Keeps-recorded _ _ _ (allow _ p)) (λ r. Keeps-pure _ _ _)))
          (λ panel. Ok-rebind ours want panel h some_wanted all_wanted)

  -- A panel with a wanted inbound is ours if the user had one there, or under force.
  ours :
      (id : ℤ) (had : List Connection)
      → length had ≡ had_on id old
      → 0 < wanted_on id desired
      → (not (is_nil had) || force) ≡ true
      → Ours old desired force id
  ours id [] h w f = inr (f, w)
  ours id (c ∷ cs) h w f = inl (omega arith)

  Ok-node :
      (id : ℤ) (o : Option Node) (had : List Connection) (want : List ConnTarget)
      → lookup id by_id ≡ o
      → length had ≡ had_on id old
      → length want ≡ wanted_on id desired
      → 0 < had_on id old + wanted_on id desired
      → Ok (sync_node b u force id o had want)
  unfolding sync_node
  Ok-node id none had want known h w t = Keeps-pure _ _ _
  Ok-node id (some n) had [] known h w t = Ok-drop id n known (omega arith)
  Ok-node id (some n) had (x ∷ xs) known h w t = Keeps-if _ _ _ _ (Keeps-pure _ _ _) (
      Ok-read id n known (not (is_nil had) || force) (x ∷ xs) (ours id had h (omega arith))
        (omega arith) w)

  Ok-nodes :
      (ids : List ℤ)
      → All (λ id. 0 < had_on id old + wanted_on id desired) ids
      → Ok (sync_nodes b by_id u (old_by_node old) (desired_by_node desired) force ids)
  unfolding sync_nodes
  Ok-nodes [] h = Keeps-pure _ _ _
  Ok-nodes (id ∷ ids) h =
      Keeps-bind _ _ _
        (Ok-node id (lookup id by_id) _ _ refl (length-old_by_node id old)
          (length-desired_by_node id desired) h.0)
        (λ fs. Keeps-bind _ _ _ (Ok-nodes ids h.1) (λ rest. Keeps-pure _ _ _))

  pub Keeps-sync_panels :
      ((ids : List ℤ) (id : ℤ) → In id (b.visit_order ids) → In id ids)
      → Ok (sync_panels b by_id u old desired force)
  unfolding sync_panels
  Keeps-sync_panels visits =
      Keeps-bind _ _ _
        (Ok-nodes _ (All-of _ _ (λ id i. touched_positive id old desired (visits _ id i))))
        (λ fs. Keeps-lift _ _ _)

-- Whatever the panels answer, and in whichever order the nodes are visited, as long as each node that is
-- visited is a key of the map: every call of `syncPanels` either lists the inbounds of a registered
-- node on which a non-hysteria2 inbound is wanted; or deletes the client with the user's name, on a
-- registered node where the user had such an inbound or, under force, has one; or adds a client with
-- the user's name and subscription id, on a registered node, to as many inbounds as such inbounds
-- are wanted there, and at least one.
pub sync_panels_calls :
    {W : Type 0} (b : Backend W) (by_id : NodesById) (u : User) (old : List Connection)
    (desired : List ConnTarget) (force : Bool) (s : State W)
    → ((ids : List ℤ) (id : ℤ) → In id (b.visit_order ids) → In id ids)
    → s.calls ≡ []
    → All (Allowed by_id u old desired force) ((sync_panels b by_id u old desired force s).1).calls
unfolding Keeps
sync_panels_calls b by_id u old desired force s visits fresh =
    Keeps-sync_panels b by_id u old desired force (Allowed by_id u old desired force) (λ c h. h)
      visits s (rw fresh tt)
