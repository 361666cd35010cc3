-- ===== src/Provision/Sync.antt =====
-- internal/service/provisioning/service.go: `syncPanels` and what it and the guard read of a panel.
pub mod Grouped
pub mod Calls
use subgen.Prelude.Int.{ℤ, int_eq}
use subgen.Prelude.Maps.{lookup, insert, keys}
use subgen.Prelude.{
  String, Bool, true, false, ◌&&◌, ◌||◌, not, List, [], ◌∷◌, ◌++◌, map, Option, none, some, Result,
  ok, err, ◌==◌, string_eq, if◌then◌else◌,
}
use subgen.Entity.Node.{Node, is_hysteria2_kind}
use subgen.Entity.Panel.{PanelTarget, PanelInbound, PanelClient, ClientSpec, nil_uuid, target}
use subgen.Entity.User.{User, Connection}
use subgen.Provision.Act.{
  Backend, State, Act, Call, Failure, Error, pure, lift, attempt, silently, random, recorded,
  continue, ◌>>=◌, ◌>>◌,
}
use subgen.Provision.Targets.{
  NodesById, ConnTarget, same_inbound_ids, conn_inbound_ids, target_inbound_ids,
}

abbrev pub or_nil : {T : Type 0} → Option (List T) → List T
or_nil none = []
or_nil (some ts) = ts

-- The loops that fill desiredByNode and oldByNode: hysteria2 is passed over.
unfoldable pub group_by_node :
    {T : Type 0} → (T → ℤ) → (T → String) → List T → List (ℤ × List T) → List (ℤ × List T)
unfolding lookup insert
group_by_node node_id kind [] m = m
group_by_node node_id kind (t ∷ ts) m = group_by_node node_id kind ts (
    if is_hysteria2_kind (kind t)
    then m
    else insert (node_id t) (or_nil (lookup (node_id t) m) ++ t ∷ []) m)

unfoldable pub desired_by_node : List ConnTarget → List (ℤ × List ConnTarget)
unfolding group_by_node
desired_by_node desired = group_by_node (λ t. t.node_id) (λ t. t.kind) desired []

unfoldable pub old_by_node : List Connection → List (ℤ × List Connection)
unfolding group_by_node
old_by_node old = group_by_node (λ c. c.node_id) (λ c. c.kind) old []

-- The keys of `touched`.
unfoldable pub touched :
    List (ℤ × List ConnTarget) → List (ℤ × List Connection) → List (ℤ × Bool) → List (ℤ × Bool)
unfolding insert
touched [] [] m = m
touched [] (c ∷ cs) m = touched [] cs (insert c.0 true m)
touched (t ∷ ts) cs m = touched ts cs (insert t.0 true m)

-- The loops of panelLookup.
unfoldable pub index_uuids : List PanelClient → List (String × String) → List (String × String)
unfolding insert
index_uuids [] m = m
index_uuids (c ∷ cs) m = index_uuids cs (if c.uuid == nil_uuid then m else insert c.email c.uuid m)

abbrev pub Panel : Type 0
Panel = List (ℤ × ℤ) × List (String × String)

unfoldable pub index_panel : List PanelInbound → List (ℤ × ℤ) → List (String × String) → Panel
unfolding insert index_uuids
index_panel [] ids uuids = (ids, uuids)
index_panel (i ∷ is) ids uuids =
    index_panel is (insert i.port i.id ids) (index_uuids i.clients uuids)

-- The panel's ids of the wanted inbounds, or the first port that the panel lacks.
abbrev pub with_id : ℤ → Option ℤ → Result ℤ (List ℤ) → Result ℤ (List ℤ)
with_id port none rest = err port
with_id port (some id) (ok ids) = ok (id ∷ ids)
with_id port (some id) (err missing) = err missing

unfoldable pub wanted_ids : List (ℤ × ℤ) → List ConnTarget → Result ℤ (List ℤ)
unfolding lookup
wanted_ids id_by_port [] = ok []
wanted_ids id_by_port (w ∷ ws) =
    with_id w.port (lookup w.port id_by_port) (wanted_ids id_by_port ws)

abbrev pub is_nil : {T : Type 0} → List T → Bool
is_nil [] = true
is_nil (t ∷ ts) = false

-- What a failed call adds to `failures`.
abbrev pub failure : {A : Type 0} → Failure → Result Error A → List Failure
failure f (ok a) = []
failure f (err e) = f ∷ []

-- The existing uuid, or the fresh one.
abbrev pub existing : Option String → String → String
existing (some uuid) fresh = uuid
existing none fresh = fresh

module _ {W : Type 0} (b : Backend W) where
  unfoldable pub list_inbounds : PanelTarget → Act W (List PanelInbound)
  list_inbounds t = recorded (Call.listed t) (b.list_inbounds t)

  unfoldable pub add_client : PanelTarget → List ℤ → ClientSpec → Act W (Unit {0})
  add_client t ids spec = recorded (Call.added t ids spec) (b.add_client t ids spec)

  unfoldable pub del_client : PanelTarget → String → Act W (Unit {0})
  del_client t email = recorded (Call.deleted t email) (b.del_client t email)

  unfoldable pub panel_lookup : PanelTarget → Act W Panel
  unfolding list_inbounds index_panel
  panel_lookup t = do inbounds ← list_inbounds t; pure (index_panel inbounds [] [])

  -- The uuid to bind with; a client that is ours is deleted first.
  unfoldable pub reclaim : PanelTarget → String → Bool → Option String → Act W String
  unfolding del_client
  reclaim t email true known = do
    fresh ← random b.gen_uuid
    attempt (del_client t email)
    pure (existing known fresh)
  reclaim t email false known = random b.gen_uuid

  unfoldable pub add_wanted : Node → User → String → Result ℤ (List ℤ) → Act W (List Failure)
  unfolding add_client target
  add_wanted n u cid (err port) = pure (Failure.no_inbound n.name port ∷ [])
  add_wanted n u cid (ok ids) = do
    added ← attempt (
        add_client (target n) ids
          (record { id = cid; email = u.name; flow = ""; sub_id = u.sub_id }))
    pure (failure (Failure.add_client_failed n.name) added)

  -- The re-bind, after the panel was read.
  unfoldable pub rebind :
      Node → User → Bool → List ConnTarget → Result Error Panel → Act W (List Failure)
  unfolding reclaim add_wanted wanted_ids lookup target
  rebind n u ours want (err e) = pure (Failure.list_inbounds_failed n.name ∷ [])
  rebind n u ours want (ok (id_by_port, uuid_by_email)) = do
    cid ← reclaim (target n) u.name ours (lookup u.name uuid_by_email)
    add_wanted n u cid (wanted_ids id_by_port want)

  unfoldable pub drop_client : Node → User → Act W (List Failure)
  unfolding del_client target
  drop_client n u = do
    deleted ← attempt (del_client (target n) u.name)
    pure (failure (Failure.del_client_failed n.name) deleted)

  unfoldable pub read_and_rebind : Node → User → Bool → List ConnTarget → Act W (List Failure)
  unfolding panel_lookup rebind target
  read_and_rebind n u ours want = do
    panel ← attempt (panel_lookup (target n))
    rebind n u ours want panel

  -- The body of the loop over `touched`; the result is what it adds to `failures`.
  unfoldable pub sync_node :
      User → Bool → ℤ → Option Node → List Connection → List ConnTarget → Act W (List Failure)
  unfolding read_and_rebind drop_client same_inbound_ids
  sync_node u force id none had want =
      pure (if is_nil want then [] else Failure.not_in_registry id ∷ [])
  sync_node u force id (some n) had want =
      if is_nil want
      then drop_client n u
      else if not force && same_inbound_ids (conn_inbound_ids had) (target_inbound_ids want)
      then pure []
      else read_and_rebind n u (not (is_nil had) || force) want

  unfoldable pub sync_nodes :
      NodesById
      → User
      → List (ℤ × List Connection)
      → List (ℤ × List ConnTarget)
      → Bool
      → List ℤ
      → Act W (List Failure)
  unfolding sync_node lookup
  sync_nodes by_id u had want force [] = pure []
  sync_nodes by_id u had want force (id ∷ ids) = do
    failures ←
        sync_node u force id (lookup id by_id) (or_nil (lookup id had)) (or_nil (lookup id want))
    rest ← sync_nodes by_id u had want force ids
    pure (failures ++ rest)

  abbrev pub report : List Failure → Result Error (Unit {0})
  report [] = ok tt
  report (f ∷ fs) = err (Error.sync_failed (f ∷ fs))

  -- syncPanels
  unfoldable pub sync_panels :
      NodesById → User → List Connection → List ConnTarget → Bool → Act W (Unit {0})
  unfolding sync_nodes desired_by_node old_by_node touched keys
  sync_panels by_id u old desired force = do
    let want = desired_by_node desired
    let had = old_by_node old
    failures ← sync_nodes by_id u had want force (b.visit_order (keys (touched want had [])))
    lift (report failures)
