-- ===== src/Provision/Service.antt =====
-- internal/service/provisioning/service.go: the guard of new panels, and the operations on users.
pub mod Calls
pub mod Guard
use subgen.Prelude.Int.{ℤ, pos, int_eq}
use subgen.Prelude.Maps.{lookup}
use subgen.Prelude.{
  String, Bool, true, false, ◌||◌, List, [], ◌∷◌, map, Option, none, some, Result, ok, err, ◌==◌,
  string_eq,
}
use subgen.Entity.Node.{Node}
use subgen.Entity.Panel.{PanelTarget, PanelInbound, PanelClient, target}
use subgen.Entity.User.{User, Connection, UserCreateParams, UserEditParams}
use subgen.Provision.Act.{
  Backend, Act, Call, Error, State, pure, lift, attempt, silently, random, recorded, continue,
  ◌>>=◌, ◌>>◌,
}
use subgen.Provision.Targets.{
  NodesById, InboundsById, ConnTarget, validate_name, validate_description, node_index,
  desired_targets, node_ids, conn_node_ids, added_node_ids, target_inbound_ids,
}
use subgen.Provision.Sync.{list_inbounds, del_client, sync_panels}

pub has_client : List PanelClient → String → Bool
has_client [] email = false
has_client (c ∷ cs) email = c.email == email || has_client cs email

-- The loops of emailExistsOnPanel.
unfoldable pub hosts_email : List PanelInbound → String → Bool
unfolding has_client
hosts_email [] email = false
hosts_email (i ∷ is) email = has_client i.clients email || hosts_email is email

abbrev pub refuse_if : Bool → Error → Result Error (Unit {0})
refuse_if true e = err e
refuse_if false e = ok tt

-- if len(ids) == 0 { return entity.ErrNoConnectionSelected }
abbrev selected : List ℤ → Result Error (Unit {0})
selected [] = err Error.no_connection_selected
selected (id ∷ ids) = ok tt

abbrev connection_to : ConnTarget → Connection
connection_to t = record {
  id = pos 0;
  user_id = pos 0;
  inbound_id = t.inbound_id;
  created_at = pos 0;
  node_id = pos 0;
  node = "";
  name = "";
  port = pos 0;
  kind = "";
}

-- The user that is stored, and what users.Create sets in it.
abbrev pub new_user : String → String → Option String → List ConnTarget → User
new_user name sub_id desc targets = record {
  id = pos 0;
  name = name;
  sub_id = sub_id;
  description = desc;
  created_at = pos 0;
  connections = map connection_to targets;
}

abbrev pub as_stored : User → ℤ × List Connection → User
as_stored u stored = record u { id = stored.0; connections = stored.1 }

abbrev pub target_to : Connection → ConnTarget
target_to c = record {
  node_id = c.node_id;
  node = c.node;
  port = c.port;
  inbound_id = c.inbound_id;
  kind = c.kind;
}

module _ {W : Type 0} (b : Backend W) where
  -- emailExistsOnPanel
  unfoldable pub email_exists_on_panel : PanelTarget → String → Act W Bool
  unfolding list_inbounds hosts_email
  email_exists_on_panel t email = do inbounds ← list_inbounds b t; pure (hosts_email inbounds email)

  -- The body of the loop of ensureEmailFree.
  unfoldable pub panel_is_free : Option Node → String → Act W (Unit {0})
  unfolding email_exists_on_panel target
  panel_is_free none email = lift (err Error.node_not_found)
  panel_is_free (some n) email = do
    exists ← email_exists_on_panel (target n) email
    lift (refuse_if exists (Error.panel_client_exists n.name))

  -- ensureEmailFree
  unfoldable pub ensure_email_free : NodesById → List ℤ → String → Act W (Unit {0})
  unfolding panel_is_free lookup
  ensure_email_free by_id [] email = pure tt
  ensure_email_free by_id (id ∷ ids) email = do
    panel_is_free (lookup id by_id) email
    ensure_email_free by_id ids email

  -- nodeIndex
  unfoldable pub load_node_index : Act W (NodesById × InboundsById)
  unfolding node_index
  load_node_index = do nodes ← silently b.nodes_list; pure (node_index nodes [] [])

  -- CreateUser, for `to_lower`, strings.ToLower: the stored user, and the error of the panels.
  unfoldable pub create_user :
      (String → String) → UserCreateParams → Act W (User × Result Error (Unit {0}))
  unfolding validate_name validate_description load_node_index desired_targets ensure_email_free
      node_ids sync_panels
  create_user to_lower p = do
    name ← lift (validate_name to_lower p.name)
    lift (selected p.inbound_ids)
    desc ← lift (validate_description p.description)
    index ← load_node_index
    targets ← lift (desired_targets index.1 [] p.inbound_ids)
    ensure_email_free index.0 (node_ids targets) name
    sub_id ← random (b.gen_id 16)
    let u = new_user name sub_id desc targets
    stored ← recorded (Call.user_created u) (b.users_create u)
    let u = as_stored u stored
    synced ← attempt (sync_panels b index.0 u [] targets false)
    pure (u, synced)

  -- EditUser, after the user was read
  unfoldable pub edit_found : List ℤ → Option String → User → Act W (Unit {0})
  unfolding load_node_index desired_targets ensure_email_free added_node_ids sync_panels
  edit_found inbound_ids desc u = do
    index ← load_node_index
    desired ← lift (desired_targets index.1 [] inbound_ids)
    ensure_email_free index.0 (added_node_ids u.connections desired) u.name
    let ids = target_inbound_ids desired
    recorded (Call.connections_replaced u.id ids) (b.users_replace_connections u.id ids)
    recorded (Call.description_set u.id desc) (b.users_set_description u.id desc)
    sync_panels b index.0 u u.connections desired false

  -- EditUser
  unfoldable pub edit_user : UserEditParams → Act W (Unit {0})
  unfolding validate_description edit_found
  edit_user p = do
    lift (selected p.inbound_ids)
    desc ← lift (validate_description p.description)
    u ← silently (b.users_get p.id)
    edit_found p.inbound_ids desc u

  abbrev drop_from : Option Node → User → Act W (Unit {0})
  drop_from none u = pure tt
  drop_from (some n) u = do attempt (del_client b (target n) u.name); pure tt

  -- The loop of DeleteUser.
  unfoldable pub drop_from_nodes : NodesById → User → List ℤ → Act W (Unit {0})
  unfolding del_client target lookup
  drop_from_nodes by_id u [] = pure tt
  drop_from_nodes by_id u (id ∷ ids) = do drop_from (lookup id by_id) u; drop_from_nodes by_id u ids

  -- DeleteUser
  unfoldable pub delete_user : ℤ → Act W (Unit {0})
  unfolding load_node_index drop_from_nodes conn_node_ids
  delete_user id = do
    u ← silently (b.users_get id)
    index ← load_node_index
    drop_from_nodes index.0 u (conn_node_ids u.connections)
    recorded (Call.user_deleted id) (b.users_delete id)

  -- RecreateUser
  unfoldable pub recreate_user : ℤ → Act W (Unit {0})
  unfolding load_node_index sync_panels
  recreate_user id = do
    u ← silently (b.users_get id)
    index ← load_node_index
    sync_panels b index.0 u u.connections (map target_to u.connections) true
