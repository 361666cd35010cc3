-- ===== src/Nodes/Service.antt =====
-- internal/service/nodes/service.go, internal/handlers/node_save and internal/handlers/node_delete. The
-- repository acts on a world `W`.
use subgen.Prelude.Int.{ℤ, pos, int_eq, int_ltb}
use subgen.Prelude.Text.{trim_space, concat}
use subgen.Prelude.{
  String, Bool, not, List, [], ◌∷◌, Option, none, some, Result, ok, err, ◌==◌, string_eq,
  if◌then◌else◌,
}
use subgen.Entity.Node.{Node, Inbound, Hysteria2Settings}
use subgen.Nodes.Text.{Url}
use subgen.Nodes.Validate.{NodeError, validate_node}

-- nodesRepo
pub record NodesRepo (W : Type 0) : Type 0 where
  pub create : Node → W → Result NodeError ℤ × W
  pub update : ℤ → Node → Bool → W → Result NodeError (Unit {0}) × W
  pub delete : ℤ → W → Result NodeError (Unit {0}) × W

-- The inputs of the operation nodeSave; an absent field is none.
pub record SettingsReq : Type 0 where
  pub password : Option String
  pub obfs : Option String
  pub obfs_password : Option String
  pub sni : Option String
  pub up : Option String
  pub down : Option String

pub record InboundReq : Type 0 where
  pub id : Option ℤ
  pub name : String
  pub port : ℤ
  pub kind : Option String
  pub hysteria2 : Option SettingsReq

pub record NodeReq : Type 0 where
  pub id : Option ℤ
  pub name : String
  pub vpn_host : String
  pub panel_base_url : String
  pub panel_base_path : String
  pub token : Option String
  pub inbounds : List InboundReq

-- A response with its text; `failed` is an error that is returned and becomes a 500.
pub data Response : Type 0 where
  message bad_request conflict : String → Response
  failed : NodeError → Response

abbrev or_text : Option String → String
or_text none = ""
or_text (some s) = s

abbrev or_zero : Option ℤ → ℤ
or_zero none = pos 0
or_zero (some i) = i

unfoldable pub settings_of : Option SettingsReq → Hysteria2Settings
unfolding trim_space
settings_of none = record {
  password = "";
  obfs = "";
  obfs_password = "";
  sni = "";
  up = "";
  down = "";
}
settings_of (some h) = record {
  password = trim_space (or_text h.password);
  obfs = trim_space (or_text h.obfs);
  obfs_password = trim_space (or_text h.obfs_password);
  sni = trim_space (or_text h.sni);
  up = trim_space (or_text h.up);
  down = trim_space (or_text h.down);
}

-- The kind that the request gives, or the default.
abbrev kind_of : Option String → String
kind_of none = "vless"
kind_of (some k) = if k == "" then "vless" else k

abbrev inbound_of : InboundReq → Inbound
inbound_of r = record {
  id = or_zero r.id;
  name = trim_space r.name;
  port = r.port;
  kind = kind_of r.kind;
  hysteria2 = if kind_of r.kind == "hysteria2" then some (settings_of r.hysteria2) else none;
}

-- The loop of NodeSave; a row with the port 0 is blank.
unfoldable pub inbounds_of : List InboundReq → List Inbound
unfolding trim_space settings_of
inbounds_of [] = []
inbounds_of (r ∷ rs) =
    let rest = inbounds_of rs in if r.port == pos 0 then rest else inbound_of r ∷ rest

unfoldable pub node_of : NodeReq → Node
unfolding trim_space inbounds_of
node_of r = record {
  id = or_zero r.id;
  name = trim_space r.name;
  vpn_host = trim_space r.vpn_host;
  panel_base_url = trim_space r.panel_base_url;
  panel_base_path = trim_space r.panel_base_path;
  token = trim_space (or_text r.token);
  inbounds = inbounds_of r.inbounds;
}

-- mapErr of node_save
unfoldable pub save_error : NodeError → Response
save_error NodeError.name_taken = Response.conflict "A node with this name already exists"
save_error NodeError.inbound_duplicate =
    Response.conflict "Inbound name or port already taken on this node"
save_error NodeError.inbound_referenced =
    Response.bad_request "Inbound is in use — first detach users and rules from it"
save_error NodeError.name =
    Response.bad_request "Node name: allowed characters are a-z, 0-9, -, space and country flags"
save_error NodeError.host =
    Response.bad_request "VPN host address is invalid — expected a host or IP (no scheme or port)"
save_error NodeError.panel_url =
    Response.bad_request "3x-ui base URL is invalid — expected https://host:port (no path)"
save_error NodeError.base_path = Response.bad_request "Enter the panel base path (e.g. /secret/)"
save_error NodeError.no_inbounds = Response.bad_request "Add at least one inbound"
save_error NodeError.inbound_name =
    Response.bad_request "Inbound name: allowed characters are a-z, 0-9 and -"
save_error NodeError.inbound_port =
    Response.bad_request "Inbound port must be a number between 1 and 65535"
save_error NodeError.inbound_name_uq = Response.bad_request "Duplicate inbound name"
save_error NodeError.inbound_port_uq = Response.bad_request "Duplicate inbound port"
save_error NodeError.hysteria2_pass = Response.bad_request "Hysteria2 inbound requires a password"
save_error NodeError.inbound_kind = Response.bad_request "Inbound kind must be vless or hysteria2"
save_error NodeError.inbound_settings =
    Response.bad_request "Hysteria2 settings are missing, or set on a non-hysteria2 inbound"
save_error NodeError.hysteria2_obfs =
    Response.bad_request "Hysteria2 obfs must be \"salamander\" and paired with an obfs password"
save_error NodeError.hysteria2_band =
    Response.bad_request "Hysteria2 up/down must be a bandwidth, e.g. \"50 Mbps\""
save_error NodeError.hysteria2_sni =
    Response.bad_request "Hysteria2 SNI must be a valid host (no scheme or port)"
save_error NodeError.node_not_found = Response.failed NodeError.node_not_found
save_error (NodeError.store_failed s) = Response.failed (NodeError.store_failed s)

-- The switch of NodeDelete
unfoldable pub delete_error : NodeError → Response
delete_error NodeError.node_not_found = Response.bad_request "Node not found"
delete_error NodeError.inbound_referenced =
    Response.bad_request "Node is in use — first detach its inbounds from users and rules"
delete_error e = Response.failed e

module _ {W : Type 0} (repo : NodesRepo W) where
  abbrev pub with_id : ℤ → Result NodeError (Unit {0}) × W → Result NodeError ℤ × W
  with_id id (err e, w) = (err e, w)
  with_id id (ok u, w) = (ok id, w)

  abbrev pub store : Result NodeError Node → W → Result NodeError ℤ × W
  store (err e) w = (err e, w)
  store (ok n) w =
      if int_ltb (pos 0) n.id
      then with_id n.id (repo.update n.id n (not (n.token == "")) w)
      else repo.create n w

  module _ (is_ip : String → Bool) (atoi : String → Option ℤ) (parse : String → Option Url) where
    -- Service.Save
    unfoldable pub save : Node → W → Result NodeError ℤ × W
    unfolding validate_node
    save n w = store (validate_node is_ip atoi parse n) w

    abbrev pub saved : String → Result NodeError ℤ × W → Response × W
    saved name (err e, w) = (save_error e, w)
    saved name (ok id, w) = (Response.message (concat ("Node saved: " ∷ name ∷ [])), w)

    -- Handler.NodeSave
    unfoldable pub node_save : NodeReq → W → Response × W
    unfolding save save_error node_of concat
    node_save r w = saved (node_of r).name (save (node_of r) w)

  abbrev deleted : Result NodeError (Unit {0}) × W → Response × W
  deleted (err e, w) = (delete_error e, w)
  deleted (ok u, w) = (Response.message "Node deleted", w)

  -- Service.Delete and Handler.NodeDelete
  unfoldable pub node_delete : ℤ → W → Response × W
  unfolding delete_error
  node_delete id w = deleted (repo.delete id w)
