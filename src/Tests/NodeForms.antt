-- ===== src/Tests/NodeForms.antt =====
-- A node form: what is accepted, refused and stored.
use subgen.Prelude.Int.{ℤ, pos}
use subgen.Prelude.{
  ◌≡◌, ◌≢◌, ◌↔◌, refl, String, Bool, true, false, List, [], ◌∷◌, Option, none, some, ok, err, ◌==◌,
  string_eq, if◌then◌else◌,
}
use subgen.Entity.Node.{Node, Inbound, inbound_label}
use subgen.Nodes.Text.{Url, is_host_or_ip, is_bandwidth, is_node_name, is_inbound_name}
use subgen.Nodes.Validate.{NodeError, normal_base_path, validate_node}
use subgen.Nodes.Accepts.{NodeShape, validate_node_iff}
use subgen.Nodes.Service.{NodesRepo, NodeReq, Response, bad_request, save_error, node_save}
use subgen.Nodes.Kept.{Storable, validate_node_idem, node_save-Inv}
use subgen.Nodes.Answers.{validate_node-Answered}
use subgen.Nodes.Label.{joined, inbound_label-clash}

abbrev is_ip : String → Bool
is_ip s = s == "10.0.0.1"

abbrev atoi : String → Option ℤ
atoi s = if s == "2053" then some (pos 2053) else none

abbrev panel_url : Url
panel_url = record {
  scheme = "https";
  host = "p.example:2053";
  path = "";
  raw_query = "";
  fragment = "";
  hostname = "p.example";
  port = "2053";
}

abbrev parse : String → Option Url
parse s = if s == "https://p.example:2053" then some panel_url else none

abbrev force : Inbound
force = record { id = pos 0; name = "force"; port = pos 443; kind = "vless"; hysteria2 = none }

abbrev node : Node
node = record {
  id = pos 0;
  name = "RU1";
  vpn_host = "10.0.0.1";
  panel_base_url = "https://p.example:2053";
  panel_base_path = "secret/";
  token = "";
  inbounds = force ∷ [];
}

abbrev stored_node : Node
stored_node = record node { panel_base_path = "/secret/" }

validate_runs :
    (validate_node is_ip atoi parse node ≡ ok stored_node)
    × (validate_node is_ip atoi parse (record node { inbounds = force ∷ force ∷ [] })
        ≡ err NodeError.inbound_name_uq)
    × (validate_node is_ip atoi parse
          (record node { inbounds = force ∷ (record force { name = "slow" }) ∷ [] })
        ≡ err NodeError.inbound_port_uq)
    × (validate_node is_ip atoi parse
          (record node { inbounds = (record force { port = pos 65536 }) ∷ [] })
        ≡ err NodeError.inbound_port)
    × (validate_node is_ip atoi parse (record node { name = "Москва" }) ≡ err NodeError.name)
unfolding validate_node
validate_runs = (refl, refl, refl, refl, refl)

text_runs :
    (is_host_or_ip is_ip "a.b-c.example" ≡ true)
    × (is_host_or_ip is_ip "a..example" ≡ false)
    × (is_host_or_ip is_ip "-a.example" ≡ false)
    × (is_bandwidth " 50 Mbps " ≡ true)
    × (is_bandwidth "50mb" ≡ false)
    × (is_node_name "🇷🇺 RU1" ≡ true)
    × (is_inbound_name "RU 1" ≡ false)
unfolding is_host_or_ip is_bandwidth is_node_name is_inbound_name
text_runs = (refl, refl, refl, refl, refl, refl, refl)

-- A repository that keeps the nodes it is given.
abbrev repo : NodesRepo (List Node)
repo = record {
  create = λ n w. (ok (pos 1), n ∷ w);
  update = λ id n set_token w. (ok tt, n ∷ w);
  delete = λ id w. (err NodeError.node_not_found, w);
}

abbrev form : NodeReq
form = record {
  id = none;
  name = " RU1 ";
  vpn_host = "10.0.0.1";
  panel_base_url = "https://p.example:2053";
  panel_base_path = "secret/";
  token = none;
  inbounds =
      record { id = none; name = "force"; port = pos 443; kind = none; hysteria2 = none }
      ∷ record { id = none; name = "blank"; port = pos 0; kind = none; hysteria2 = none }
      ∷ [];
}

node_save_runs :
    (node_save repo is_ip atoi parse form []
      ≡ (Response.message "Node saved: RU1", stored_node ∷ []))
    × (node_save repo is_ip atoi parse (record form { name = "" }) []
        ≡ (save_error NodeError.name, []))
unfolding node_save save_error
node_save_runs = (refl, refl)

validate_run : validate_node is_ip atoi parse node ≡ ok stored_node
unfolding validate_node
validate_run = refl

validate_node_iff_example : (validate_node is_ip atoi parse node ≡ ok stored_node) ↔ (
    NodeShape is_ip atoi parse node
    × ((record node { panel_base_path = normal_base_path node.panel_base_path }) ≡ stored_node))
validate_node_iff_example = validate_node_iff is_ip atoi parse node stored_node

validate_node_idem_example : validate_node is_ip atoi parse stored_node ≡ ok stored_node
validate_node_idem_example = validate_node_idem is_ip atoi parse node stored_node validate_run

refused_run :
    validate_node is_ip atoi parse (record node { inbounds = [] }) ≡ err NodeError.no_inbounds
unfolding validate_node
refused_run = refl

validate_node-Answered_example :
    (text : String) × (save_error NodeError.no_inbounds ≡ bad_request text)
validate_node-Answered_example =
    validate_node-Answered is_ip atoi parse (record node { inbounds = [] }) NodeError.no_inbounds
      refused_run

-- Every stored node is storable.
abbrev AllStorable : List Node → Type 0
AllStorable [] = Unit
AllStorable (n ∷ ns) = Storable is_ip atoi parse n × AllStorable ns

node_save-Inv_example : AllStorable ((node_save repo is_ip atoi parse form []).1)
node_save-Inv_example =
    node_save-Inv is_ip atoi parse repo AllStorable (λ m w s h. (s, h))
      (λ m set_token w s h. (s, h)) form [] tt

names_run :
    (is_inbound_name "RU" ≡ true) × (is_inbound_name "1" ≡ true) × (is_inbound_name "force" ≡ true)
unfolding is_inbound_name
names_run = (refl, refl, refl)

abbrev named : String → Inbound
named s = record force { name = s }

inbound_label-clash_example :
    (is_node_name (joined "RU" "1") ≡ true)
    × (is_node_name "RU" ≡ true)
    × (is_inbound_name "force" ≡ true)
    × (is_inbound_name (joined "1" "force") ≡ true)
    × (joined "RU" "1" ≢ "RU")
    × (inbound_label (record node { name = joined "RU" "1" }) (named "force")
        ≡ inbound_label (record node { name = "RU" }) (named (joined "1" "force")))
inbound_label-clash_example =
    inbound_label-clash "RU" "1" "force" (record node { name = joined "RU" "1" })
      (record node { name = "RU" }) (named "force") (named (joined "1" "force")) names_run.0
      names_run.1 names_run.2 refl refl refl refl
