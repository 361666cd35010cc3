-- ===== src/Nodes/Validate.antt =====
-- internal/service/nodes/validate.go: `validateNode`, with the errors of
-- internal/entity/validation_errors.go and of internal/entity/errors.go.
use subgen.Prelude.Int.{ℤ, int_eq}
use subgen.Prelude.Text.{trim_space, concat, starts_with}
use subgen.Prelude.{
  String, Bool, true, false, ◌&&◌, ◌||◌, not, List, [], ◌∷◌, Option, none, some, Result, ok, err,
  ◌>>◌, reject_if, ◌==◌, string_eq, if◌then◌else◌,
}
use subgen.Mihomo.PolicyRef.{differ}
use subgen.Entity.Node.{Node, Inbound, Hysteria2Settings}
use subgen.Nodes.Text.{
  Url, is_node_name, is_inbound_name, is_host_or_ip, valid_panel_url, is_bandwidth, bad_port,
}

-- The sentinels that a save of a node may return; `store_failed` is any other error of the repository.
pub data NodeError : Type 0 where
  name host panel_url base_path no_inbounds : NodeError
  inbound_name inbound_port inbound_name_uq inbound_port_uq : NodeError
  inbound_kind inbound_settings : NodeError
  hysteria2_pass hysteria2_obfs hysteria2_band hysteria2_sni : NodeError
  name_taken inbound_duplicate inbound_referenced node_not_found : NodeError
  store_failed : String → NodeError

abbrev pub NodeCheck : Type 0
NodeCheck = Result NodeError (Unit {0})

-- seen[x], for a map from the values seen so far to true
unfoldable pub seen_name : List String → String → Bool
seen_name [] x = false
seen_name (y ∷ ys) x = if y == x then true else seen_name ys x

unfoldable pub seen_port : List ℤ → ℤ → Bool
seen_port [] x = false
seen_port (y ∷ ys) x = if y == x then true else seen_port ys x

-- "/" + s
abbrev with_slash : String → String
with_slash s = concat ("/" ∷ s ∷ [])

-- The base path as it is stored.
unfoldable pub normal_base_path : String → String
unfolding starts_with concat
normal_base_path s = if starts_with 0x2f s then s else with_slash s

-- len(n.Inbounds) == 0
abbrev pub is_nil : List Inbound → Bool
is_nil [] = true
is_nil (i ∷ is) = false

module _ (is_ip : String → Bool) where
  -- The conditions of validateHysteria2 on settings that are there.
  unfoldable pub validate_settings : Hysteria2Settings → NodeCheck
  unfolding trim_space is_bandwidth is_host_or_ip
  validate_settings h = do
    reject_if (trim_space h.password == "") NodeError.hysteria2_pass
    reject_if (not (trim_space h.obfs == "") && not (trim_space h.obfs == "salamander"))
        NodeError.hysteria2_obfs
    reject_if (differ (trim_space h.obfs == "") (trim_space h.obfs_password == ""))
        NodeError.hysteria2_obfs
    reject_if (not (is_bandwidth h.up) || not (is_bandwidth h.down)) NodeError.hysteria2_band
    reject_if (not (trim_space h.sni == "") && not (is_host_or_ip is_ip (trim_space h.sni)))
        NodeError.hysteria2_sni

  -- validateHysteria2
  unfoldable pub validate_hysteria2 : Option Hysteria2Settings → NodeCheck
  unfolding validate_settings
  validate_hysteria2 none = err NodeError.inbound_settings
  validate_hysteria2 (some h) = validate_settings h

  abbrev vless_settings : Option Hysteria2Settings → NodeCheck
  vless_settings none = ok tt
  vless_settings (some h) = err NodeError.inbound_settings

  -- validateInboundKind
  unfoldable pub validate_inbound_kind : String → Option Hysteria2Settings → NodeCheck
  unfolding validate_hysteria2
  validate_inbound_kind kind settings =
      if kind == "vless"
      then vless_settings settings
      else if kind == "hysteria2"
      then validate_hysteria2 settings
      else err NodeError.inbound_kind

  -- The loop over the inbounds; the lists hold the names and the ports of those before.
  unfoldable pub validate_inbounds : List String → List ℤ → List Inbound → NodeCheck
  unfolding seen_name seen_port validate_inbound_kind is_inbound_name
  validate_inbounds names ports [] = ok tt
  validate_inbounds names ports (i ∷ is) =
      let rest = validate_inbounds (i.name ∷ names) (i.port ∷ ports) is in
      reject_if (not (is_inbound_name i.name)) NodeError.inbound_name
      >> (reject_if (bad_port i.port) NodeError.inbound_port
          >> (reject_if (seen_name names i.name) NodeError.inbound_name_uq
              >> (reject_if (seen_port ports i.port) NodeError.inbound_port_uq
                  >> (validate_inbound_kind i.kind i.hysteria2 >> rest))))

  -- validateNode, with the node as it leaves it
  unfoldable pub validate_node :
      (String → Option ℤ) → (String → Option Url) → Node → Result NodeError Node
  unfolding is_node_name valid_panel_url normal_base_path validate_inbounds is_host_or_ip
  validate_node atoi parse n = do
    reject_if (not (is_node_name n.name)) NodeError.name
    reject_if (not (is_host_or_ip is_ip n.vpn_host)) NodeError.host
    reject_if (not (valid_panel_url is_ip atoi parse n.panel_base_url)) NodeError.panel_url
    reject_if (n.panel_base_path == "") NodeError.base_path
    reject_if (is_nil n.inbounds) NodeError.no_inbounds
    validate_inbounds [] [] n.inbounds
    ok (record n { panel_base_path = normal_base_path n.panel_base_path })
