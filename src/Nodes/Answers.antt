-- ===== src/Nodes/Answers.antt =====
-- internal/handlers/node_save: what the form is told of a node that is not valid.
use subgen.Prelude.Int.{ℤ}
use subgen.Prelude.{
  ◌≡◌, refl, subst, String, Bool, true, false, not, ◌&&◌, ◌||◌, List, [], ◌∷◌, Option, none, some,
  Result, ok, err, ◌>>◌, reject_if, ◌==◌, string_eq, if◌then◌else◌,
}
use subgen.Entity.Node.{Node, Inbound, Hysteria2Settings}
use subgen.Nodes.Text.{
  Url, is_node_name, is_inbound_name, is_host_or_ip, valid_panel_url, is_bandwidth, bad_port,
}
use subgen.Nodes.Validate.{
  NodeError, validate_settings, validate_hysteria2, validate_inbound_kind, validate_inbounds,
  validate_node, seen_name, seen_port, is_nil,
}
use subgen.Nodes.Service.{bad_request, save_error}
use subgen.Prelude.Text.{trim_space}
use subgen.Mihomo.PolicyRef.{differ}

-- The error is answered as a bad request with a text of its own.
abbrev pub Answered : NodeError → Type 0
Answered e = (text : String) × (save_error e ≡ bad_request text)

-- Every error of a computation is answered so.
unfoldable Raises : {B : Type 0} → Result NodeError B → Type 0
Raises r = (e : NodeError) → r ≡ err e → Answered e

module _ {B : Type 0} where
  Raises-ok : (b : B) → Raises (ok b)
  unfolding Raises
  Raises-ok b e h = cc

  Raises-then :
      (m : Result NodeError (Unit {0})) (k : Result NodeError B)
      → Raises m
      → Raises k
      → Raises (m >> k)
  unfolding Raises
  Raises-then (ok tt) k a b e h = b e h
  Raises-then (err f) k a b e h = let same : f ≡ e = cc in subst Answered same (a f refl)

  Raises-if :
      (b : Bool) (r s : Result NodeError B) → Raises r → Raises s → Raises (if b then r else s)
  Raises-if true r s a b = a
  Raises-if false r s a b = b

abbrev refused : NodeError → Result NodeError (Unit {0})
refused e = err e

Raises-err : (e : NodeError) → Answered e → Raises (refused e)
unfolding Raises
Raises-err e a f h = let same : e ≡ f = cc in subst Answered same a

Raises-reject : (b : Bool) (e : NodeError) → Answered e → Raises (reject_if b e)
Raises-reject true e a = Raises-err e a
Raises-reject false e a = Raises-ok tt

module _ (is_ip : String → Bool) where
  Raises-settings : (h : Hysteria2Settings) → Raises (validate_settings is_ip h)
  unfolding validate_settings save_error
  Raises-settings h =
      Raises-then _ _
        (Raises-reject (trim_space h.password == "") NodeError.hysteria2_pass (_, refl))
        (Raises-then _ _
          (Raises-reject (not (trim_space h.obfs == "") && not (trim_space h.obfs == "salamander"))
            NodeError.hysteria2_obfs (_, refl))
          (Raises-then _ _
            (Raises-reject (differ (trim_space h.obfs == "") (trim_space h.obfs_password == ""))
              NodeError.hysteria2_obfs (_, refl))
            (Raises-then _ _
              (Raises-reject (not (is_bandwidth h.up) || not (is_bandwidth h.down))
                NodeError.hysteria2_band (_, refl))
              (Raises-reject
                (not (trim_space h.sni == "") && not (is_host_or_ip is_ip (trim_space h.sni)))
                NodeError.hysteria2_sni (_, refl)))))

  Raises-kind :
      (kind : String) (h : Option Hysteria2Settings) → Raises (validate_inbound_kind is_ip kind h)
  unfolding validate_inbound_kind validate_hysteria2 save_error
  Raises-kind kind none = Raises-if (kind == "vless") _ _ (Raises-ok tt) (
      Raises-if (kind == "hysteria2") _ _ (Raises-err NodeError.inbound_settings (_, refl))
        (Raises-err NodeError.inbound_kind (_, refl)))
  Raises-kind kind (some h) =
      Raises-if (kind == "vless") _ _ (Raises-err NodeError.inbound_settings (_, refl)) (
        Raises-if (kind == "hysteria2") _ _ (Raises-settings h)
          (Raises-err NodeError.inbound_kind (_, refl)))

  Raises-inbounds :
      (names : List String) (ports : List ℤ) (is : List Inbound)
      → Raises (validate_inbounds is_ip names ports is)
  unfolding validate_inbounds save_error
  Raises-inbounds names ports [] = Raises-ok tt
  Raises-inbounds names ports (i ∷ is) =
      Raises-then _ _
        (Raises-reject (not (is_inbound_name i.name)) NodeError.inbound_name (_, refl))
        (Raises-then _ _ (Raises-reject (bad_port i.port) NodeError.inbound_port (_, refl)) (
          Raises-then _ _
            (Raises-reject (seen_name names i.name) NodeError.inbound_name_uq (_, refl))
            (Raises-then _ _
              (Raises-reject (seen_port ports i.port) NodeError.inbound_port_uq (_, refl))
              (Raises-then _ _ (Raises-kind i.kind i.hysteria2)
                (Raises-inbounds (i.name ∷ names) (i.port ∷ ports) is)))))

  -- Each error of validateNode is answered by NodeSave as a bad request with a text, never as a
  -- failure of the server.
  pub validate_node-Answered :
      (atoi : String → Option ℤ) (parse : String → Option Url) (n : Node) (e : NodeError)
      → validate_node is_ip atoi parse n ≡ err e
      → Answered e
  unfolding validate_node save_error Raises
  validate_node-Answered atoi parse n e h =
      Raises-then _ _ (Raises-reject (not (is_node_name n.name)) NodeError.name (_, refl))
        (Raises-then _ _
          (Raises-reject (not (is_host_or_ip is_ip n.vpn_host)) NodeError.host (_, refl))
          (Raises-then _ _
            (Raises-reject (not (valid_panel_url is_ip atoi parse n.panel_base_url))
              NodeError.panel_url (_, refl))
            (Raises-then _ _ (Raises-reject (n.panel_base_path == "") NodeError.base_path (_, refl))
              (Raises-then _ _ (Raises-reject (is_nil n.inbounds) NodeError.no_inbounds (_, refl))
                (Raises-then _ _ (Raises-inbounds [] [] n.inbounds) (Raises-ok _))))))
        e h
