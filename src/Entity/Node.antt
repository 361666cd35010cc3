-- ===== src/Entity/Node.antt =====
-- internal/entity/node.go: nodes and their inbounds.
use subgen.Prelude.Int.{ℤ}
use subgen.Prelude.{String, Bool, List, [], ◌∷◌, Option, ◌==◌, string_eq}
use subgen.Prelude.Text.{concat}

pub record Hysteria2Settings : Type 0 where
  pub password : String
  pub obfs : String
  pub obfs_password : String
  pub sni : String
  pub up : String
  pub down : String

pub record Inbound : Type 0 where
  pub id : ℤ
  pub name : String
  pub port : ℤ
  pub kind : String
  pub hysteria2 : Option Hysteria2Settings

pub record Node : Type 0 where
  pub id : ℤ
  pub name : String
  pub vpn_host : String
  pub panel_base_url : String
  pub panel_base_path : String
  pub token : String
  pub inbounds : List Inbound

-- kind == InboundKindHysteria2
abbrev pub is_hysteria2_kind : String → Bool
is_hysteria2_kind kind = kind == "hysteria2"

-- Inbound.IsHysteria2
abbrev pub is_hysteria2 : Inbound → Bool
is_hysteria2 inbound = is_hysteria2_kind inbound.kind

-- Node.InboundLabel
unfoldable pub inbound_label : Node → Inbound → String
unfolding concat
inbound_label n inbound = concat (n.name ∷ "-" ∷ inbound.name ∷ [])
