-- ===== src/Entity/Panel.antt =====
-- internal/entity/panel.go: what a 3x-ui panel has and is told. A UUID is its text.
use subgen.Prelude.Int.{ℤ}
use subgen.Prelude.{String, Bool, List}
use subgen.Entity.Node.{Node}

pub record PanelClient : Type 0 where
  pub uuid : String
  pub email : String
  pub flow : String
  pub sub_id : String

pub record PanelClientStat : Type 0 where
  pub email : String
  pub uuid : String
  pub sub_id : String
  pub up : ℤ
  pub down : ℤ
  pub total : ℤ
  pub expiry : ℤ
  pub enable : Bool

pub record StreamInfo : Type 0 where
  pub network : String
  pub security : String
  pub public_key : String
  pub short_id : String
  pub server_name : String
  pub fingerprint : String
  pub sni : String
  pub alpn : List String
  pub ws_path : String
  pub ws_host : String
  pub grpc_service : String

pub record PanelInbound : Type 0 where
  pub id : ℤ
  pub port : ℤ
  pub remark : String
  pub enable : Bool
  pub stream : StreamInfo
  pub clients : List PanelClient
  pub stats : List PanelClientStat

pub record ClientSpec : Type 0 where
  pub id : String
  pub email : String
  pub flow : String
  pub sub_id : String

pub record PanelTarget : Type 0 where
  pub base_url : String
  pub base_path : String
  pub token : String

-- uuid.Nil
abbrev pub nil_uuid : String
nil_uuid = "00000000-0000-0000-0000-000000000000"

-- `target` of the fleet and of the provisioning service
unfoldable pub target : Node → PanelTarget
target n = record { base_url = n.panel_base_url; base_path = n.panel_base_path; token = n.token }
