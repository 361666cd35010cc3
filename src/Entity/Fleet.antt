-- ===== src/Entity/Fleet.antt =====
-- internal/entity/fleet.go: proxies and subscribers. A UUID is its text.
use subgen.Prelude.Int.{ℤ, int_eq}
use subgen.Prelude.Maps.{lookup}
use subgen.Prelude.{
  String, Bool, false, not, Option, none, some, ◌||◌, List, [], ◌∷◌, ◌++◌, ◌==◌, string_eq,
  if◌then◌else◌,
}

pub record VlessProxy : Type 0 where
  pub server : String
  pub port : ℤ
  pub uuid : String
  pub flow : String
  pub network : String
  pub security : String
  pub public_key : String
  pub short_id : String
  pub server_name : String
  pub fingerprint : String
  pub sni : String
  pub alpn : List String
  pub ws_path : String
  pub ws_host : String
  pub grpc_service : String

pub record Hysteria2Proxy : Type 0 where
  pub server : String
  pub port : ℤ
  pub password : String
  pub obfs : String
  pub obfs_password : String
  pub sni : String
  pub up : String
  pub down : String

-- Exactly one of the two pointers of a Go `Proxy` is set.
pub data Protocol : Type 0 where
  vless : VlessProxy → Protocol
  hysteria2 : Hysteria2Proxy → Protocol

pub record Proxy : Type 0 where
  pub name : String
  pub inbound_id : ℤ
  pub protocol : Protocol

pub record Subscriber : Type 0 where
  pub sub_id : String
  pub emails : List String
  pub proxies : List Proxy
  pub up : ℤ
  pub down : ℤ
  pub total : ℤ
  pub expiry : ℤ

-- The email is among those of the list.
unfoldable pub has_email : List String → String → Bool
has_email [] email = false
has_email (e ∷ es) email = e == email || has_email es email

-- Subscriber.AddEmail
unfoldable pub add_email : Subscriber → String → Subscriber
unfolding has_email
add_email s email =
    if email == ""
    then s
    else if has_email s.emails email
    then s
    else record s { emails = s.emails ++ email ∷ [] }

-- A Go map is an association list with one entry for each key.
pub record Fleet : Type 0 where
  pub subs : List (String × Subscriber)
  pub clients_by_inbound : List (ℤ × List String)

abbrev missing_from : Option (List String) → String → Bool
missing_from none email = false
missing_from (some set) email = not (has_email set email)

-- Fleet.ClientMissing; the fleet is a pointer that may be nil.
unfoldable pub client_missing : Option Fleet → ℤ → String → Bool
unfolding has_email lookup
client_missing none inbound_id email = false
client_missing (some f) inbound_id email =
    missing_from (lookup inbound_id f.clients_by_inbound) email

-- Fleet.Sub
unfoldable pub sub_of : Option Fleet → String → Option Subscriber
unfolding lookup
sub_of none sub_id = none
sub_of (some f) sub_id = lookup sub_id f.subs
