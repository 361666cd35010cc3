-- ===== src/Fleet/Build.antt =====
-- internal/service/fleet/build.go: the fleet from panel snapshots.
use subgen.Prelude.Int.{ℤ, pos, negsuc, int_eq, int_ltb}
use subgen.Prelude.Maps.{lookup, insert}
use subgen.Prelude.{
  ℕ, suc, ◌+◌, ◌-◌, String, ◌||◌, not, List, [], ◌∷◌, ◌++◌, Option, none, some, ◌==◌, string_eq,
  leb, if◌then◌else◌,
}
use subgen.Entity.Node.{Node, Inbound, inbound_label}
use subgen.Entity.Panel.{PanelInbound, PanelClient, PanelClientStat, StreamInfo, nil_uuid}
use subgen.Entity.Fleet.{VlessProxy, Proxy, vless, Subscriber, add_email, has_email, Fleet}

pub record PanelSnapshot : Type 0 where
  pub node : Node
  pub inbounds : List PanelInbound

abbrev two_63 : ℕ
two_63 = 9223372036854775808

abbrev two_64 : ℕ
two_64 = 18446744073709551616

minus : ℕ → ℕ → ℤ
minus a b = if leb b a then pos (a - b) else negsuc (b - a - 1)

add_int : ℤ → ℤ → ℤ
unfolding minus
add_int (pos a) (pos b) = pos (a + b)
add_int (pos a) (negsuc b) = minus a (suc b)
add_int (negsuc a) (pos b) = minus b (suc a)
add_int (negsuc a) (negsuc b) = negsuc (suc (a + b))

-- The sum of two int64 values wraps around once at most.
wrap_64 : ℤ → ℤ
unfolding minus
wrap_64 (pos n) = if leb two_63 n then minus n two_64 else pos n
wrap_64 (negsuc n) = if leb two_63 n then minus two_64 (suc n) else negsuc n

-- a + b on int64
unfoldable pub add_64 : ℤ → ℤ → ℤ
unfolding add_int wrap_64
add_64 a b = wrap_64 (add_int a b)

unfoldable pub max_of : ℤ → ℤ → ℤ
max_of a b = if int_ltb a b then b else a

-- findByPort
unfoldable pub find_by_port : List PanelInbound → ℤ → Option PanelInbound
find_by_port [] port = none
find_by_port (i ∷ is) port = if i.port == port then some i else find_by_port is port

-- streamToProxy, with the fields that stay at their zero values
unfoldable pub stream_to_proxy : String → ℤ → StreamInfo → VlessProxy
stream_to_proxy host port st = record {
  server = host;
  port = port;
  uuid = nil_uuid;
  flow = "";
  network = st.network;
  security = st.security;
  public_key = st.public_key;
  short_id = st.short_id;
  server_name = st.server_name;
  fingerprint = st.fingerprint;
  sni = st.sni;
  alpn = st.alpn;
  ws_path = st.ws_path;
  ws_host = st.ws_host;
  grpc_service = st.grpc_service;
}

abbrev pub or_none : {T : Type 0} → Option (List T) → List T
or_none none = []
or_none (some ts) = ts

-- The emails of an inbound's clients, as a set.
unfoldable pub add_clients : List PanelClient → List String → List String
unfolding has_email
add_clients [] set = set
add_clients (c ∷ cs) set =
    add_clients cs (if has_email set c.email then set else set ++ c.email ∷ [])

-- flowByEmail
unfoldable pub flow_by_email : List PanelClient → List (String × String) → List (String × String)
unfolding insert
flow_by_email [] flows = flows
flow_by_email (c ∷ cs) flows = flow_by_email cs (insert c.email c.flow flows)

abbrev pub flow_of : Option String → String
flow_of none = ""
flow_of (some flow) = flow

-- The proxy of one client of an inbound.
unfoldable pub client_proxy : Node → Inbound → PanelInbound → PanelClientStat → Proxy
unfolding stream_to_proxy flow_by_email lookup inbound_label
client_proxy n cfg pi cs = record {
  name = inbound_label n cfg;
  inbound_id = cfg.id;
  protocol = vless (record (stream_to_proxy n.vpn_host pi.port pi.stream) {
    uuid = cs.uuid;
    flow = flow_of (lookup cs.email (flow_by_email pi.clients []));
  });
}

-- fleet.Subs[subID], or a new subscriber
abbrev pub or_new : String → Option Subscriber → Subscriber
or_new sub_id none = record {
  sub_id = sub_id;
  emails = [];
  proxies = [];
  up = pos 0;
  down = pos 0;
  total = pos 0;
  expiry = pos 0;
}
or_new sub_id (some sub) = sub

-- What one stat adds to its subscriber.
unfoldable pub with_stat : Subscriber → PanelClientStat → Proxy → Subscriber
unfolding add_email add_64 max_of
with_stat sub cs p =
    let named = add_email sub cs.email in
    record named {
      proxies = named.proxies ++ p ∷ [];
      up = add_64 named.up cs.up;
      down = add_64 named.down cs.down;
      total = max_of named.total cs.total;
      expiry = max_of named.expiry cs.expiry;
    }

abbrev pub Subs : Type 0
Subs = List (String × Subscriber)

-- The loop over the stats of an enabled inbound.
unfoldable pub add_stats : Node → Inbound → PanelInbound → List PanelClientStat → Subs → Subs
unfolding with_stat client_proxy insert lookup
add_stats n cfg pi [] subs = subs
add_stats n cfg pi (cs ∷ css) subs = add_stats n cfg pi css (
    if not cs.enable || cs.sub_id == ""
    then subs
    else insert cs.sub_id
        (with_stat (or_new cs.sub_id (lookup cs.sub_id subs)) cs (client_proxy n cfg pi cs)) subs)

abbrev pub clients_of : Option PanelInbound → List PanelClient
clients_of none = []
clients_of (some pi) = pi.clients

abbrev pub serve : Node → Inbound → Option PanelInbound → Subs → Subs
serve n cfg none subs = subs
serve n cfg (some pi) subs = if pi.enable then add_stats n cfg pi pi.stats subs else subs

-- The body of the loop over the inbounds of a node.
unfoldable pub add_inbound : PanelSnapshot → Inbound → Fleet → Fleet
unfolding add_clients find_by_port insert lookup add_stats
add_inbound s cfg fleet =
    let pi = find_by_port s.inbounds cfg.port in
    record {
      subs = serve s.node cfg pi fleet.subs;
      clients_by_inbound =
          insert cfg.id
            (add_clients (clients_of pi) (or_none (lookup cfg.id fleet.clients_by_inbound)))
            fleet.clients_by_inbound;
    }

unfoldable pub add_inbounds : PanelSnapshot → List Inbound → Fleet → Fleet
unfolding add_inbound
add_inbounds s [] fleet = fleet
add_inbounds s (cfg ∷ cfgs) fleet = add_inbounds s cfgs (add_inbound s cfg fleet)

unfoldable pub add_snapshots : List PanelSnapshot → Fleet → Fleet
unfolding add_inbounds
add_snapshots [] fleet = fleet
add_snapshots (s ∷ ss) fleet = add_snapshots ss (add_inbounds s s.node.inbounds fleet)

-- buildFleet
unfoldable pub build_fleet : List PanelSnapshot → Fleet
unfolding add_snapshots
build_fleet snaps = add_snapshots snaps (record { subs = []; clients_by_inbound = [] })
