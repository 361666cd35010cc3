-- ===== src/Tests/Fleets.antt =====
-- One snapshot with one enabled client, and a hysteria2 inbound that is granted to the same subscriber.
use subgen.Prelude.Int.{ℤ, pos, negsuc, int_eq}
use subgen.Prelude.Lists.{All}
use subgen.Prelude.{
  String, true, false, List, [], ◌∷◌, map, none, some, ◌≡◌, refl, ◌⊎◌, Result, ok, err, inl, inr,
  ◌==◌, string_eq, if◌then◌else◌,
}
use subgen.Entity.Node.{Node, Hysteria2Settings}
use subgen.Entity.Panel.{PanelInbound}
use subgen.Entity.Fleet.{Fleet}
use subgen.Fleet.Build.{PanelSnapshot, build_fleet, add_64}
use subgen.Fleet.Hysteria.{add_hysteria2_inbounds}
use subgen.Fleet.Provenance.{Entry, Served}
use subgen.Fleet.Granted.{Granted, add_hysteria2_inbounds-Granted}
use subgen.Fleet.Fetch.{FleetError, fetch}
use subgen.Fleet.Outage.{SnapshotsOf, fetch-SnapshotsOf, fetch-outage}

abbrev pub settings : Hysteria2Settings
settings = record { password = "p"; obfs = ""; obfs_password = ""; sni = ""; up = ""; down = "" }

abbrev pub node : Node
node = record {
  id = pos 1;
  name = "RU1";
  vpn_host = "1.2.3.4";
  panel_base_url = "https://1.2.3.4:2096";
  panel_base_path = "/p/";
  token = "t";
  inbounds =
      record { id = pos 1; name = "force"; port = pos 443; kind = "vless"; hysteria2 = none }
      ∷ record {
        id = pos 2;
        name = "quick";
        port = pos 8443;
        kind = "hysteria2";
        hysteria2 = some settings;
      }
      ∷ [];
}

abbrev pub panel_inbound : PanelInbound
panel_inbound = record {
  id = pos 7;
  port = pos 443;
  remark = "";
  enable = true;
  stream = record {
    network = "tcp";
    security = "reality";
    public_key = "k";
    short_id = "";
    server_name = "";
    fingerprint = "";
    sni = "";
    alpn = [];
    ws_path = "";
    ws_host = "";
    grpc_service = "";
  };
  clients = record { uuid = "u1"; email = "ann"; flow = "vision"; sub_id = "s1" } ∷ [];
  stats =
      record {
        email = "ann";
        uuid = "u1";
        sub_id = "s1";
        up = pos 3;
        down = pos 4;
        total = pos 10;
        expiry = pos 0;
        enable = true;
      }
      ∷ record {
        email = "off";
        uuid = "u2";
        sub_id = "s2";
        up = pos 3;
        down = pos 4;
        total = pos 10;
        expiry = pos 0;
        enable = false;
      }
      ∷ [];
}

abbrev pub snapshots : List PanelSnapshot
snapshots = record { node = node; inbounds = panel_inbound ∷ [] } ∷ []

abbrev pub granted : List (ℤ × List String)
granted = (pos 2, "s1" ∷ []) ∷ []

abbrev names : Fleet → List (String × List String)
names f = map (λ e. (e.0, map (λ p. p.name) e.1.proxies)) f.subs

fleet_run :
    names (add_hysteria2_inbounds (build_fleet snapshots) (node ∷ []) granted)
    ≡ ("s1", "RU1-force" ∷ "RU1-quick" ∷ []) ∷ []
unfolding add_hysteria2_inbounds build_fleet
fleet_run = refl

wrap_run : add_64 (pos 9223372036854775807) (pos 1) ≡ negsuc 9223372036854775807
unfolding add_64
wrap_run = refl

add_hysteria2_inbounds-Granted_example :
    All
      (Entry (λ id p. Served snapshots id p ⊎ Granted granted (node ∷ []) id p))
      (add_hysteria2_inbounds (build_fleet snapshots) (node ∷ []) granted).subs
add_hysteria2_inbounds-Granted_example =
    add_hysteria2_inbounds-Granted snapshots (node ∷ []) granted

abbrev other : Node
other = record node { name = "DE1" }

-- The panel of RU1 answers, and that of DE1 does not.
abbrev ask : Node → Result String (List PanelInbound)
ask n = if n.name == "RU1" then ok (panel_inbound ∷ []) else err "timeout"

fetch_runs :
    (fetch ask (ok (other ∷ node ∷ [])) (ok granted)
      ≡ ok (add_hysteria2_inbounds (build_fleet snapshots) (other ∷ node ∷ []) granted))
    × (fetch ask (ok (other ∷ [])) (ok granted)
        ≡ err (FleetError.all_panels_failed (("DE1", "timeout") ∷ [])))
    × (fetch ask (err "locked") (ok granted) ≡ err (FleetError.nodes_failed "locked"))
unfolding fetch
fetch_runs = (refl, refl, refl)

fetch-SnapshotsOf_example :
    (snaps : List PanelSnapshot) × SnapshotsOf ask (other ∷ node ∷ []) snaps
    × (fetch ask (ok (other ∷ node ∷ [])) (ok granted)
        ≡ ok (add_hysteria2_inbounds (build_fleet snaps) (other ∷ node ∷ []) granted))
fetch-SnapshotsOf_example =
    fetch-SnapshotsOf ask (other ∷ node ∷ []) node granted (inr (inl refl))
      (panel_inbound ∷ [], refl)

fetch-outage_example :
    (errs : List (String × String)) × (fetch ask (ok (other ∷ [])) (ok granted)
      ≡ err (FleetError.all_panels_failed errs))
    × (map (λ e. e.0) errs ≡ "DE1" ∷ [])
fetch-outage_example = fetch-outage ask (other ∷ []) (ok granted) (λ e. cc) (("timeout", refl), tt)
