-- ===== src/Fleet/Hysteria.antt =====
-- internal/service/fleet/build.go: the proxies of hysteria2 inbounds.
use subgen.Prelude.Int.{ℤ, int_eq}
use subgen.Prelude.Maps.{lookup, insert}
use subgen.Prelude.{String, List, [], ◌∷◌, ◌++◌, Option, none, some, ◌==◌, string_eq, if◌then◌else◌}
use subgen.Entity.Node.{Node, Inbound, inbound_label, is_hysteria2, Hysteria2Settings}
use subgen.Entity.Fleet.{Proxy, hysteria2, Subscriber, Fleet}
use subgen.Fleet.Build.{Subs, or_new, or_none}

-- hysteria2Proxy
unfoldable pub hysteria2_proxy : Node → Inbound → Hysteria2Settings → Proxy
unfolding inbound_label
hysteria2_proxy n inbound h = record {
  name = inbound_label n inbound;
  inbound_id = inbound.id;
  protocol = hysteria2 (record {
    server = n.vpn_host;
    port = inbound.port;
    password = h.password;
    obfs = h.obfs;
    obfs_password = h.obfs_password;
    sni = if h.sni == "" then n.vpn_host else h.sni;
    up = h.up;
    down = h.down;
  });
}

abbrev pub grant : Subscriber → Proxy → Subscriber
grant sub p = record sub { proxies = sub.proxies ++ p ∷ [] }

-- The loop over the subscribers of an inbound.
unfoldable pub grant_each : Proxy → List String → Subs → Subs
unfolding insert lookup
grant_each p [] subs = subs
grant_each p (id ∷ ids) subs =
    grant_each p ids (insert id (grant (or_new id (lookup id subs)) p) subs)

abbrev pub grant_to : Node → Inbound → Option Hysteria2Settings → List String → Subs → Subs
grant_to n inbound none ids subs = subs
grant_to n inbound (some h) ids subs = grant_each (hysteria2_proxy n inbound h) ids subs

-- The loop over the inbounds of a node.
unfoldable pub grant_inbounds : List (ℤ × List String) → Node → List Inbound → Subs → Subs
unfolding grant_each hysteria2_proxy lookup
grant_inbounds by_inbound n [] subs = subs
grant_inbounds by_inbound n (i ∷ is) subs = grant_inbounds by_inbound n is (
    if is_hysteria2 i
    then grant_to n i i.hysteria2 (or_none (lookup i.id by_inbound)) subs
    else subs)

unfoldable pub grant_nodes : List (ℤ × List String) → List Node → Subs → Subs
unfolding grant_inbounds
grant_nodes by_inbound [] subs = subs
grant_nodes by_inbound (n ∷ ns) subs =
    grant_nodes by_inbound ns (grant_inbounds by_inbound n n.inbounds subs)

-- addHysteria2Inbounds
unfoldable pub add_hysteria2_inbounds : Fleet → List Node → List (ℤ × List String) → Fleet
unfolding grant_nodes
add_hysteria2_inbounds fleet nodes by_inbound = record fleet {
  subs = grant_nodes by_inbound nodes fleet.subs;
}
