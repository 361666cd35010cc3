-- ===== src/Render/Proxies.antt =====
-- internal/mihomo/render/proxies.go: the proxies of the document.
use subgen.Prelude.{String, true, List, [], ◌∷◌, ◌==◌, string_eq, if◌then◌else◌}
use subgen.Entity.Fleet.{VlessProxy, Hysteria2Proxy, Protocol, vless, hysteria2, Proxy}
use subgen.Render.Value.{text, num, flag, texts, obj, Fields, end, put}
use subgen.Render.Groups.{put_text}

abbrev put_texts : String → List String → Fields → Fields
put_texts k [] m = m
put_texts k (s ∷ ss) m = put k (texts (s ∷ ss)) m

abbrev or_else : String → String → String
or_else s d = if s == "" then d else s

-- The case "reality" of the switch on the security.
put_reality : VlessProxy → Fields → Fields
put_reality v m =
    put "reality-opts"
      (obj (put_text "short-id" v.short_id (put "public-key" (text v.public_key) end)))
      (put_text "client-fingerprint" v.fingerprint
        (put "servername" (text v.server_name) (put "tls" (flag true) m)))

-- The case "tls".
put_tls : VlessProxy → Fields → Fields
put_tls v m =
    put_texts "alpn" v.alpn
      (put "servername" (text (or_else v.sni v.server)) (put "tls" (flag true) m))

put_security : VlessProxy → Fields → Fields
unfolding put_reality put_tls
put_security v m =
    if v.security == "reality"
    then put_reality v m
    else if v.security == "tls"
    then put_tls v m
    else m

abbrev host_header : String → Fields → Fields
host_header host m = if host == "" then m else put "headers" (obj (put "Host" (text host) end)) m

-- The switch on the network.
put_transport : String → VlessProxy → Fields → Fields
put_transport network v m =
    if network == "ws"
    then put "ws-opts" (obj (host_header v.ws_host (put_text "path" v.ws_path end))) m
    else if network == "grpc"
    then (if v.grpc_service == ""
        then m
        else put "grpc-opts" (obj (put "grpc-service-name" (text v.grpc_service) end)) m)
    else m

-- vlessToMap
unfoldable pub vless_to_map : String → VlessProxy → Fields
unfolding put put_security put_transport
vless_to_map name v =
    let network = or_else v.network "tcp" in
    put_transport network v (
      put_security v (
        put_text "flow" v.flow (
          put "network" (text network) (
            put "udp" (flag true) (
              put "uuid" (text v.uuid) (
                put "port" (num v.port) (
                  put "server" (text v.server)
                    (put "type" (text "vless") (put "name" (text name) end)))))))))

abbrev put_obfs : Hysteria2Proxy → Fields → Fields
put_obfs h m =
    if h.obfs == ""
    then m
    else put_text "obfs-password" h.obfs_password (put "obfs" (text h.obfs) m)

-- hysteria2ToMap
unfoldable pub hysteria2_to_map : String → Hysteria2Proxy → Fields
unfolding put
hysteria2_to_map name h = put_text "down" h.down (
    put_text "up" h.up (
      put_text "sni" h.sni (
        put_obfs h (
          put "password" (text h.password) (
            put "port" (num h.port) (
              put "server" (text h.server)
                (put "type" (text "hysteria2") (put "name" (text name) end))))))))

abbrev protocol_to_map : String → Protocol → Fields
protocol_to_map name (vless v) = vless_to_map name v
protocol_to_map name (hysteria2 h) = hysteria2_to_map name h

-- proxyToMap
unfoldable pub proxy_to_map : Proxy → Fields
unfolding vless_to_map hysteria2_to_map
proxy_to_map p = protocol_to_map p.name p.protocol
