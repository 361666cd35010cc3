-- ===== src/Tests/Provisioning.antt =====
-- One node with a vless and a hysteria2 inbound on the same port, a panel that hosts another client, and
-- one user.
use subgen.Prelude.Int.{ℤ, pos, int_eq}
use subgen.Prelude.Lists.{length, All, In, Distinct}
use subgen.Prelude.{false, true, List, [], ◌∷◌, none, ok, ◌≡◌, refl, ◌↔◌}
use subgen.Entity.Node.{Node, Inbound}
use subgen.Entity.Panel.{PanelTarget, PanelInbound, PanelClient, StreamInfo, ClientSpec}
use subgen.Entity.User.{User, Connection, UserCreateParams}
use subgen.Provision.Act.{
  Backend, State, Call, ◌>>=◌, lift, silently, pure, recorded, random, attempt,
}
use subgen.Provision.Targets.{same_inbound_ids, ConnTarget, InboundRef, desired_targets}
use subgen.Provision.Targets.Same.{count, same_inbound_ids_iff}
use subgen.Provision.Targets.Selection.{InOrderOf, Resolved, desired_targets-Resolved}
use subgen.Provision.Sync.{sync_panels}
use subgen.Provision.Sync.Calls.{Allowed, sync_panels_calls}
use subgen.Provision.Service.{create_user, ensure_email_free}
use subgen.Provision.Service.Calls.{Creates, create_user_calls}
use subgen.Provision.Service.Guard.{AllFree, ensure_email_free_iff}

abbrev force : Inbound
force = record { id = pos 1; name = "force"; port = pos 443; kind = "vless"; hysteria2 = none }

abbrev quick : Inbound
quick = record { id = pos 2; name = "quick"; port = pos 443; kind = "hysteria2"; hysteria2 = none }

abbrev ru : Node
ru = record {
  id = pos 1;
  name = "RU1";
  vpn_host = "1.2.3.4";
  panel_base_url = "https://1.2.3.4:2096";
  panel_base_path = "/p/";
  token = "t";
  inbounds = force ∷ quick ∷ [];
}

abbrev stream : StreamInfo
stream = record {
  network = "tcp";
  security = "reality";
  public_key = "k";
  short_id = "";
  server_name = "";
  fingerprint = "";
  sni = "";
  alpn = [];
  ws_path = "";
  ws_host = "";
  grpc_service = "";
}

abbrev ann : PanelClient
ann = record { uuid = "u1"; email = "ann"; flow = ""; sub_id = "s1" }

abbrev panel : PanelInbound
panel = record {
  id = pos 7;
  port = pos 443;
  remark = "";
  enable = true;
  stream = stream;
  clients = ann ∷ [];
  stats = [];
}

abbrev to_ru : Connection
to_ru = record {
  id = pos 1;
  user_id = pos 5;
  inbound_id = pos 1;
  created_at = pos 0;
  node_id = pos 1;
  node = "RU1";
  name = "force";
  port = pos 443;
  kind = "vless";
}

abbrev bob : User
bob = record {
  id = pos 5;
  name = "bob";
  sub_id = "s2";
  description = none;
  created_at = pos 0;
  connections = to_ru ∷ [];
}

abbrev store : Backend (Unit {0})
store = record {
  users_get = λ id w. (ok bob, w);
  users_create = λ u w. (ok (pos 5, to_ru ∷ []), w);
  users_replace_connections = λ id ids w. (ok tt, w);
  users_set_description = λ id d w. (ok tt, w);
  users_delete = λ id w. (ok tt, w);
  nodes_list = λ w. (ok (ru ∷ []), w);
  list_inbounds = λ t w. (ok (panel ∷ []), w);
  add_client = λ t ids spec w. (ok tt, w);
  del_client = λ t email w. (ok tt, w);
  gen_id = λ n w. ("s2", w);
  gen_uuid = λ w. ("u2", w);
  visit_order = λ ids. ids;
}

abbrev start : State (Unit {0})
start = record { world = tt; calls = [] }

abbrev wanted : List ConnTarget
wanted =
    record { node_id = pos 1; node = "RU1"; port = pos 443; inbound_id = pos 1; kind = "vless" }
    ∷ record {
      node_id = pos 1;
      node = "RU1";
      port = pos 443;
      inbound_id = pos 2;
      kind = "hysteria2";
    }
    ∷ []

abbrev at_ru : PanelTarget
at_ru = record { base_url = "https://1.2.3.4:2096"; base_path = "/p/"; token = "t" }

abbrev spec : ClientSpec
spec = record { id = "u2"; email = "bob"; flow = ""; sub_id = "s2" }

abbrev request : UserCreateParams
request = record { name = " bob "; description = none; inbound_ids = pos 1 ∷ pos 2 ∷ pos 1 ∷ [] }

-- A forced run deletes and adds the client, with the one vless inbound.
sync_run : sync_panels store ((pos 1, ru) ∷ []) bob bob.connections wanted true start ≡ (
  ok tt,
  record {
    world = tt;
    calls = Call.added at_ru (pos 7 ∷ []) spec ∷ Call.deleted at_ru "bob" ∷ Call.listed at_ru ∷ [];
  },
)
unfolding sync_panels ◌>>=◌ lift silently pure recorded random attempt
sync_run = refl

create_run :
    (create_user store (λ s. s) request start).1.calls
    ≡ Call.added at_ru (pos 7 ∷ []) spec
      ∷ Call.listed at_ru
      ∷ Call.user_created (record {
        id = pos 0;
        name = "bob";
        sub_id = "s2";
        description = none;
        created_at = pos 0;
        connections =
            record {
              id = pos 0;
              user_id = pos 0;
              inbound_id = pos 1;
              created_at = pos 0;
              node_id = pos 0;
              node = "";
              name = "";
              port = pos 0;
              kind = "";
            }
            ∷ record {
              id = pos 0;
              user_id = pos 0;
              inbound_id = pos 2;
              created_at = pos 0;
              node_id = pos 0;
              node = "";
              name = "";
              port = pos 0;
              kind = "";
            }
            ∷ [];
      })
      ∷ Call.listed at_ru
      ∷ []
unfolding create_user ◌>>=◌ lift silently pure recorded random attempt
create_run = refl

guard_run :
    ensure_email_free store ((pos 1, ru) ∷ []) (pos 1 ∷ []) "bob" start
    ≡ (ok tt, record { world = tt; calls = Call.listed at_ru ∷ [] })
unfolding ensure_email_free ◌>>=◌ lift pure recorded
guard_run = refl

sync_panels_calls_example :
    All
      (Allowed ((pos 1, ru) ∷ []) bob bob.connections wanted true)
      (sync_panels store ((pos 1, ru) ∷ []) bob bob.connections wanted true start).1.calls
sync_panels_calls_example =
    sync_panels_calls store ((pos 1, ru) ∷ []) bob bob.connections wanted true start (λ ids id h. h)
      refl

create_user_calls_example :
    All (Creates (λ s. s) " bob ") (create_user store (λ s. s) request start).1.calls
create_user_calls_example = create_user_calls store (λ s. s) request start (λ ids id h. h) refl

ensure_email_free_iff_example :
    (ensure_email_free store ((pos 1, ru) ∷ []) (pos 1 ∷ []) "bob" start
      ≡ (ok tt, record { world = tt; calls = Call.listed at_ru ∷ [] }))
    ↔ AllFree store "bob"
        ((pos 1, ru) ∷ [])
        (pos 1 ∷ [])
        start
        (record { world = tt; calls = Call.listed at_ru ∷ [] })
ensure_email_free_iff_example =
    ensure_email_free_iff store "bob" ((pos 1, ru) ∷ []) (pos 1 ∷ []) start
      (record { world = tt; calls = Call.listed at_ru ∷ [] })

abbrev index : List (ℤ × InboundRef)
index =
    (pos 1, record { node = ru; inbound = force })
    ∷ (pos 2, record { node = ru; inbound = quick })
    ∷ []

desired_targets-Resolved_example :
    (once : List ℤ) × Distinct once
    × ((id : ℤ) → In id once ↔ In id (pos 2 ∷ pos 1 ∷ pos 2 ∷ []))
    × InOrderOf (pos 2 ∷ pos 1 ∷ pos 2 ∷ []) once
    × Resolved index once (desired_targets index [] (pos 2 ∷ pos 1 ∷ pos 2 ∷ []))
desired_targets-Resolved_example = desired_targets-Resolved index (pos 2 ∷ pos 1 ∷ pos 2 ∷ [])

same_inbound_ids_iff_example :
    (same_inbound_ids (pos 1 ∷ pos 2 ∷ []) (pos 2 ∷ pos 1 ∷ []) ≡ true) ↔ (
      (length (pos 1 ∷ pos 2 ∷ []) ≡ length (pos 2 ∷ pos 1 ∷ []))
      × ((id : ℤ) → count id (pos 1 ∷ pos 2 ∷ []) ≡ count id (pos 2 ∷ pos 1 ∷ [])))
same_inbound_ids_iff_example = same_inbound_ids_iff (pos 1 ∷ pos 2 ∷ []) (pos 2 ∷ pos 1 ∷ [])

same_run :
    (same_inbound_ids (pos 1 ∷ pos 2 ∷ []) (pos 2 ∷ pos 1 ∷ []) ≡ true)
    × (same_inbound_ids (pos 1 ∷ pos 1 ∷ pos 2 ∷ []) (pos 2 ∷ pos 1 ∷ pos 2 ∷ []) ≡ false)
unfolding same_inbound_ids
same_run = (refl, refl)
