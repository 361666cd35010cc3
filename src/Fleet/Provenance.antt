-- ===== src/Fleet/Provenance.antt =====
-- Where the proxies of a built fleet come from.
use subgen.Prelude.Lists.{All, In}
use subgen.Prelude.Maps.{lookup, All-insert, All-lookup}
use subgen.Prelude.{
  String, true, ◌||◌, not, List, [], ◌∷◌, ◌++◌, Option, none, some, ◌==◌, string_eq, ◌≡◌, refl,
  Bool-cases, inl, inr, arith,
}
use subgen.Entity.Node.{Node, Inbound}
use subgen.Entity.Panel.{PanelInbound, PanelClientStat}
use subgen.Entity.Fleet.{Proxy, Subscriber, Fleet, add_email}
use subgen.Fleet.Build.{
  PanelSnapshot, find_by_port, client_proxy, or_new, with_stat, Subs, add_stats, serve, add_inbound,
  add_inbounds, add_snapshots, build_fleet,
}

-- The subscriber stands under its own id, and its proxies satisfy Q for that id.
abbrev pub Entry : (String → Proxy → Type 0) → String × Subscriber → Type 0
Entry Q e = (e.1.sub_id ≡ e.0) × All (Q e.0) e.1.proxies

-- The proxy is that of an enabled stat with this subscription id, in the panel's enabled inbound on
-- the port of an inbound of the node.
pub Served : List PanelSnapshot → String → Proxy → Type 0
Served snaps id p =
    (s : PanelSnapshot) × (cfg : Inbound) × (pi : PanelInbound) × (cs : PanelClientStat) × In s
      snaps
    × In cfg s.node.inbounds
    × (find_by_port s.inbounds cfg.port ≡ some pi)
    × (pi.enable ≡ true)
    × In cs pi.stats
    × (cs.enable ≡ true)
    × (cs.sub_id ≡ id)
    × (p ≡ client_proxy s.node cfg pi cs)

pub All-snoc :
    {A : Type 0} (P : A → Type 0) (xs : List A) (x : A) → All P xs → P x → All P (xs ++ x ∷ [])
All-snoc P [] x h p = (p, tt)
All-snoc P (y ∷ ys) x h p = (h.0, All-snoc P ys x h.1 p)

module _ (Q : String → Proxy → Type 0) where
  Entry-add_email :
      (k : String) (sub : Subscriber) (email : String)
      → Entry Q (k, sub)
      → Entry Q (k, add_email sub email)
  unfolding add_email
  Entry-add_email k sub email h = ground arith

  Entry-with_stat :
      (k : String) (sub : Subscriber) (cs : PanelClientStat) (p : Proxy)
      → Entry Q (k, sub)
      → Q k p
      → Entry Q (k, with_stat sub cs p)
  unfolding with_stat
  Entry-with_stat k sub cs p h q =
      let (own, all) = Entry-add_email k sub cs.email h in
      (own, All-snoc (Q k) (add_email sub cs.email).proxies p all q)

  pub Entry-or_new :
      (k : String) (subs : Subs) (o : Option Subscriber)
      → All (Entry Q) subs
      → lookup k subs ≡ o
      → Entry Q (k, or_new k o)
  Entry-or_new k subs none h e = (refl, tt)
  Entry-or_new k subs (some sub) h e = All-lookup (Entry Q) k sub subs h e

  Entry-add_stats :
      (n : Node) (cfg : Inbound) (pi : PanelInbound) (css : List PanelClientStat) (subs : Subs)
      → ((cs : PanelClientStat)
          → In cs css
          → cs.enable ≡ true
          → Q cs.sub_id (client_proxy n cfg pi cs))
      → All (Entry Q) subs
      → All (Entry Q) (add_stats n cfg pi css subs)
  unfolding add_stats
  Entry-add_stats n cfg pi [] subs q h = h
  Entry-add_stats n cfg pi (cs ∷ css) subs q h =
      Entry-add_stats n cfg pi css _ (λ c i. q c (inr i))
        (elim (Bool-cases (not cs.enable || cs.sub_id == "")) [
          | inl skipped ↦ rw skipped h
          | inr kept ↦ rw kept (
              All-insert (Entry Q) cs.sub_id _ subs h (
                Entry-with_stat cs.sub_id _ cs _
                  (Entry-or_new cs.sub_id subs (lookup cs.sub_id subs) h refl)
                  (q cs (inl refl) (ground arith))))
        ])

  Entry-add_inbound :
      (s : PanelSnapshot) (cfg : Inbound) (fleet : Fleet)
      → ((pi : PanelInbound) (cs : PanelClientStat)
          → find_by_port s.inbounds cfg.port ≡ some pi
          → pi.enable ≡ true
          → In cs pi.stats
          → cs.enable ≡ true
          → Q cs.sub_id (client_proxy s.node cfg pi cs))
      → All (Entry Q) fleet.subs
      → All (Entry Q) (add_inbound s cfg fleet).subs
  unfolding add_inbound
  Entry-add_inbound s cfg fleet q h = go (find_by_port s.inbounds cfg.port) refl
    where
      go :
          (o : Option PanelInbound)
          → find_by_port s.inbounds cfg.port ≡ o
          → All (Entry Q) (serve s.node cfg o fleet.subs)
      go none e = h
      go (some pi) e = elim (Bool-cases pi.enable) [
        | inl on ↦
            rw on (
              Entry-add_stats s.node cfg pi pi.stats fleet.subs (λ cs i live. q pi cs e on i live)
                h)
        | inr off ↦ rw off h
      ]

module _ (snaps : List PanelSnapshot) where
  Entry-add_inbounds :
      (s : PanelSnapshot) (cfgs : List Inbound) (fleet : Fleet)
      → In s snaps
      → ((cfg : Inbound) → In cfg cfgs → In cfg s.node.inbounds)
      → All (Entry (Served snaps)) fleet.subs
      → All (Entry (Served snaps)) (add_inbounds s cfgs fleet).subs
  unfolding add_inbounds Served
  Entry-add_inbounds s [] fleet i c h = h
  Entry-add_inbounds s (cfg ∷ cfgs) fleet i c h =
      Entry-add_inbounds s cfgs (add_inbound s cfg fleet) i (λ x j. c x (inr j))
        (Entry-add_inbound (Served snaps) s cfg fleet
          (λ pi cs at on stat live.
            (s, cfg, pi, cs, i, c cfg (inl refl), at, on, stat, live, refl, refl))
          h)

  Entry-add_snapshots :
      (ss : List PanelSnapshot) (fleet : Fleet)
      → ((s : PanelSnapshot) → In s ss → In s snaps)
      → All (Entry (Served snaps)) fleet.subs
      → All (Entry (Served snaps)) (add_snapshots ss fleet).subs
  unfolding add_snapshots
  Entry-add_snapshots [] fleet c h = h
  Entry-add_snapshots (s ∷ ss) fleet c h =
      Entry-add_snapshots ss _ (λ x i. c x (inr i))
        (Entry-add_inbounds s s.node.inbounds fleet (c s (inl refl)) (λ x i. i) h)

-- In the fleet that is built from panel snapshots every subscriber stands under its own subscription
-- id, and each of its proxies is that of an enabled stat with this id, in an enabled panel inbound
-- which is the first one on the port of an inbound of that snapshot's node.
pub build_fleet-Served :
    (snaps : List PanelSnapshot) → All (Entry (Served snaps)) (build_fleet snaps).subs
unfolding build_fleet
build_fleet-Served snaps = Entry-add_snapshots snaps snaps _ (λ s i. i) tt
