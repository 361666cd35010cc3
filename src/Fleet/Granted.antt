-- ===== src/Fleet/Granted.antt =====
-- Where the proxies come from after the hysteria2 inbounds were added.
use subgen.Prelude.Int.{ℤ, int_eq}
use subgen.Prelude.Lists.{All, In}
use subgen.Prelude.Maps.{lookup, All-insert}
use subgen.Prelude.{
  String, true, List, [], ◌∷◌, Option, none, some, string_eq, ◌≡◌, refl, ◌⊎◌, inl, inr, Bool-cases,
}
use subgen.Entity.Node.{Node, Inbound, is_hysteria2, Hysteria2Settings}
use subgen.Entity.Fleet.{Proxy}
use subgen.Fleet.Build.{PanelSnapshot, Subs, or_new, or_none, build_fleet}
use subgen.Fleet.Hysteria.{
  hysteria2_proxy, grant, grant_each, grant_to, grant_inbounds, grant_nodes, add_hysteria2_inbounds,
}
use subgen.Fleet.Provenance.{Entry, Entry-or_new, Served, All-snoc, build_fleet-Served}

-- The proxy is that of a hysteria2 inbound with settings, and the user has a connection to it.
pub Granted : List (ℤ × List String) → List Node → String → Proxy → Type 0
Granted by_inbound nodes id p =
    (n : Node) × (cfg : Inbound) × (h : Hysteria2Settings) × In n nodes
    × In cfg n.inbounds
    × (is_hysteria2 cfg ≡ true)
    × (cfg.hysteria2 ≡ some h)
    × In id (or_none (lookup cfg.id by_inbound))
    × (p ≡ hysteria2_proxy n cfg h)

module _ (Q : String → Proxy → Type 0) where
  Entry-grant_each :
      (p : Proxy) (ids : List String) (subs : Subs)
      → ((id : String) → In id ids → Q id p)
      → All (Entry Q) subs
      → All (Entry Q) (grant_each p ids subs)
  unfolding grant_each
  Entry-grant_each p [] subs q h = h
  Entry-grant_each p (id ∷ ids) subs q h =
      let (own, all) = Entry-or_new Q id subs (lookup id subs) h refl in
      let granted : Entry Q (id, grant (or_new id (lookup id subs)) p) =
        (own, All-snoc (Q id) (or_new id (lookup id subs)).proxies p all (q id (inl refl))) in
      Entry-grant_each p ids _ (λ x i. q x (inr i))
        (All-insert (Entry Q) id (grant (or_new id (lookup id subs)) p) subs h granted)

  Entry-grant_to :
      (n : Node) (cfg : Inbound) (o : Option Hysteria2Settings) (ids : List String) (subs : Subs)
      → ((h : Hysteria2Settings) (id : String)
          → o ≡ some h
          → In id ids
          → Q id (hysteria2_proxy n cfg h))
      → All (Entry Q) subs
      → All (Entry Q) (grant_to n cfg o ids subs)
  Entry-grant_to n cfg none ids subs q h = h
  Entry-grant_to n cfg (some x) ids subs q h =
      Entry-grant_each (hysteria2_proxy n cfg x) ids subs (λ id i. q x id refl i) h

module _ (by_inbound : List (ℤ × List String)) (nodes : List Node) (Q : String → Proxy → Type 0)
    (allow : (id : String) (p : Proxy) → Granted by_inbound nodes id p → Q id p) where
  Entry-grant_inbounds :
      (n : Node) (cfgs : List Inbound) (subs : Subs)
      → In n nodes
      → ((cfg : Inbound) → In cfg cfgs → In cfg n.inbounds)
      → All (Entry Q) subs
      → All (Entry Q) (grant_inbounds by_inbound n cfgs subs)
  unfolding grant_inbounds Granted
  Entry-grant_inbounds n [] subs i c h = h
  Entry-grant_inbounds n (cfg ∷ cfgs) subs i c h =
      Entry-grant_inbounds n cfgs _ i (λ x j. c x (inr j))
        (elim (Bool-cases (is_hysteria2 cfg)) [
          | inl is ↦ rw is (
              Entry-grant_to Q n cfg cfg.hysteria2 (or_none (lookup cfg.id by_inbound)) subs
                (λ x id set j. allow id _ (n, cfg, x, i, c cfg (inl refl), is, set, j, refl)) h)
          | inr other ↦ rw other h
        ])

  Entry-grant_nodes :
      (ns : List Node) (subs : Subs)
      → ((n : Node) → In n ns → In n nodes)
      → All (Entry Q) subs
      → All (Entry Q) (grant_nodes by_inbound ns subs)
  unfolding grant_nodes
  Entry-grant_nodes [] subs c h = h
  Entry-grant_nodes (n ∷ ns) subs c h =
      Entry-grant_nodes ns _ (λ x i. c x (inr i))
        (Entry-grant_inbounds n n.inbounds subs (c n (inl refl)) (λ x i. i) h)

Entry-weaken :
    (Q R : String → Proxy → Type 0)
    → ((id : String) (p : Proxy) → Q id p → R id p)
    → (subs : Subs) → All (Entry Q) subs
    → All (Entry R) subs
Entry-weaken Q R f [] h = tt
Entry-weaken Q R f (e ∷ es) h = ((h.0.0, each e.1.proxies h.0.1), Entry-weaken Q R f es h.1)
  where
    each : (ps : List Proxy) → All (Q e.0) ps → All (R e.0) ps
    each [] k = tt
    each (p ∷ ps) k = (f e.0 p k.0, each ps k.1)

-- In the fleet after the hysteria2 inbounds were added every subscriber stands under its own
-- subscription id, and each of its proxies is either that of an enabled stat with this id, in an
-- enabled panel inbound which is the first one on the port of an inbound of that snapshot's node;
-- or that of a hysteria2 inbound of a node, with its stored settings, to which the subscriptions
-- of the inbound list this id.
pub add_hysteria2_inbounds-Granted :
    (snaps : List PanelSnapshot) (nodes : List Node) (by_inbound : List (ℤ × List String))
    → All
        (Entry (λ id p. Served snaps id p ⊎ Granted by_inbound nodes id p))
        (add_hysteria2_inbounds (build_fleet snaps) nodes by_inbound).subs
unfolding add_hysteria2_inbounds
add_hysteria2_inbounds-Granted snaps nodes by_inbound =
    Entry-grant_nodes by_inbound nodes _ (λ id p g. inr g) nodes (build_fleet snaps).subs (λ n i. i)
      (Entry-weaken (Served snaps) _ (λ id p s. inl s) (build_fleet snaps).subs
        (build_fleet-Served snaps))
