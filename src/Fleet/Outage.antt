-- ===== src/Fleet/Outage.antt =====
-- internal/service/fleet/fleet.go: which outages are tolerated.
use subgen.Prelude.Int.{ℤ}
use subgen.Prelude.Lists.{All, In}
use subgen.Prelude.{
  String, ◌≡◌, ◌≢◌, refl, ap, ◌∙◌, inl, inr, List, [], ◌∷◌, Result, ok, err, ◌⊎◌, map,
}
use subgen.Entity.Node.{Node}
use subgen.Entity.Panel.{PanelInbound}
use subgen.Fleet.Build.{PanelSnapshot, build_fleet}
use subgen.Fleet.Hysteria.{add_hysteria2_inbounds}
use subgen.Fleet.Fetch.{FleetError, Answers, one_answer, ask_panels, some_answer, fetch}

-- The panel of the node answers.
abbrev pub Answering : (Node → Result String (List PanelInbound)) → Node → Type 0
Answering ask n = (inbounds : List PanelInbound) × (ask n ≡ ok inbounds)

-- The snapshots are those of the nodes whose panels answer, in their order.
unfoldable pub SnapshotsOf :
    (Node → Result String (List PanelInbound)) → List Node → List PanelSnapshot → Type 0
SnapshotsOf ask [] [] = Unit
SnapshotsOf ask [] (s ∷ ss) = ⊥
SnapshotsOf ask (n ∷ ns) [] = ((e : String) × (ask n ≡ err e)) × SnapshotsOf ask ns []
SnapshotsOf ask (n ∷ ns) (s ∷ ss) =
    ((s.node ≡ n) × (ask n ≡ ok s.inbounds) × SnapshotsOf ask ns ss)
    ⊎ (((e : String) × (ask n ≡ err e)) × SnapshotsOf ask ns (s ∷ ss))

some_snapshots : (a : Answers) → a.0 ≢ [] → some_answer a ≡ ok a.0
some_snapshots ([], errs) h = absurd (h refl)
some_snapshots (s ∷ ss, errs) h = refl

-- No snapshot, and the errors of some nodes.
no_snapshots :
    (n : Node) (ns : List Node) (a : Answers)
    → a.0 ≡ []
    → map (λ e. e.0) a.1 ≡ n.name ∷ map (λ n. n.name) ns
    → some_answer a ≡ err (FleetError.all_panels_failed a.1)
no_snapshots n ns ([], e ∷ es) h g = refl
no_snapshots n ns ([], []) h g = cc
no_snapshots n ns (s ∷ ss, es) h g = cc

module _ (ask : Node → Result String (List PanelInbound)) where
  silent :
      (n : Node) (e : String) (ns : List Node) (ss : List PanelSnapshot)
      → ask n ≡ err e
      → SnapshotsOf ask ns ss
      → SnapshotsOf ask (n ∷ ns) ss
  unfolding SnapshotsOf
  silent n e ns [] h rest = ((e, h), rest)
  silent n e ns (s ∷ ss) h rest = inr ((e, h), rest)

  one_answer-SnapshotsOf :
      (n : Node) (ns : List Node) (r : Result String (List PanelInbound)) (rest : Answers)
      → ask n ≡ r
      → SnapshotsOf ask ns rest.0
      → SnapshotsOf ask (n ∷ ns) (one_answer n r rest).0
  unfolding SnapshotsOf
  one_answer-SnapshotsOf n ns (err e) rest h below = silent n e ns rest.0 h below
  one_answer-SnapshotsOf n ns (ok inbounds) rest h below = inl (refl, h, below)

  ask_panels-SnapshotsOf : (ns : List Node) → SnapshotsOf ask ns (ask_panels ask ns).0
  unfolding ask_panels SnapshotsOf
  ask_panels-SnapshotsOf [] = tt
  ask_panels-SnapshotsOf (n ∷ ns) =
      one_answer-SnapshotsOf n ns (ask n) (ask_panels ask ns) refl (ask_panels-SnapshotsOf ns)

  more_snapshots :
      (n : Node) (r : Result String (List PanelInbound)) (rest : Answers)
      → rest.0 ≢ []
      → (one_answer n r rest).0 ≢ []
  more_snapshots n (err e) rest h = h
  more_snapshots n (ok inbounds) rest h = λ e. cc

  answered : (n : Node) (ns : List Node) → In n ns → Answering ask n → (ask_panels ask ns).0 ≢ []
  unfolding ask_panels
  answered n [] i a = absurd i
  answered n (m ∷ ns) (inl e) (inbounds, h) =
      let h' : ask m ≡ ok inbounds = ap ask e ∙ h in rw h' (λ f. cc)
  answered n (m ∷ ns) (inr i) a = more_snapshots m (ask m) (ask_panels ask ns) (answered n ns i a)

  -- When the nodes and the subscribers are read and the panel of some node answers, fetch builds the fleet from the panels that answer, in the
  -- order of the nodes, and then the hysteria2 proxies of all nodes; the panels that fail are passed over.
  pub fetch-SnapshotsOf :
      (ns : List Node) (n : Node) (subs : List (ℤ × List String))
      → In n ns
      → Answering ask n
      → (snaps : List PanelSnapshot) × SnapshotsOf ask ns snaps
        × (fetch ask (ok ns) (ok subs) ≡ ok (add_hysteria2_inbounds (build_fleet snaps) ns subs))
  unfolding fetch
  fetch-SnapshotsOf ns n subs i a = (
    (ask_panels ask ns).0,
    ask_panels-SnapshotsOf ns,
    rw (some_snapshots (ask_panels ask ns) (answered n ns i a)) refl,
  )

  -- The panel of the node does not answer.
  abbrev pub Silent : Node → Type 0
  Silent n = (e : String) × (ask n ≡ err e)

  outage :
      (ns : List Node)
      → All Silent ns
      → ((ask_panels ask ns).0 ≡ []) × (map (λ e. e.0) (ask_panels ask ns).1 ≡ map (λ n. n.name) ns)
  unfolding ask_panels
  outage [] h = (refl, refl)
  outage (n ∷ ns) ((e, h), rest) =
      let below = outage ns rest in rw h (below.0, ap (λ names. n.name ∷ names) below.1)

  -- When there are nodes and no panel answers, fetch fails with an error for each node, in order.
  pub fetch-outage :
      (ns : List Node) (subscribers : Result String (List (ℤ × List String)))
      → ns ≢ []
      → All Silent ns
      → (errs : List (String × String)) × (fetch ask (ok ns) subscribers
          ≡ err (FleetError.all_panels_failed errs))
        × (map (λ e. e.0) errs ≡ map (λ n. n.name) ns)
  unfolding fetch
  fetch-outage [] subscribers ne h = absurd (ne refl)
  fetch-outage (n ∷ ns) subscribers ne h =
      let all = outage (n ∷ ns) h in
      (
        (ask_panels ask (n ∷ ns)).1,
        rw (no_snapshots n ns (ask_panels ask (n ∷ ns)) all.0 all.1) refl,
        all.1,
      )
