-- ===== src/Fleet/Fetch.antt =====
-- internal/service/fleet/fleet.go: the fleet from the panels that answer. The answers of nodes.List, of
-- ListInbounds for each node and of InboundSubscribers are given.
use subgen.Prelude.Int.{ℤ}
use subgen.Prelude.{String, List, [], ◌∷◌, Result, ok, err, ◌>>=◌}
use subgen.Entity.Node.{Node}
use subgen.Entity.Panel.{PanelInbound}
use subgen.Entity.Fleet.{Fleet}
use subgen.Fleet.Build.{PanelSnapshot, build_fleet}
use subgen.Fleet.Hysteria.{add_hysteria2_inbounds}

-- What fetch returns as an error; the texts of the wrapped errors stand for them.
pub data FleetError : Type 0 where
  nodes_failed subscribers_failed : String → FleetError
  all_panels_failed : List (String × String) → FleetError

-- snaps and errs
abbrev pub Answers : Type 0
Answers = List PanelSnapshot × List (String × String)

abbrev pub one_answer : Node → Result String (List PanelInbound) → Answers → Answers
one_answer n (err e) rest = (rest.0, (n.name, e) ∷ rest.1)
one_answer n (ok inbounds) rest = (record { node = n; inbounds = inbounds } ∷ rest.0, rest.1)

-- The snapshots, unless there are errors alone.
abbrev pub some_answer : Answers → Result FleetError (List PanelSnapshot)
some_answer ([], e ∷ es) = err (FleetError.all_panels_failed (e ∷ es))
some_answer (snaps, errs) = ok snaps

abbrev pub listed : Result String (List Node) → Result FleetError (List Node)
listed (err e) = err (FleetError.nodes_failed e)
listed (ok ns) = ok ns

abbrev pub subscribed :
    Result String (List (ℤ × List String)) → Result FleetError (List (ℤ × List String))
subscribed (err e) = err (FleetError.subscribers_failed e)
subscribed (ok subs) = ok subs

module _ (list_inbounds : Node → Result String (List PanelInbound)) where
  -- The loop over the nodes.
  unfoldable pub ask_panels : List Node → Answers
  ask_panels [] = ([], [])
  ask_panels (n ∷ ns) = one_answer n (list_inbounds n) (ask_panels ns)

  -- Service.fetch
  unfoldable pub fetch :
      Result String (List Node) → Result String (List (ℤ × List String)) → Result FleetError Fleet
  unfolding ask_panels build_fleet add_hysteria2_inbounds
  fetch nodes subscribers = do
    ns ← listed nodes
    snaps ← some_answer (ask_panels ns)
    subs ← subscribed subscribers
    ok (add_hysteria2_inbounds (build_fleet snaps) ns subs)
