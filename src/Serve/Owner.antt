-- ===== src/Serve/Owner.antt =====
-- internal/handlers/sub/handler.go: whose subscription a token serves.
use subgen.Prelude.Int.{ℤ}
use subgen.Prelude.Lists.{All, In}
use subgen.Prelude.Maps.{lookup, All-lookup}
use subgen.Prelude.{
  ◌≡◌, ◌≢◌, ◌⊎◌, inl, inr, refl, sym, subst, String, Bool, true, List, [], ◌∷◌, Option, none, some,
  ok, >>=-eq-ok, ◌==◌, string_eq, eq_iff, Bool-cases, Option-cases,
}
use subgen.Entity.Node.{Node}
use subgen.Entity.Fleet.{Subscriber, Fleet, sub_of}
use subgen.Fleet.Build.{PanelSnapshot, build_fleet}
use subgen.Fleet.Hysteria.{add_hysteria2_inbounds}
use subgen.Fleet.Provenance.{Entry, Served}
use subgen.Fleet.Granted.{Granted, add_hysteria2_inbounds-Granted}
use subgen.Serve.Token.{make, matches}
use subgen.Serve.Mihomo.{RenderMeta}
use subgen.Serve.Handler.{
  Formats, Headers, served, Backend, Renderer, subscriber_in, find_sub_id, config_id, headers_of,
  serve, serve_found, with_renderer, sub,
}

module _ (match : String → String → Bool) (token : String) where
  -- An id that is found is one of the ids, and it has the token.
  found :
      (ids : List String)
      → find_sub_id match token ids ≢ ""
      → In (find_sub_id match token ids) ids × (match (find_sub_id match token ids) token ≡ true)
  unfolding find_sub_id
  found [] ne = absurd (ne refl)
  found (id ∷ ids) ne = elim (Bool-cases (match id token)) [
    | inl same ↦ rw same (inl refl, same)
    | inr other ↦
        let e : find_sub_id match token (id ∷ ids) ≡ find_sub_id match token ids = rw other refl in
        subst (λ x. In x (id ∷ ids) × (match x token ≡ true)) (sym e)
          (let (i, m) = found ids (rw other at ne) in (inr i, m))
  ]

module _ (snaps : List PanelSnapshot) (nodes : List Node)
    (by_inbound : List (ℤ × List String)) where
  -- The proxies of a subscription: those of the panels' clients with its id, and those of the hysteria2
  -- inbounds to which it is connected.
  abbrev pub Theirs : String → Subscriber → Type 0
  Theirs id s =
      (s.sub_id ≡ id) × All (λ p. Served snaps id p ⊎ Granted by_inbound nodes id p) s.proxies

  subscriber-Theirs :
      (id : String)
      → Theirs id (subscriber_in (add_hysteria2_inbounds (build_fleet snaps) nodes by_inbound) id)
  unfolding subscriber_in sub_of
  subscriber-Theirs id =
      let fleet = add_hysteria2_inbounds (build_fleet snaps) nodes by_inbound in
      elim (Option-cases (lookup id fleet.subs)) [
        | inl missing ↦ rw missing (refl, tt)
        | inr (s, at) ↦ rw at (
            All-lookup (Entry (λ id p. Served snaps id p ⊎ Granted by_inbound nodes id p)) id s
              fleet.subs (add_hysteria2_inbounds-Granted snaps nodes by_inbound) at)
      ]

module _ {E B : Type 0} (hex : String → String → String) (secret : String) (fmt : Formats)
    (renderers : String → Option (Renderer E B)) (back : Backend E) where
  -- The answer is what the renderer makes of the subscriber of an id, for the config of its user.
  abbrev pub Made : Renderer E B → String → String → Headers → B → Type 0
  Made renderer kind id h b =
      (user : ℤ) × (config : ℤ) × (fleet : Fleet) × (meta : RenderMeta) × (back.id_by_sub_id id
        ≡ ok user)
      × (config_id back user kind ≡ ok config)
      × (back.fleet ≡ ok fleet)
      × (renderer (subscriber_in fleet id) config ≡ ok (b, meta))
      × (h ≡ headers_of fmt (subscriber_in fleet id) meta)

  pub serve-Made :
      (renderer : Renderer E B) (kind id : String) (h : Headers) (b : B)
      → serve hex secret fmt renderers back renderer kind id ≡ ok (served h b)
      → Made renderer kind id h b
  serve-Made renderer kind id h b e =
      let user = >>=-eq-ok (back.id_by_sub_id id) _ (served h b) e in
      let config = >>=-eq-ok (config_id back user.0 kind) _ (served h b) user.2 in
      let fleet = >>=-eq-ok back.fleet _ (served h b) config.2 in
      let out = >>=-eq-ok (renderer (subscriber_in fleet.0 id) config.0) _ (served h b) fleet.2 in
      (user.0, config.0, fleet.0, out.0.1, user.1, config.1, fleet.1, cc (out.1), cc (out.2))

  -- Who is served: an id of the users with the token.
  abbrev pub Matched : String → String → Type 0
  Matched token id =
      (ids : List String) × (back.sub_ids ≡ ok ids)
      × In id ids
      × (make hex secret id ≡ token)
      × (id ≢ "")

  serve_found-Made :
      (renderer : Renderer E B) (kind token : String) (ids : List String) (h : Headers) (b : B)
      → back.sub_ids ≡ ok ids
      → serve_found hex secret fmt renderers back renderer kind
          (find_sub_id (matches hex secret) token ids)
        ≡ ok (served h b)
      → (id : String) × Matched token id × Made renderer kind id h b
  unfolding matches
  serve_found-Made renderer kind token ids h b read e =
      let id = find_sub_id (matches hex secret) token ids in
      elim (Bool-cases (id == "")) [
        | inl blank ↦ let none_served = (rw blank at e) in cc
        | inr given ↦
            let ne : id ≢ "" = λ e. let t = (eq_iff id "").1 e in cc in
            let (i, m) = found (matches hex secret) token ids ne in
            (
              id,
              (ids, read, i, (eq_iff (make hex secret id) token).0 m, ne),
              serve-Made renderer kind id h b (rw given at e),
            )
      ]

  abbrev pub Answer : String → String → Headers → B → Type 0
  Answer kind token h b =
      (renderer : Renderer E B) × (id : String) × (renderers kind ≡ some renderer)
      × Matched token id
      × Made renderer kind id h b

  with_renderer-Answer :
      (o : Option (Renderer E B)) (kind token : String) (h : Headers) (b : B)
      → renderers kind ≡ o
      → with_renderer hex secret fmt renderers back o kind token ≡ ok (served h b)
      → Answer kind token h b
  with_renderer-Answer none kind token h b known e = cc
  with_renderer-Answer (some renderer) kind token h b known e = elim (Bool-cases (token == "")) [
    | inl blank ↦ let none_served = (rw blank at e) in cc
    | inr given ↦
        let read = >>=-eq-ok back.sub_ids _ (served h b) (rw given at e) in
        let (id, matched, made) = serve_found-Made renderer kind token read.0 h b read.1 read.2 in
        (renderer, id, known, matched, made)
  ]

  pub sub-Answer :
      (kind token : String) (h : Headers) (b : B)
      → sub hex secret fmt renderers back kind token ≡ ok (served h b)
      → Answer kind token h b
  unfolding sub
  sub-Answer kind token h b e = with_renderer-Answer (renderers kind) kind token h b refl e

  -- When the fleet is that of some panel snapshots and subscriptions, an answer of 200 to a token is what
  -- the renderer of the kind makes of a subscriber of which the token is made, one of the users: every
  -- proxy is that of an enabled client with the subscriber's id on a panel, or that of a hysteria2 inbound
  -- to which the id is connected; it is made for the config of its user, and the headers are those of this subscriber and of the rendered config.
  pub sub-Theirs :
      (snaps : List PanelSnapshot) (nodes : List Node) (by_inbound : List (ℤ × List String))
      (kind token : String) (h : Headers) (b : B)
      → back.fleet ≡ ok (add_hysteria2_inbounds (build_fleet snaps) nodes by_inbound)
      → sub hex secret fmt renderers back kind token ≡ ok (served h b)
      → (renderer : Renderer E B) × (id : String) × (s : Subscriber) × (user : ℤ) × (config : ℤ)
        × (meta : RenderMeta) × (renderers kind ≡ some renderer)
        × Matched token id
        × (back.id_by_sub_id id ≡ ok user)
        × (config_id back user kind ≡ ok config)
        × Theirs snaps nodes by_inbound id s
        × (renderer s config ≡ ok (b, meta))
        × (h ≡ headers_of fmt s meta)
  sub-Theirs snaps nodes by_inbound kind token h b is e =
      let (renderer, id, known, matched, made) = sub-Answer kind token h b e in
      let (user, config, fleet, meta, u, c, f, out, head) = made in
      let same : fleet ≡ add_hysteria2_inbounds (build_fleet snaps) nodes by_inbound = cc in
      (
        renderer,
        id,
        subscriber_in fleet id,
        user,
        config,
        meta,
        known,
        matched,
        u,
        c,
        subst (λ f. Theirs snaps nodes by_inbound id (subscriber_in f id)) (sym same)
            (subscriber-Theirs snaps nodes by_inbound id),
        out,
        head,
      )
