-- ===== src/Serve/Resolves.antt =====
-- internal/handlers/sub/handler.go: which tokens are resolved.
use subgen.Prelude.Lists.{All, In, All-mono}
use subgen.Prelude.{
  ◌≡◌, ◌≢◌, ◌↔◌, ◌⊎◌, inl, inr, refl, String, Bool, false, List, [], ◌∷◌, Option, none, some, ok,
  >>=-eq-ok, ◌==◌, string_eq, eq_iff, Bool-cases, Option-cases, ap, sym,
}
use subgen.Serve.Token.{make, matches}
use subgen.Serve.Handler.{
  Formats, not_found, Backend, Renderer, subscriber_in, find_sub_id, config_id, serve, serve_found,
  sub, served, empty_subscriber, headers_of, Headers,
}
use subgen.Serve.Mihomo.{RenderMeta}
use subgen.Serve.Owner.{serve-Made}
use subgen.Entity.Fleet.{Fleet, Subscriber, sub_of}
use subgen.Prelude.Int.{ℤ}
use subgen.Prelude.Maps.{lookup}

module _ (match : String → String → Bool) (token : String) where
  -- No id is found just when none has the token, when no id is empty.
  none_found :
      (ids : List String)
      → ¬ In "" ids
      → (find_sub_id match token ids ≡ "") ↔ All (λ id. match id token ≡ false) ids
  unfolding find_sub_id
  none_found [] h = ((λ e. tt), (λ e. refl))
  none_found (id ∷ ids) h = elim (Bool-cases (match id token)) [
    | inl same ↦ rw same ((λ e. absurd (h (inl e))), λ a. let e = a.0 in cc)
    | inr other ↦
        let rest = none_found ids (λ i. h (inr i)) in
        rw other ((λ e. (refl, rest.0 e)), λ a. rest.1 a.1)
  ]

module _ {E B : Type 0} (hex : String → String → String) (secret : String) (fmt : Formats)
    (renderers : String → Option (Renderer E B)) (back : Backend E) where
  serve-found :
      (renderer : Renderer E B) (kind id : String)
      → serve hex secret fmt renderers back renderer kind id ≢ ok not_found
  serve-found renderer kind id e =
      let user = >>=-eq-ok (back.id_by_sub_id id) _ not_found e in
      let config = >>=-eq-ok (config_id back user.0 kind) _ not_found user.2 in
      let fleet = >>=-eq-ok back.fleet _ not_found config.2 in
      let out = >>=-eq-ok (renderer (subscriber_in fleet.0 id) config.0) _ not_found fleet.2 in
      cc (out.2)

  -- No id has the token.
  abbrev pub Unmatched : String → List String → Type 0
  Unmatched token ids = All (λ id. make hex secret id ≢ token) ids

  Unmatched-iff :
      (token : String) (ids : List String)
      → ¬ In "" ids
      → (find_sub_id (matches hex secret) token ids ≡ "") ↔ Unmatched token ids
  unfolding matches
  Unmatched-iff token ids h =
      let iff = none_found (matches hex secret) token ids h in
      (
        (λ e.
            All-mono ids (λ id f m. let t = (eq_iff (make hex secret id) token).1 m in cc)
              (iff.0 e)),
        (λ a. iff.1 (
            All-mono ids
              (λ id ne. elim (Bool-cases (make hex secret id == token)) [
                | inl same ↦ absurd (ne ((eq_iff (make hex secret id) token).0 same))
                | inr other ↦ other
              ])
              a)),
      )

  serve_found_iff :
      (renderer : Renderer E B) (kind id : String)
      → (serve_found hex secret fmt renderers back renderer kind id ≡ ok not_found) ↔ (id ≡ "")
  serve_found_iff renderer kind id = elim (Bool-cases (id == "")) [
    | inl blank ↦ rw blank ((λ e. (eq_iff id "").0 blank), λ e. refl)
    | inr given ↦
        rw given
          ((λ e. absurd (serve-found renderer kind id e)), λ e. let t = (eq_iff id "").1 e in cc)
  ]

  -- When the ids of the users are read and none of them is empty, the answer is a 404 just when the kind
  -- has no renderer, the token is empty, or the token is made of no id.
  pub sub-not_found_iff :
      (kind token : String) (ids : List String)
      → back.sub_ids ≡ ok ids
      → ¬ In "" ids
      → (sub hex secret fmt renderers back kind token ≡ ok not_found)
        ↔ ((renderers kind ≡ none) ⊎ ((token ≡ "") ⊎ Unmatched token ids))
  unfolding sub
  sub-not_found_iff kind token ids read h = elim (Option-cases (renderers kind)) [
    | inl unknown ↦ rw unknown ((λ e. inl refl), λ e. refl)
    | inr (renderer, known) ↦ elim (Bool-cases (token == "")) [
      | inl blank ↦ rw (known, blank) ((λ e. inr (inl ((eq_iff token "").0 blank))), λ e. refl)
      | inr given ↦
          let id = find_sub_id (matches hex secret) token ids in
          let iff = Unmatched-iff token ids h in
          let end = serve_found_iff renderer kind id in
          rw (known, given, read)
            (
              (λ e. inr (inr (iff.0 (end.0 e)))),
              λ o. end.1 (
                  iff.1 (elim o [
                    | inl e ↦ cc
                    | inr (inl e) ↦ let t = (eq_iff token "").1 e in cc
                    | inr (inr a) ↦ a
                  ])),
            )
    ]
  ]

module _ {E B : Type 0} (hex : String → String → String) (secret : String) (fmt : Formats)
    (renderers : String → Option (Renderer E B)) (back : Backend E) where
  -- The token that Make gives of a user's id is resolved to that id, when no other id has the same token.
  find-make :
      (ids : List String) (id : String)
      → In id ids
      → ((x : String) → In x ids → make hex secret x ≡ make hex secret id → x ≡ id)
      → find_sub_id (matches hex secret) (make hex secret id) ids ≡ id
  unfolding find_sub_id matches
  find-make [] id i only = absurd i
  find-make (x ∷ ids) id i only = elim (Bool-cases (make hex secret x == make hex secret id)) [
    | inl same ↦
        rw same (only x (inl refl) ((eq_iff (make hex secret x) (make hex secret id)).0 same))
    | inr other ↦ rw other (
        find-make ids id
          (elim i [
            | inl e ↦
                let t =
                  (eq_iff (make hex secret x) (make hex secret id)).1 (ap (make hex secret) e) in
                cc
            | inr j ↦ j
          ])
          (λ y j. only y (inr j)))
  ]

  -- The subscriber of the fleet with this id, or one without proxies and traffic.
  abbrev pub SubscriberOf : Fleet → String → Subscriber → Type 0
  SubscriberOf fleet id s =
      (lookup id fleet.subs ≡ some s) ⊎ ((lookup id fleet.subs ≡ none) × (s ≡ empty_subscriber id))

  subscriber_in_iff :
      (fleet : Fleet) (id : String) (s : Subscriber)
      → SubscriberOf fleet id s ↔ (subscriber_in fleet id ≡ s)
  unfolding subscriber_in sub_of
  subscriber_in_iff fleet id s = elim (Option-cases (lookup id fleet.subs)) [
    | inl missing ↦
        rw missing
          ((λ o. elim o [ inl e ↦ absurd cc | inr (n, e) ↦ sym e ]), λ e. inr (refl, sym e))
    | inr (x, at) ↦
        rw at ((λ o. elim o [ inl e ↦ cc | inr (n, e) ↦ absurd cc ]), λ e. inl (ap some e))
  ]

  -- What is rendered of the subscriber with the id, for the config of the user who has the id.
  abbrev pub ServedTo : Renderer E B → String → String → Headers → B → Type 0
  ServedTo renderer kind id h b =
      (user : ℤ) × (config : ℤ) × (fleet : Fleet) × (s : Subscriber) × (meta : RenderMeta)
      × (back.id_by_sub_id id ≡ ok user)
      × (config_id back user kind ≡ ok config)
      × (back.fleet ≡ ok fleet)
      × SubscriberOf fleet id s
      × (renderer s config ≡ ok (b, meta))
      × (h ≡ headers_of fmt s meta)

  serve_iff :
      (renderer : Renderer E B) (kind id : String) (h : Headers) (b : B)
      → (serve hex secret fmt renderers back renderer kind id ≡ ok (served h b))
        ↔ ServedTo renderer kind id h b
  serve_iff renderer kind id h b = (
    (λ e.
        let (user, config, fleet, meta, u, c, f, out, head) =
          serve-Made hex secret fmt renderers back renderer kind id h b e in
        (
          user,
          config,
          fleet,
          subscriber_in fleet id,
          meta,
          u,
          c,
          f,
          (subscriber_in_iff fleet id (subscriber_in fleet id)).1 refl,
          out,
          head,
        )),
    (λ (user, config, fleet, s, meta, u, c, f, of, out, head).
        let same = (subscriber_in_iff fleet id s).0 of in rw (u, c, f, same, out, head) refl),
  )

  -- When the ids of the users are read, and an id of them is not empty, its token is not empty and is that
  -- of no other id, the answer to this token, by any engine that is there, is a 200 just when the
  -- repositories and the renderer succeed for this id: the user is the one with the id, the config is that
  -- user's, the subscriber is the one of the fleet with the id, or one without proxies, and body and headers
  -- are those of this subscriber and of what the renderer makes of it.
  pub sub-make :
      (kind id : String) (ids : List String) (renderer : Renderer E B) (h : Headers) (b : B)
      → renderers kind ≡ some renderer
      → back.sub_ids ≡ ok ids
      → In id ids
      → ((x : String) → In x ids → make hex secret x ≡ make hex secret id → x ≡ id)
      → id ≢ ""
      → make hex secret id ≢ ""
      → (sub hex secret fmt renderers back kind (make hex secret id) ≡ ok (served h b))
        ↔ ServedTo renderer kind id h b
  unfolding sub
  sub-make kind id ids renderer h b known read i only ne ne' =
      elim (Bool-cases (make hex secret id == "")) [
        | inl blank ↦ absurd (ne' ((eq_iff (make hex secret id) "").0 blank))
        | inr given ↦ elim (Bool-cases (id == "")) [
          | inl blank ↦ absurd (ne ((eq_iff id "").0 blank))
          | inr some_id ↦
              rw (known, given, read, find-make ids id i only, some_id)
                (serve_iff renderer kind id h b)
        ]
      ]
