-- ===== src/Provision/Service/Guard.antt =====
-- What `ensureEmailFree` has found out when it returns no error.
use subgen.Prelude.Int.{ℤ, int_eq}
use subgen.Prelude.Lists.{All}
use subgen.Prelude.Maps.{lookup}
use subgen.Prelude.{
  String, false, List, [], ◌∷◌, Option, none, some, Result, ok, err, ◌≡◌, ◌≢◌, ◌↔◌, refl, sym, ap,
  ◌==◌, string_eq, eq_iff, Bool-cases, inl, inr, subst,
}
use subgen.Entity.Node.{Node}
use subgen.Entity.Panel.{PanelClient, PanelInbound, target}
use subgen.Provision.Act.{Backend, State, Act, Call, Error, pure, lift, continue, recorded, ◌>>=◌}
use subgen.Provision.Targets.{NodesById}
use subgen.Provision.Sync.{list_inbounds}
use subgen.Provision.Service.{
  has_client, hosts_email, email_exists_on_panel, panel_is_free, ensure_email_free,
}

-- No inbound has a client of this email.
abbrev pub NoClient : String → List PanelInbound → Type 0
NoClient email inbounds = All (λ i. All (λ c. c.email ≢ email) i.clients) inbounds

has_client_iff :
    (cs : List PanelClient) (email : String)
    → (has_client cs email ≡ false) ↔ All (λ c. c.email ≢ email) cs
unfolding has_client
has_client_iff [] email = ((λ h. tt), (λ h. refl))
has_client_iff (c ∷ cs) email =
    let rest = has_client_iff cs email in
    elim (Bool-cases (c.email == email)) [
      | inl same ↦ rw same ((λ h. absurd cc), λ h. absurd (h.0 ((eq_iff c.email email).0 same)))
      | inr other ↦ rw other (
        (λ h. ((λ e. let t = (eq_iff c.email email).1 e in absurd cc), rest.0 h)),
        λ h. rest.1 h.1,
      )
    ]

hosts_email_iff :
    (is : List PanelInbound) (email : String) → (hosts_email is email ≡ false) ↔ NoClient email is
unfolding hosts_email
hosts_email_iff [] email = ((λ h. tt), (λ h. refl))
hosts_email_iff (i ∷ is) email =
    let rest = hosts_email_iff is email in
    let here = has_client_iff i.clients email in
    elim (Bool-cases (has_client i.clients email)) [
      | inl found ↦ rw found ((λ h. absurd cc), λ h. let e = here.1 h.0 in absurd cc)
      | inr clear ↦ rw clear ((λ h. (here.0 clear, rest.0 h)), λ h. rest.1 h.1)
    ]

module _ {W : Type 0} where
  -- An action that returned, in two parts.
  bind-ok :
      {A B : Type 0} (m : Act W A) (f : A → Act W B) (s t : State W) (z : B)
      → (m >>= f) s ≡ (ok z, t)
      → (a : A) × (s' : State W) × (m s ≡ (ok a, s')) × (f a s' ≡ (ok z, t))
  unfolding ◌>>=◌
  bind-ok {A = A} {B = B} m f s t z h = go (m s) refl h
    where
      go :
          (r : Result Error A × State W)
          → m s ≡ r
          → continue r f ≡ (ok z, t)
          → (a : A) × (s' : State W) × (m s ≡ (ok a, s')) × (f a s' ≡ (ok z, t))
      go (ok a, s') e k = (a, s', e, k)
      go (err x, s') e k = cc

  bind_back :
      {A B : Type 0} (m : Act W A) (f : A → Act W B) (s s' t : State W) {z : B} (a : A)
      → m s ≡ (ok a, s')
      → f a s' ≡ (ok z, t)
      → (m >>= f) s ≡ (ok z, t)
  unfolding ◌>>=◌
  bind_back m f s s' t a first rest = rw first rest

module _ {W : Type 0} (b : Backend W) (email : String) where
  -- In the state `s` the node is registered, its panel answers a listing in which no inbound has a client
  -- of this email, and the state `t` is the one after this call.
  abbrev pub Free : Option Node → State W → State W → Type 0
  Free o s t =
      (n : Node) × (inbounds : List PanelInbound) × (w : W) × (o ≡ some n)
      × (b.list_inbounds (target n) s.world ≡ (ok inbounds, w))
      × NoClient email inbounds
      × (record { world = w; calls = Call.listed (target n) ∷ s.calls } ≡ t)

  -- The nodes in turn, each in the state that the call for the one before it has left.
  unfoldable pub AllFree : NodesById → List ℤ → State W → State W → Type 0
  unfolding lookup
  AllFree by_id [] s t = s ≡ t
  AllFree by_id (id ∷ ids) s t =
      (s' : State W) × Free (lookup id by_id) s s' × AllFree by_id ids s' t

  panel_answer :
      (n : Node) (s t : State W) (r : Result Error (List PanelInbound) × W)
      → b.list_inbounds (target n) s.world ≡ r
      → (panel_is_free b (some n) email s ≡ (ok tt, t)) ↔ Free (some n) s t
  unfolding panel_is_free email_exists_on_panel list_inbounds recorded pure lift ◌>>=◌
  panel_answer n s t (err x, w) e = (
    (λ h. let h' = (rw e at h) in absurd cc),
    (λ (n', inbounds, w', o, listed, clear, end).
        let same : n ≡ n' = cc in
        let again : b.list_inbounds (target n) s.world ≡ (ok inbounds, w') =
          subst (λ x. b.list_inbounds (target x) s.world ≡ (ok inbounds, w')) (sym same) listed in
        absurd cc),
  )
  panel_answer n s t (ok inbounds, w) e =
      let iff = hosts_email_iff inbounds email in
      elim (Bool-cases (hosts_email inbounds email)) [
        | inl found ↦ (
          (λ h. let h' = (rw (e, found) at h) in absurd cc),
          (λ (n', is, w', o, listed, none_there, end).
              let same : n ≡ n' = cc in
              let again : b.list_inbounds (target n) s.world ≡ (ok is, w') =
                subst (λ x. b.list_inbounds (target x) s.world ≡ (ok is, w')) (sym same) listed in
              let one : is ≡ inbounds = cc in
              let clear = iff.1 (subst (NoClient email) one none_there) in absurd cc),
        )
        | inr clear ↦ (
          (λ h.
              let h' = (rw (e, clear) at h) in
              (n, inbounds, w, refl, e, iff.0 clear, ap (λ x. x.1) h')),
          (λ (n', is, w', o, listed, none_there, end).
              let same : n ≡ n' = cc in
              let again : b.list_inbounds (target n) s.world ≡ (ok is, w') =
                subst (λ x. b.list_inbounds (target x) s.world ≡ (ok is, w')) (sym same) listed in
              let left : w' ≡ w = cc in rw (e, clear) cc),
        )
      ]

  panel_is_free_iff :
      (o : Option Node) (s t : State W) → (panel_is_free b o email s ≡ (ok tt, t)) ↔ Free o s t
  unfolding panel_is_free lift
  panel_is_free_iff (some n) s t = panel_answer n s t (b.list_inbounds (target n) s.world) refl
  panel_is_free_iff none s t =
      ((λ h. absurd cc), (λ (n, inbounds, w, o, listed, clear, end). absurd cc))

  -- `ensureEmailFree` returns no error just when each of the nodes is registered and its panel, called in
  -- the state that the calls before have left, answers a listing in which no inbound has a client of this
  -- email; the state that it leaves is the one after the last of these calls.
  pub ensure_email_free_iff :
      (by_id : NodesById) (ids : List ℤ) (s t : State W)
      → (ensure_email_free b by_id ids email s ≡ (ok tt, t)) ↔ AllFree by_id ids s t
  unfolding ensure_email_free AllFree pure
  ensure_email_free_iff by_id [] s t = ((λ h. ap (λ x. x.1) h), (λ e. ap (λ x. (ok tt, x)) e))
  ensure_email_free_iff by_id (id ∷ ids) s t = (
    (λ h.
        let (u, s', first, rest) =
          bind-ok (panel_is_free b (lookup id by_id) email)
            (λ x. ensure_email_free b by_id ids email) s t tt h in
        (
          s',
          (panel_is_free_iff (lookup id by_id) s s').0 first,
          (ensure_email_free_iff by_id ids s' t).0 rest,
        )),
    (λ (s', free, rest).
        let first = (panel_is_free_iff (lookup id by_id) s s').1 free in
        bind_back (panel_is_free b (lookup id by_id) email)
          (λ x. ensure_email_free b by_id ids email) s s' t tt first
          ((ensure_email_free_iff by_id ids s' t).1 rest)),
  )
