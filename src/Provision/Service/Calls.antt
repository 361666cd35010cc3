-- ===== src/Provision/Service/Calls.antt =====
-- Which calls `CreateUser` makes.
use subgen.Prelude.Int.{ℤ}
use subgen.Prelude.Lists.{All, In}
use subgen.Prelude.{String, false, List, [], ◌∷◌, Option, none, some, ok, ◌≡◌, arith, inl, inr}
use subgen.Entity.Node.{Node}
use subgen.Entity.Panel.{PanelTarget}
use subgen.Entity.User.{User, UserCreateParams}
use subgen.Provision.Act.{Backend, State, Call}
use subgen.Provision.Keeps.{
  Keeps-check, Keeps, Keeps-pure, Keeps-lift, Keeps-attempt, Keeps-silently, Keeps-random,
  Keeps-recorded, Keeps-bind,
}
use subgen.Provision.Targets.{NodesById, ConnTarget, validate_name}
use subgen.Provision.Sync.{list_inbounds}
use subgen.Provision.Sync.Calls.{Allowed, Keeps-sync_panels}
use subgen.Provision.Sync.Grouped.{provisioned_on}
use subgen.Provision.Service.{
  email_exists_on_panel, panel_is_free, ensure_email_free, load_node_index, create_user, as_stored,
  new_user,
}

-- The calls that CreateUser may make for the name `raw`: none deletes or changes a stored user.
pub Creates : (String → String) → String → Call → Type 0
Creates to_lower raw (Call.listed t) = Unit
Creates to_lower raw (Call.user_created u) = validate_name to_lower raw ≡ ok u.name
Creates to_lower raw (Call.added t ids spec) = validate_name to_lower raw ≡ ok spec.email
Creates to_lower raw _ = ⊥

-- What syncPanels may call for a new user is what CreateUser may call.
Allowed-Creates :
    (to_lower : String → String) (raw : String) (by_id : NodesById) (u : User)
    (desired : List ConnTarget)
    → validate_name to_lower raw ≡ ok u.name
    → (c : Call) → Allowed by_id u [] desired false c
    → Creates to_lower raw c
unfolding Allowed Creates provisioned_on
Allowed-Creates to_lower raw by_id u desired name (Call.listed t) h = tt
Allowed-Creates to_lower raw by_id u desired name (Call.added t ids spec) h = cc (name, h.0)
Allowed-Creates to_lower raw by_id u desired name (Call.deleted t email) h =
    let (id, n, known, at, mine) = h.1 in
    elim mine [ inl had ↦ absurd (omega arith) | inr forced ↦ cc (forced.0) ]
Allowed-Creates to_lower raw by_id u desired name (Call.user_created v) h = absurd h
Allowed-Creates to_lower raw by_id u desired name (Call.connections_replaced i ids) h = absurd h
Allowed-Creates to_lower raw by_id u desired name (Call.description_set i d) h = absurd h
Allowed-Creates to_lower raw by_id u desired name (Call.user_deleted i) h = absurd h

module _ {W : Type 0} (b : Backend W) (Q : Call → Type 0)
    (list : (t : PanelTarget) → Q (Call.listed t)) where
  Keeps-panel_is_free : (o : Option Node) (email : String) → Keeps Q (panel_is_free b o email)
  unfolding panel_is_free email_exists_on_panel list_inbounds
  Keeps-panel_is_free none email = Keeps-lift _ _ _
  Keeps-panel_is_free (some n) email =
      Keeps-bind _ _ _ (Keeps-bind _ _ _ (Keeps-recorded _ _ _ (list _)) (λ is. Keeps-pure _ _ _))
        (λ exists. Keeps-lift _ _ _)

  Keeps-ensure_email_free :
      (by_id : NodesById) (ids : List ℤ) (email : String)
      → Keeps Q (ensure_email_free b by_id ids email)
  unfolding ensure_email_free
  Keeps-ensure_email_free by_id [] email = Keeps-pure _ _ _
  Keeps-ensure_email_free by_id (id ∷ ids) email =
      Keeps-bind _ _ _ (Keeps-panel_is_free _ email) (λ u. Keeps-ensure_email_free by_id ids email)

  Keeps-load_node_index : Keeps Q (load_node_index b)
  unfolding load_node_index
  Keeps-load_node_index = Keeps-bind _ _ _ (Keeps-silently _ _) (λ nodes. Keeps-pure _ _ _)

module _ {W : Type 0} (b : Backend W) (to_lower : String → String) (p : UserCreateParams) where
  Keeps-create_user :
      ((ids : List ℤ) (id : ℤ) → In id (b.visit_order ids) → In id ids)
      → Keeps (Creates to_lower p.name) (create_user b to_lower p)
  unfolding create_user Creates
  Keeps-create_user visits = Keeps-check _ _ _ (λ name valid.
      Keeps-bind _ _ _ (Keeps-lift _ _ _) (λ x. Keeps-bind _ _ _ (Keeps-lift _ _ _) (λ desc.
        Keeps-bind _ _ _ (Keeps-load_node_index b _ (λ t. tt)) (λ index.
          Keeps-bind _ _ _ (Keeps-lift _ _ _) (λ targets.
            Keeps-bind _ _ _ (Keeps-ensure_email_free b _ (λ t. tt) _ _ _) (λ y.
              Keeps-bind _ _ _ (Keeps-random _ _) (λ sub_id.
                Keeps-bind _ _ _ (Keeps-recorded _ _ _ valid) (λ stored.
                  Keeps-bind _ _ _
                    (Keeps-attempt _ _ (
                      Keeps-sync_panels b index.0
                        (as_stored (new_user name sub_id desc targets) stored) [] targets false _
                        (Allowed-Creates to_lower p.name index.0
                          (as_stored (new_user name sub_id desc targets) stored) targets valid)
                        visits))
                    (λ r. Keeps-pure _ _ _)))))))))

-- Whatever the panels and the store answer, and in whichever order the nodes are visited, as long as each
-- node that is visited is a key of the map: `CreateUser` makes no call but listings of panels, the storing of
-- the user, and additions of clients, and the stored user and the added clients have the name that
-- `validateName` returned. It deletes nothing, so it takes over no client that a panel already has.
pub create_user_calls :
    {W : Type 0} (b : Backend W) (to_lower : String → String) (p : UserCreateParams) (s : State W)
    → ((ids : List ℤ) (id : ℤ) → In id (b.visit_order ids) → In id ids)
    → s.calls ≡ []
    → All (Creates to_lower p.name) ((create_user b to_lower p s).1).calls
unfolding Keeps
create_user_calls b to_lower p s visits fresh =
    Keeps-create_user b to_lower p visits s (rw fresh tt)
