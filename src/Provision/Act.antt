-- ===== src/Provision/Act.antt =====
-- internal/service/provisioning/contract.go: what the service calls. Each call may do anything to the
-- world, fail, and is recorded in a list, the latest call first.
use subgen.Prelude.Int.{ℤ}
use subgen.Prelude.{String, ℕ, List, ◌∷◌, Option, Result, ok, err}
use subgen.Entity.Node.{Node}
use subgen.Entity.Panel.{PanelTarget, PanelInbound, ClientSpec}
use subgen.Entity.User.{User, Connection}

-- What `syncPanels` reports for a node; the text of a wrapped error is left out.
pub data Failure : Type 0 where
  not_in_registry : ℤ → Failure
  del_client_failed list_inbounds_failed add_client_failed : String → Failure
  no_inbound : String → ℤ → Failure

-- `foreign` is an error of a repository or of the panel client.
pub data Error : Type 0 where
  invalid_user_name description_too_long no_connection_selected : Error
  inbound_not_found node_not_found : Error
  panel_client_exists : String → Error
  sync_failed : List Failure → Error
  foreign : String → Error

pub data Call : Type 0 where
  listed : PanelTarget → Call
  added : PanelTarget → List ℤ → ClientSpec → Call
  deleted : PanelTarget → String → Call
  user_created : User → Call
  connections_replaced : ℤ → List ℤ → Call
  description_set : ℤ → Option String → Call
  user_deleted : ℤ → Call

-- usersRepo, nodesRepo and panelClient over a world `W`, the sources of random ids, and the order in
-- which the keys of a Go map are visited. `users_create` returns what it sets in the user: the id and
-- the connections.
pub record Backend (W : Type 0) : Type 0 where
  pub users_get : ℤ → W → Result Error User × W
  pub users_create : User → W → Result Error (ℤ × List Connection) × W
  pub users_replace_connections : ℤ → List ℤ → W → Result Error (Unit {0}) × W
  pub users_set_description : ℤ → Option String → W → Result Error (Unit {0}) × W
  pub users_delete : ℤ → W → Result Error (Unit {0}) × W
  pub nodes_list : W → Result Error (List Node) × W
  pub list_inbounds : PanelTarget → W → Result Error (List PanelInbound) × W
  pub add_client : PanelTarget → List ℤ → ClientSpec → W → Result Error (Unit {0}) × W
  pub del_client : PanelTarget → String → W → Result Error (Unit {0}) × W
  pub gen_id : ℕ → W → String × W
  pub gen_uuid : W → String × W
  pub visit_order : List ℤ → List ℤ

pub record State (W : Type 0) : Type 0 where
  pub world : W
  pub calls : List Call

abbrev pub Act : Type 0 → Type 0 → Type 0
Act W A = State W → Result Error A × State W

module _ {W : Type 0} where
  unfoldable pub pure : {A : Type 0} → A → Act W A
  pure a s = (ok a, s)

  -- return an error, or go on
  unfoldable pub lift : {A : Type 0} → Result Error A → Act W A
  lift r s = (r, s)

  abbrev pub continue :
      {A B : Type 0} → Result Error A × State W → (A → Act W B) → Result Error B × State W
  continue (ok a, s) f = f a s
  continue (err e, s) f = (err e, s)

  -- The outcome of a call whose error does not end the function.
  unfoldable pub attempt : {A : Type 0} → Act W A → Act W (Result Error A)
  attempt m s = (ok ((m s).0), (m s).1)

  -- A call without a record, and one with it.
  unfoldable pub silently : {A : Type 0} → (W → Result Error A × W) → Act W A
  silently run s = let r = run s.world in (r.0, record s { world = r.1 })

  unfoldable pub random : {A : Type 0} → (W → A × W) → Act W A
  random run s = let r = run s.world in (ok r.0, record s { world = r.1 })

  unfoldable pub recorded : {A : Type 0} → Call → (W → Result Error A × W) → Act W A
  recorded c run s = let r = run s.world in (r.0, record { world = r.1; calls = c ∷ s.calls })

infixl 5 ◌>>=◌ ◌>>◌
unfoldable pub ◌>>=◌ : {W A B : Type 0} → Act W A → (A → Act W B) → Act W B
(m >>= f) s = continue (m s) f

abbrev pub ◌>>◌ : {W A B : Type 0} → Act W A → Act W B → Act W B
(m >> k) = m >>= λ _. k
