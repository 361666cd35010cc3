-- ===== src/Entity/User.antt =====
-- internal/entity/user.go: users and their connections.
use subgen.Prelude.Int.{ℤ}
use subgen.Prelude.{String, List, Option}

pub record Connection : Type 0 where
  pub id : ℤ
  pub user_id : ℤ
  pub inbound_id : ℤ
  pub created_at : ℤ
  pub node_id : ℤ
  pub node : String
  pub name : String
  pub port : ℤ
  pub kind : String

pub record User : Type 0 where
  pub id : ℤ
  pub name : String
  pub sub_id : String
  pub description : Option String
  pub created_at : ℤ
  pub connections : List Connection

pub record UserCreateParams : Type 0 where
  pub name : String
  pub description : Option String
  pub inbound_ids : List ℤ

pub record UserEditParams : Type 0 where
  pub id : ℤ
  pub description : Option String
  pub inbound_ids : List ℤ
