-- ===== src/Configs.antt =====
-- internal/repository/configs: the table subscription_configs, which says whose the configs are. A
-- table is a list of rows in insertion order.
pub mod Owners
pub mod Create
use subgen.Prelude.Int.{ℤ, pos, int_eq, int_ltb}
use subgen.Prelude.Maps.{lookup}
use subgen.Prelude.{
  ℕ, String, Bool, true, false, ◌&&◌, not, List, [], ◌∷◌, ◌++◌, map, Option, none, some, Result, ok,
  err, ◌>>=◌, ◌==◌, string_eq, if◌then◌else◌,
}
use subgen.Store.Tables.{Db, select, order_by}
use subgen.Store.Save.{drop_config}

-- subscription_configs; a row without a user is the base config of its kind.
pub record ConfigRow : Type 0 where
  pub id : ℤ
  pub user_id : Option ℤ
  pub kind : String
  pub created_at : ℤ

-- The errors that the code names, and that of a query without a row.
pub data ConfigsError : Type 0 where
  user_config_not_found no_rows : ConfigsError

-- ConfigKindMihomo
abbrev pub mihomo : String
mihomo = "mihomo"

abbrev pub is_null : Option ℤ → Bool
is_null none = true
is_null (some id) = false

abbrev pub same_user : Option ℤ → ℤ → Bool
same_user none id = false
same_user (some u) id = u == id

-- WHERE user_id IS NULL AND kind = ?
abbrev pub is_base : String → ConfigRow → Bool
is_base kind r = is_null r.user_id && r.kind == kind

-- WHERE user_id = ? AND kind = ?
abbrev pub is_custom : ℤ → String → ConfigRow → Bool
is_custom user_id kind r = same_user r.user_id user_id && r.kind == kind

abbrev pub first_id : List ConfigRow → Option ℤ
first_id [] = none
first_id (r ∷ rs) = some r.id

-- BaseConfigID
unfoldable pub base_config_id : String → List ConfigRow → Option ℤ
unfolding select
base_config_id kind rows = first_id (select (is_base kind) rows)

-- UserConfigID
unfoldable pub user_config_id : ℤ → String → List ConfigRow → Option ℤ
unfolding select
user_config_id user_id kind rows = first_id (select (is_custom user_id kind) rows)

-- COALESCE(user_id, 0)
abbrev pub owner : Option ℤ → ℤ
owner none = pos 0
owner (some id) = id

-- The unique index on the owner and the kind refuses a row beside one of the table.
unfoldable pub conflicts : ConfigRow → List ConfigRow → Bool
conflicts new [] = false
conflicts new (r ∷ rs) =
    if owner r.user_id == owner new.user_id && r.kind == new.kind then true else conflicts new rs

-- INSERT OR IGNORE
abbrev pub insert_or_ignore : ConfigRow → List ConfigRow → List ConfigRow
insert_or_ignore new rows = if conflicts new rows then rows else rows ++ new ∷ []

abbrev pub found_id : Option ℤ → List ConfigRow → Result ConfigsError (ℤ × List ConfigRow)
found_id none rows = err no_rows
found_id (some id) rows = ok (id, rows)

abbrev pub base_row : ℤ → ℤ → String → ConfigRow
base_row new_id now kind = record { id = new_id; user_id = none; kind = kind; created_at = now }

-- EnsureBaseConfigID, for the id that a new row is assigned and the time.
unfoldable pub ensure_base_config_id :
    ℤ → ℤ → String → List ConfigRow → Result ConfigsError (ℤ × List ConfigRow)
unfolding base_config_id conflicts
ensure_base_config_id new_id now kind rows =
    let rows' = insert_or_ignore (base_row new_id now kind) rows in
    found_id (base_config_id kind rows') rows'

abbrev pub custom_of : String → ConfigRow → Bool
custom_of kind r = not (is_null r.user_id) && r.kind == kind

abbrev pub by_owner : ConfigRow → ConfigRow → Bool
by_owner a b = not (int_ltb (owner b.user_id) (owner a.user_id))

-- UserConfigUserIDs
unfoldable pub user_config_user_ids : String → List ConfigRow → List ℤ
unfolding select order_by
user_config_user_ids kind rows =
    map (λ r. owner r.user_id) (order_by by_owner (select (custom_of kind) rows))

-- The rows of the content tables that ON DELETE CASCADE deletes with a config.
unfoldable pub drop_content : ℤ → Db → Db
unfolding drop_config
drop_content c db = record (drop_config c db) {
  settings = select (λ s. not (s.0 == c)) db.settings;
  profiles = select (λ p. not (p.0 == c)) db.profiles;
}

unfoldable pub drop_all : List ConfigRow → Db → Db
unfolding drop_content
drop_all [] db = db
drop_all (r ∷ rs) db = drop_all rs (drop_content r.id db)

abbrev deleted : List ConfigRow → List ConfigRow → Db → Result ConfigsError (List ConfigRow × Db)
deleted [] rows db = err user_config_not_found
deleted (r ∷ rs) rows db = ok (rows, drop_all (r ∷ rs) db)

-- DeleteUserConfig
unfoldable pub delete_user_config :
    ℤ → String → List ConfigRow → Db → Result ConfigsError (List ConfigRow × Db)
unfolding select drop_all
delete_user_config user_id kind rows db =
    deleted (select (is_custom user_id kind) rows)
      (select (λ r. not (is_custom user_id kind r)) rows) db
