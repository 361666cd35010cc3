-- ===== src/Configs/Create.antt =====
-- internal/repository/configs/create_user_config.go: a user gets a config of their own, a copy of the
-- base config. An error rolls back.
use subgen.Prelude.Int.{ℤ, int_eq}
use subgen.Prelude.{
  ℕ, String, not, List, [], ◌∷◌, ◌++◌, Option, none, some, Result, ok, err, ◌>>=◌, ◌>>◌, reject_if,
}
use subgen.Store.Tables.{Db}
use subgen.Store.Save.{contains_id}
use subgen.Store.Clone.{CloneError, clone_config}
use subgen.Configs.{ConfigRow, base_config_id, conflicts}

-- The user has a custom config, there is no such user, or the copy failed.
pub data CreateError : Type 0 where
  user_config_exists user_missing : CreateError
  copy : CloneError → CreateError

abbrev pub copied : Result CloneError Db → Result CreateError Db
copied (err e) = err (copy e)
copied (ok db) = ok db

-- The copy of the base config, if there is one.
abbrev pub clone_base : (ℕ → ℕ) → (ℕ → ℕ) → Option ℤ → ℤ → Db → Result CreateError Db
clone_base new_group new_provider none dst db = ok db
clone_base new_group new_provider (some src) dst db =
    copied (clone_config new_group new_provider src dst db)

abbrev pub custom_row : ℤ → ℤ → ℤ → String → ConfigRow
custom_row new_id now user_id kind = record {
  id = new_id;
  user_id = some user_id;
  kind = kind;
  created_at = now;
}

-- CreateUserConfig, for the ids that new rows are assigned, the time, and the ids of the users.
unfoldable pub create_user_config :
    (ℕ → ℕ)
    → (ℕ → ℕ)
    → ℤ
    → ℤ
    → List ℤ
    → ℤ
    → String
    → List ConfigRow
    → Db
    → Result CreateError (List ConfigRow × Db)
unfolding base_config_id conflicts contains_id clone_config
create_user_config new_group new_provider new_id now users user_id kind rows db = do
  let row = custom_row new_id now user_id kind
  reject_if (conflicts row rows) user_config_exists
  reject_if (not (contains_id users user_id)) user_missing
  db ← clone_base new_group new_provider (base_config_id kind rows) new_id db
  ok (rows ++ row ∷ [], db)
