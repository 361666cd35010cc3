-- ===== src/Customs.antt =====
-- internal/handlers/custom_create and custom_delete: a user gets a mihomo config of their own, or loses it.
pub mod Undone
pub mod Refused
use subgen.Prelude.Int.{ℤ}
use subgen.Prelude.{ℕ, String, List, Result, ok, err}
use subgen.Store.Tables.{Db}
use subgen.Configs.{ConfigRow, ConfigsError, user_config_not_found, mihomo, delete_user_config}
use subgen.Configs.Create.{CreateError, user_config_exists, create_user_config}
use subgen.ConfigSave.{Tables}

-- The answer: a message, a 400 with a text, or an error that becomes a 500.
pub data Answer (E : Type 0) : Type 0 where
  message : String → Answer E
  bad_request : String → Answer E
  failed : E → Answer E

abbrev created : Tables → Result CreateError (List ConfigRow × Db) → Answer CreateError × Tables
created t (ok (rows, db)) =
    (message "Custom config created", record { configs = rows; content = db })
created t (err user_config_exists) = (bad_request "The user already has a custom config", t)
created t (err e) = (failed e, t)

-- CustomCreate, for the ids that new rows are assigned, the time, and the ids of the users.
unfoldable pub custom_create :
    (ℕ → ℕ) → (ℕ → ℕ) → ℤ → ℤ → List ℤ → ℤ → Tables → Answer CreateError × Tables
unfolding create_user_config
custom_create new_group new_provider new_id now users user_id t =
    created t (
      create_user_config new_group new_provider new_id now users user_id mihomo t.configs t.content)

abbrev deleted : Tables → Result ConfigsError (List ConfigRow × Db) → Answer ConfigsError × Tables
deleted t (ok (rows, db)) =
    (message "Custom config deleted", record { configs = rows; content = db })
deleted t (err user_config_not_found) = (bad_request "The user has no custom config", t)
deleted t (err e) = (failed e, t)

-- CustomDelete
unfoldable pub custom_delete : ℤ → Tables → Answer ConfigsError × Tables
unfolding delete_user_config
custom_delete user_id t = deleted t (delete_user_config user_id mihomo t.configs t.content)
