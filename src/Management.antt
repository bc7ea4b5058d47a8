-- ===== src/Management.antt =====
-- internal/plugin/management.go and mgmt_extra.go: the administration's handlers. Bodies are decoded; an
-- absent body is one that does not parse.
pub mod Keys
pub mod Edits
pub mod Users
pub mod Catalogue
pub mod Config
pub mod Routes
pub mod Dispatch
pub mod Owners
pub mod Transfer
pub mod Allowed
pub mod Passwords
pub mod Reset
pub mod Changes
pub mod EditChanges
use manager_key_pro.Base.{ℕ, Option, none, some, List, String, if◌then◌else◌}
use manager_key_pro.Base.Int.{ℤ}
use manager_key_pro.Store.Types.{User, Key, Binding, Package, Db}
use manager_key_pro.Store.Errors.{Error, Result, ok, err, is_not_found}

-- The answers of the handlers: an error's status with its text or its error, or what a success shows.
pub data Answer : Type 0 where
  refused : ℕ → String → Answer
  failed : ℕ → Error → Answer
  done : String → String → Answer
  shown_key : Key → List Binding → Answer
  created_key : Key → String → Answer
  revealed_key : Key → String → Answer
  renewed_key : String → ℤ → ℤ → Answer
  switched_key : String → String → String → ℤ → ℤ → Answer
  binding_list : List Binding → Answer
  created_user : User → Answer
  saved_package : ℕ → Package → Answer
  recharged : String → ℤ → ℤ → Answer
  shown_settings : List (String × String) → Answer

-- A lookup's error: 404 with a text for a missing row, 500 for any other.
unfoldable pub lookup_error : String → Error → Answer
lookup_error text e = if is_not_found e then refused 404 text else failed 500 e

-- A handler that goes on until a step has answered.
unfoldable pub and_then : Db × Option Answer → (Db → Db × Option Answer) → Db × Option Answer
and_then (db, none) f = f db
and_then (db, some a) f = (db, some a)

-- A step that answers only with its error.
unfoldable pub attempt : ℕ → Db × Result (Unit {0}) → Db × Option Answer
attempt status (db, ok _) = (db, none)
attempt status (db, err e) = (db, some (failed status e))
