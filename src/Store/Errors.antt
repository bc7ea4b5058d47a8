-- ===== src/Store/Errors.antt =====
-- Errors, and what an operation takes from outside: the clock, fresh identifiers, and which
-- statements the SQLite driver fails (internal/store/users_repo.go, helpers.go, db.go).
use manager_key_pro.Base.{
  Bool, true, false, Option, none, some, String, is_empty, trim_space, if◌then◌else◌,
}
use manager_key_pro.Base.Int.{ℤ}
use manager_key_pro.Store.Types.{Db}

-- `sql_unique` is a driver error whose text names a UNIQUE or PRIMARY KEY conflict, `sql_failure`
-- any other driver error, `wrap` is `fmt.Errorf("…: %w", err)`, `message` any error of its own.
pub data Error : Type 0 where
  not_found duplicate insufficient_balance sql_unique sql_failure : Error
  message : String → Error
  wrap : Error → Error

pub data Result {ℓ} (A : Type ℓ) : Type ℓ where
  ok : A → Result A
  err : Error → Result A

-- The texts of `ErrNotFound`, `ErrDuplicate` and `ErrInsufficientBalance` name no constraint; a
-- wrapped error shows the text of the error inside.
unfoldable pub is_unique_violation : Error → Bool
is_unique_violation not_found = false
is_unique_violation duplicate = false
is_unique_violation insufficient_balance = false
is_unique_violation sql_unique = true
is_unique_violation sql_failure = false
is_unique_violation (message s) = false
is_unique_violation (wrap e) = is_unique_violation e

-- `store.IsNotFound`: `errors.Is` looks through wrapping.
unfoldable pub is_not_found : Error → Bool
is_not_found not_found = true
is_not_found duplicate = false
is_not_found insufficient_balance = false
is_not_found sql_unique = false
is_not_found sql_failure = false
is_not_found (message s) = false
is_not_found (wrap e) = is_not_found e

-- `store.IsDuplicate`
unfoldable pub is_duplicate : Error → Bool
unfolding is_unique_violation
is_duplicate e = is_unique_violation e

-- `nullIfEmpty`: a blank text is stored as NULL.
unfoldable pub null_if_empty : String → Option String
null_if_empty value = if is_empty (trim_space value) then none else some value

-- `nullStr` of internal/issue and internal/referral: only the empty text is NULL.
unfoldable pub null_str : String → Option String
null_str s = if is_empty s then none else some s

-- `COALESCE(column, '')`
abbrev pub coalesce : Option String → String
coalesce none = ""
coalesce (some s) = s

-- The statements that the driver can fail, with the row they name where a loop repeats them.
pub data Stmt : Type 0 where
  begin_tx commit_tx rollback_tx : Stmt
  select_user update_wallet insert_ledger update_user insert_user : String → Stmt
  select_key consume_quota reset_period update_key insert_key delete_key : String → Stmt
  select_reservation mark_reservation insert_reservation : String → Stmt
  select_oldest_open select_reservation_user select_reservation_source : String → Stmt
  select_stale : Stmt
  count_billed insert_usage : String → Stmt
  select_price insert_price : String → Stmt
  count_pricing : Stmt
  select_package insert_package update_package delete_package : String → Stmt
  insert_order insert_audit insert_history : String → Stmt
  insert_earning select_setting select_parent sum_recharges : String → Stmt
  insert_setting : String → Stmt
  select_bindings delete_bindings insert_binding : String → Stmt
  random_bytes : Stmt
  -- a statement on a table, with the row or the parameter it names
  select_rows insert_row update_row delete_rows : String → String → Stmt

-- One call of an operation: `now` is what `Now()` reads, `new_id` what `newID` makes for a prefix.
pub record Env : Type 0 where
  pub now : ℤ
  pub new_id : String → String
  pub fails : Stmt → Bool

-- `requireOneRow`: an UPDATE or DELETE that met no row is `ErrNotFound`.
unfoldable pub require_one_row : Bool → Result (Unit {0})
require_one_row affected = if affected then ok tt else err not_found

-- `DB.Tx`: the changes of `fn` are kept only if it and the commit succeed.
unfoldable pub run_tx {ℓ} : {A : Type ℓ} → Env → (Db → Db × Result A) → Db → Db × Result A
run_tx env fn db =
    if env.fails begin_tx
    then (db, err (wrap sql_failure))
    else (let (db', r) = fn db in
        elim r [
          | ok a ↦ if env.fails commit_tx then (db, err (wrap sql_failure)) else (db', ok a)
          | err e ↦ if env.fails rollback_tx then (db, err (wrap e)) else (db, err e)
        ])
