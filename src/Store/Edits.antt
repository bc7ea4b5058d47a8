-- ===== src/Store/Edits.antt =====
-- The edits of keys and users are changes that leave wallets alone.
use manager_key_pro.Base.{
  ◌≡◌, refl, Bool, true, if◌then◌else◌, is_empty, str_eq, update_where, inl, inr, List, String,
  trim_space, arith, select_first, exists_row, Bool-cases, Option-cases,
}
use manager_key_pro.Base.Int.{ℤ, pos}
use manager_key_pro.Store.Types.{Key, User, Db}
use manager_key_pro.Store.Errors.{Stmt, Env, Result, run_tx, update_key, coalesce, null_if_empty}
use manager_key_pro.Store.Keys.{
  update_key_row, set_overflow, set_log_mode, log_mode_valid, rename, set_access, set_models,
  set_rpm, transfer,
}
use manager_key_pro.Store.Users.{has_id}
use manager_key_pro.Store.Users.Accounts.{
  record_login, failed_login, failed_login_tx, write_failed_login, record_failed_login,
  set_password,
}
use manager_key_pro.Store.Settings.{insert_missing, init_defaults}
use manager_key_pro.Store.Steps.{configured, Steps, here, next, here_at, edited, touched}

pub edited-Steps :
    (env : Env) (db : Db) (stmt : Stmt) (kid : String) (f : Key → Key) (valid : Key → Bool)
    → Steps db (update_key_row env db stmt kid f valid).0
edited-Steps env db stmt kid f valid = next here (edited env stmt kid f valid)

pub rename-Steps : (env : Env) (db : Db) (kid name : String) → Steps db (rename env db kid name).0
unfolding rename
rename-Steps env db kid raw =
    let trimmed = trim_space raw in
    let name = if is_empty trimmed then "Unnamed key" else trimmed in
    edited-Steps env db (update_key kid) kid (λ k. record k { name = name; updated_at = env.now })
      (λ k. true)

pub set_overflow-Steps :
    (env : Env) (db : Db) (kid : String) (enabled : Bool)
    → Steps db (set_overflow env db kid enabled).0
unfolding set_overflow
set_overflow-Steps env db kid enabled =
    edited-Steps env db (update_key kid) kid
      (λ k. record k { overflow_to_wallet = enabled; updated_at = env.now }) (λ k. true)

pub set_log_mode-Steps :
    (env : Env) (db : Db) (kid mode : String) → Steps db (set_log_mode env db kid mode).0
unfolding set_log_mode
set_log_mode-Steps env db kid mode = elim (Bool-cases (log_mode_valid (trim_space mode))) [
  | inl e ↦
      rw (set_log_mode, e)
        (edited-Steps env db (update_key kid) kid
          (λ k. record k {
            log_mode = coalesce (null_if_empty (trim_space mode));
            updated_at = env.now;
          })
          (λ k. true))
  | inr e ↦ rw (set_log_mode, e) (here_at db)
]

pub set_access-Steps :
    (env : Env) (db : Db) (kid : String) (providers ips : List String)
    → Steps db (set_access env db kid providers ips).0
unfolding set_access
set_access-Steps env db kid providers ips =
    edited-Steps env db (update_key kid) kid
      (λ k. record k { allowed_providers = providers; ip_allowlist = ips; updated_at = env.now })
      (λ k. true)

pub set_models-Steps :
    (env : Env) (db : Db) (kid : String) (models : List String)
    → Steps db (set_models env db kid models).0
unfolding set_models
set_models-Steps env db kid models =
    edited-Steps env db (update_key kid) kid
      (λ k. record k { allowed_models = models; updated_at = env.now }) (λ k. true)

pub set_rpm-Steps :
    (env : Env) (db : Db) (kid : String) (rpm : ℤ) → Steps db (set_rpm env db kid rpm).0
unfolding set_rpm
set_rpm-Steps env db kid rpm =
    edited-Steps env db (update_key kid) kid (λ k. record k { rpm = rpm; updated_at = env.now })
      (λ k. true)

pub transfer-Steps : (env : Env) (db : Db) (kid uid : String) → Steps db (transfer env db kid uid).0
unfolding transfer
transfer-Steps env db kid uid =
    edited-Steps env db (update_key kid) kid (λ k. record k { user_id = uid; updated_at = env.now })
      (λ k. exists_row (λ u. str_eq u.id uid) db.users)

pub touched-Steps :
    (db : Db) (uid : String) (f : User → User)
    → ((u : User) → (f u).id ≡ u.id)
    → ((u : User) → (f u).balance ≡ u.balance)
    → Steps db (record db { users = update_where (has_id uid) f db.users })
touched-Steps db uid f ids balances = next here (touched uid f ids balances)

pub record_login-Steps : (env : Env) (db : Db) (uid : String) → Steps db (record_login env db uid).0
unfolding record_login
record_login-Steps env db uid =
    let change =
      touched-Steps db uid
        (λ u. record u { failed_logins = pos 0; locked_until = pos 0; last_login_at = env.now })
        (λ u. refl) (λ u. refl) in
    ground (arith, here_at db, change)

failed_login_tx-Steps :
    (env : Env) (uid : String) (lock_after lock_for : ℤ) (db : Db)
    → Steps db (failed_login_tx env uid lock_after lock_for db).0
unfolding failed_login_tx
failed_login_tx-Steps env uid lock_after lock_for db =
    elim (Option-cases (select_first (has_id uid) db.users)) [
      | inl q ↦ ground (arith, q, here_at db)
      | inr (u, q) ↦
          let next_ = failed_login env lock_after lock_for u in
          let change = touched-Steps db uid (write_failed_login next_) (λ u. refl) (λ u. refl) in
          ground (arith, q, here_at db, change)
    ]

pub run_tx-Steps {ℓ} :
    {A : Type ℓ} (env : Env) (f : Db → Db × Result A) (db : Db)
    → Steps db (f db).0
    → Steps db (run_tx env f db).0
unfolding run_tx
run_tx-Steps env f db h = ground (arith, h, here_at db)

pub record_failed_login-Steps :
    (env : Env) (db : Db) (uid : String) (lock_after lock_for : ℤ)
    → Steps db (record_failed_login env db uid lock_after lock_for).0
unfolding record_failed_login
record_failed_login-Steps env db uid lock_after lock_for =
    run_tx-Steps env (failed_login_tx env uid lock_after lock_for) db
      (failed_login_tx-Steps env uid lock_after lock_for db)

pub set_password-Steps :
    (env : Env) (db : Db) (uid hash : String) → Steps db (set_password env db uid hash).0
unfolding set_password
set_password-Steps env db uid hash =
    let change =
      touched-Steps db uid (λ u. record u { password_hash = hash }) (λ u. refl) (λ u. refl) in
    ground (arith, here_at db, change)

pub init_defaults-Steps :
    (env : Env) (db : Db) (order : List (String × String)) → Steps db (init_defaults env db order).0
unfolding init_defaults
init_defaults-Steps env db order =
    let change : Steps db (record db { settings = insert_missing order db.settings }) =
      next here (configured (insert_missing order db.settings)) in
    ground (arith, here_at db, change)
