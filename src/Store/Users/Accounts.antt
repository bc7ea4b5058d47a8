-- ===== src/Store/Users/Accounts.antt =====
-- internal/store/users_repo.go: accounts, logins and identities.
use manager_key_pro.Base.{
  Bool, false, not, ◌&&◌, ◌||◌, none, some, ◌∷◌, String, is_empty, trim_space, str_eq,
  if◌then◌else◌, select_first, exists_row, update_where,
}
use manager_key_pro.Base.Int.{ℤ, pos, add64, ltb_ℤ, leb_ℤ}
use manager_key_pro.Store.Types.{User, Db}
use manager_key_pro.Store.Errors.{
  not_found, duplicate, sql_failure, message, wrap, Result, ok, err, null_if_empty, coalesce, Env,
  begin_tx, select_user, update_user, insert_user, random_bytes, require_one_row, run_tx,
}
use manager_key_pro.Store.Users.{has_id, user_by_id, has_telegram}

abbrev pub new_user : Env → String → String → String → String → String → User
new_user env username hash telegram role code = record {
  id = env.new_id "usr";
  username = username;
  password_hash = coalesce (null_if_empty hash);
  telegram_id = null_if_empty telegram;
  role = role;
  status = "active";
  balance = pos 0;
  wallet_mode = "prepaid";
  credit_limit = pos 0;
  referral_code = code;
  referred_by = "";
  failed_logins = pos 0;
  locked_until = pos 0;
  created_at = env.now;
  last_login_at = pos 0;
}

-- The UNIQUE columns of users: id, username, referral_code and telegram_id.
abbrev pub user_conflict : User → User → Bool
user_conflict n u =
    str_eq u.id n.id
    || str_eq u.username n.username
    || str_eq u.referral_code n.referral_code
    || elim n.telegram_id [ none ↦ false | some t ↦ has_telegram t u ]

abbrev pub role_valid : String → Bool
role_valid r = str_eq r "user" || str_eq r "admin"

-- `UsersRepo.Create`; `code` is what `newReferralCode` draws.
unfoldable pub create_user :
    Env → Db → String → String → String → String → String → Db × Result User
create_user env db name hash telegram role code =
    let username = trim_space name in
    let role' = if is_empty role then "user" else role in
    if is_empty username
    then (db, err (message "username is required"))
    else if env.fails random_bytes
    then (db, err (wrap sql_failure))
    else (let n = new_user env username hash telegram role' code in
        if env.fails (insert_user n.id) || not (role_valid n.role)
        then (db, err (wrap sql_failure))
        else if exists_row (user_conflict n) db.users
        then (db, err duplicate)
        else (let db' = record db { users = n ∷ db.users } in (db', user_by_id env db' n.id)))

-- The statements `UPDATE users SET … WHERE id = ?` with `requireOneRow`.
abbrev update_user_row : Env → Db → String → (User → User) → Db × Result (Unit {0})
update_user_row env db uid f =
    if env.fails (update_user uid) then (db, err (wrap sql_failure)) else (
      record db { users = update_where (has_id uid) f db.users },
      require_one_row (exists_row (has_id uid) db.users),
    )

abbrev pub user_status_valid : String → Bool
user_status_valid s =
    str_eq s "active" || str_eq s "pending" || str_eq s "disabled" || str_eq s "banned"

-- `UsersRepo.SetStatus`; the CHECK on the status fails the statement where a row is met.
unfoldable pub set_user_status : Env → Db → String → String → Db × Result (Unit {0})
set_user_status env db uid status =
    if exists_row (has_id uid) db.users && not (user_status_valid status)
    then (db, err (wrap sql_failure))
    else update_user_row env db uid (λ u. record u { status = status })

-- `UsersRepo.RecordLogin`: no row is no error.
unfoldable pub record_login : Env → Db → String → Db × Result (Unit {0})
record_login env db uid = if env.fails (update_user uid) then (db, err (wrap sql_failure)) else (
  record db {
    users =
        update_where (has_id uid)
          (λ u. record u { failed_logins = pos 0; locked_until = pos 0; last_login_at = env.now })
          db.users;
  },
  ok tt,
)

-- What a failed login writes: the counter and the end of the lock (0 for none).
unfoldable pub failed_login : Env → ℤ → ℤ → User → ℤ × ℤ
failed_login env lock_after lock_for u =
    let failed = add64 u.failed_logins (pos 1) in
    if ltb_ℤ (pos 0) lock_after && leb_ℤ lock_after failed
    then (pos 0, add64 env.now lock_for)
    else (failed, pos 0)

abbrev pub write_failed_login : ℤ × ℤ → User → User
write_failed_login (failed, locked) u = record u { failed_logins = failed; locked_until = locked }

unfoldable pub failed_login_tx : Env → String → ℤ → ℤ → Db → Db × Result ℤ
unfolding failed_login
failed_login_tx env uid lock_after lock_for db =
    if env.fails (select_user uid)
    then (db, err (wrap sql_failure))
    else (elim (select_first (has_id uid) db.users) [
      | none ↦ (db, err not_found)
      | some u ↦
          let next = failed_login env lock_after lock_for u in
          if env.fails (update_user uid) then (db, err (wrap sql_failure)) else (
            record db { users = update_where (has_id uid) (write_failed_login next) db.users },
            ok next.1,
          )
    ])

-- What the call returns beside its error: the end of the lock as soon as the transaction has computed
-- it, also where a later statement or the commit fails.
unfoldable pub computed_lock : Env → Db → String → ℤ → ℤ → ℤ
unfolding failed_login
computed_lock env db uid lock_after lock_for =
    if env.fails begin_tx || env.fails (select_user uid)
    then pos 0
    else (elim (select_first (has_id uid) db.users) [
      | none ↦ pos 0
      | some u ↦ (failed_login env lock_after lock_for u).1
    ])

-- `UsersRepo.RecordFailedLogin`: the end of the lock (0 for none), and the error.
unfoldable pub record_failed_login : Env → Db → String → ℤ → ℤ → Db × ℤ × Result ℤ
unfolding failed_login_tx run_tx computed_lock
record_failed_login env db uid lock_after lock_for =
    let (db', r) = run_tx env (failed_login_tx env uid lock_after lock_for) db in
    (db', computed_lock env db uid lock_after lock_for, r)

-- Another user's row has the Telegram identity.
abbrev pub taken_by_other : String → String → User → Bool
taken_by_other uid t u = has_telegram t u && not (has_id uid u)

-- `UsersRepo.LinkTelegram`
unfoldable pub link_telegram : Env → Db → String → String → Db × Result (Unit {0})
link_telegram env db uid t =
    if exists_row (has_id uid) db.users && exists_row (taken_by_other uid t) db.users
    then (db, err duplicate)
    else update_user_row env db uid (λ u. record u { telegram_id = some t })

-- `UsersRepo.SetPassword`
unfoldable pub set_password : Env → Db → String → String → Db × Result (Unit {0})
set_password env db uid hash = update_user_row env db uid (λ u. record u { password_hash = hash })
