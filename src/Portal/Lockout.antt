-- ===== src/Portal/Lockout.antt =====
-- Wrong passwords in a row lock an account.
use manager_key_pro.Base.{
  ℕ, ◌≡◌, refl, ap, false, some, inl, inr, String, trim_space, str_eq, str_eq_refl, Bool-cases,
  select_first, update_where, select_first-update_hit,
}
use manager_key_pro.Base.Int.{ℤ, pos, ltb_ℤ}
use manager_key_pro.Store.Types.{User, Db}
use manager_key_pro.Store.Errors.{
  ok, Stmt, Env, Result, run_tx, begin_tx, commit_tx, select_user, update_user,
}
use manager_key_pro.Store.Users.{user_by_username, has_id}
use manager_key_pro.Store.Users.Accounts.{
  failed_login, write_failed_login, failed_login_tx, computed_lock, record_failed_login,
}
use manager_key_pro.Portal.{Config, Portal, Primitives, Visit, Reply}
use manager_key_pro.Portal.Password.{verify_password}
use manager_key_pro.Portal.Auth.{is_locked, refuse_password, handle_login}

-- The account after some wrong passwords, and the locked account.
abbrev pub failed : ℕ → User → User
failed n u = record u { failed_logins = pos n; locked_until = pos 0 }

abbrev pub locked : ℤ → User → User
locked until u = record u { failed_logins = pos 0; locked_until = until }

-- The row of an account, by its name (which the repository trims a second time) and by its id.
pub record Stored (portal : Portal) (name uid : String) (u : User) : Type 0 where
  pub by_name :
      select_first (λ x. str_eq x.username (trim_space (trim_space name))) portal.db.users ≡ some u
  pub by_id : select_first (has_id uid) portal.db.users ≡ some u

-- A login that a wrong password refuses, and in which the driver fails nothing.
pub record Wrong (pr : Primitives) (u : User) (visit : Visit) (password : String) : Type 0 where
  pub sound : (s : Stmt) → visit.env.fails s ≡ false
  pub wrong : verify_password pr.argon u.password_hash password ≡ false

abbrev pub login : Primitives → Config → Visit → Portal → String → String → Portal × Reply
login pr cfg visit portal name password =
    handle_login pr cfg visit portal (some (record { username = name; password = password }))

-- What the wrong password writes.
abbrev pub after_wrong : Config → Visit → User → Portal → Portal
after_wrong cfg visit u portal = record portal {
  db = record portal.db {
    users =
        update_where (has_id u.id)
          (write_failed_login (failed_login visit.env cfg.login_lock_after (pos 900000) u))
          portal.db.users;
  };
}

failed_login_tx-counts :
    (cfg : Config) (visit : Visit) (portal : Portal) (u : User)
    → ((s : Stmt) → visit.env.fails s ≡ false)
    → select_first (has_id u.id) portal.db.users ≡ some u
    → failed_login_tx visit.env u.id cfg.login_lock_after (pos 900000) portal.db ≡ (
      (after_wrong cfg visit u portal).db,
      ok (failed_login visit.env cfg.login_lock_after (pos 900000) u).1,
    )
unfolding failed_login_tx
failed_login_tx-counts cfg visit portal u sound found =
    rw (failed_login_tx, sound (select_user u.id), found, sound (update_user u.id)) refl

computed_lock-counts :
    (cfg : Config) (visit : Visit) (portal : Portal) (u : User)
    → ((s : Stmt) → visit.env.fails s ≡ false)
    → select_first (has_id u.id) portal.db.users ≡ some u
    → computed_lock visit.env portal.db u.id cfg.login_lock_after (pos 900000)
      ≡ (failed_login visit.env cfg.login_lock_after (pos 900000) u).1
unfolding computed_lock
computed_lock-counts cfg visit portal u sound found =
    rw (computed_lock, sound begin_tx, sound (select_user u.id), found) refl

run_tx-ok :
    {A : Type 0} (env : Env) (fn : Db → Db × Result A) (db : Db) {db' : Db} {a : A}
    → env.fails begin_tx ≡ false
    → env.fails commit_tx ≡ false
    → fn db ≡ (db', ok a)
    → run_tx env fn db ≡ (db', ok a)
unfolding run_tx
run_tx-ok env fn db b c h = rw (run_tx, b, ap (λ r. r.1) h, c, ap (λ r. r.0) h) refl

record_failed_login-counts :
    (cfg : Config) (visit : Visit) (portal : Portal) (u : User)
    → ((s : Stmt) → visit.env.fails s ≡ false)
    → select_first (has_id u.id) portal.db.users ≡ some u
    → let next = failed_login visit.env cfg.login_lock_after (pos 900000) u in
      record_failed_login visit.env portal.db u.id cfg.login_lock_after (pos 900000)
      ≡ ((after_wrong cfg visit u portal).db, next.1, ok next.1)
unfolding record_failed_login
record_failed_login-counts cfg visit portal u sound found =
    let env = visit.env in
    let tx =
      run_tx-ok env (failed_login_tx env u.id cfg.login_lock_after (pos 900000)) portal.db
        (sound begin_tx) (sound commit_tx)
        (failed_login_tx-counts cfg visit portal u sound found) in
    let lock = computed_lock-counts cfg visit portal u sound found in
    λ i. ((tx i).0, lock i, (tx i).1)

refuse_password-counts :
    (cfg : Config) (visit : Visit) (portal : Portal) (u : User)
    → ((s : Stmt) → visit.env.fails s ≡ false)
    → select_first (has_id u.id) portal.db.users ≡ some u
    → (refuse_password cfg visit portal u).0 ≡ after_wrong cfg visit u portal
unfolding refuse_password
refuse_password-counts cfg visit portal u sound found =
    let counts = record_failed_login-counts cfg visit portal u sound found in
    let until = (failed_login visit.env cfg.login_lock_after (pos 900000) u).1 in
    elim (Bool-cases (ltb_ℤ (pos 0) until)) [
      | inl e ↦ rw (refuse_password, counts, e) refl
      | inr e ↦ rw (refuse_password, counts, e) refl
    ]

-- The login of a stored, unlocked account with a wrong password.
pub login-Wrong :
    (pr : Primitives) (cfg : Config) (visit : Visit) (portal : Portal) (name password : String)
    (u : User)
    → Stored portal name u.id u
    → Wrong pr u visit password
    → is_locked visit.env u ≡ false
    → (login pr cfg visit portal name password).0 ≡ after_wrong cfg visit u portal
unfolding handle_login user_by_username
login-Wrong pr cfg visit portal name password u stored attempt unlocked =
    let reads = attempt.sound (select_user (trim_space name)) in
    let found = stored.by_name in
    let wrong = attempt.wrong in
    rw (handle_login, user_by_username, reads, found, unlocked, wrong)
      (refuse_password-counts cfg visit portal u attempt.sound stored.by_id)

-- The row after a wrong password.
pub after_wrong-Stored :
    (cfg : Config) (visit : Visit) (portal : Portal) (name : String) (u : User)
    → Stored portal name u.id u
    → Stored
        (after_wrong cfg visit u portal)
        name
        u.id
        (write_failed_login (failed_login visit.env cfg.login_lock_after (pos 900000) u) u)
after_wrong-Stored cfg visit portal name u stored =
    let f = write_failed_login (failed_login visit.env cfg.login_lock_after (pos 900000) u) in
    record {
      by_name =
          select_first-update_hit (has_id u.id)
            (λ x. str_eq x.username (trim_space (trim_space name))) f portal.db.users (λ y. refl)
            stored.by_name (str_eq_refl u.id);
      by_id =
          select_first-update_hit (has_id u.id) (has_id u.id) f portal.db.users (λ y. refl)
            stored.by_id (str_eq_refl u.id);
    }
