-- ===== src/Portal/Auth.antt =====
-- internal/portal/server.go: registration and login by password.
use Prim.Native.String.{len}
use manager_key_pro.Base.{
  Bool, true, false, not, ◌&&◌, Option, none, some, String, is_empty, trim_space, str_eq,
  if◌then◌else◌,
}
use manager_key_pro.Base.Int.{pos, ltb_ℤ}
use manager_key_pro.Store.Types.{User}
use manager_key_pro.Store.Errors.{
  Error, not_found, duplicate, insufficient_balance, sql_unique, sql_failure, message, wrap, ok,
  err, is_not_found, Env,
}
use manager_key_pro.Store.Users.{user_by_username}
use manager_key_pro.Store.Users.Accounts.{
  create_user, set_user_status, record_login, record_failed_login,
}
use manager_key_pro.Portal.{
  Config, Portal, Primitives, Visit, Reply, refused, inactive, awaiting, registered, welcome,
  internal_error,
}
use manager_key_pro.Portal.Password.{hash_password, verify_password}
use manager_key_pro.Portal.Sessions.{create_session}

-- The bodies of both handlers.
pub record Credentials : Type 0 where
  pub username : String
  pub password : String

-- `err == store.ErrDuplicate`: the comparison does not look through wrapping.
unfoldable pub is_exactly_duplicate : Error → Bool
is_exactly_duplicate duplicate = true
is_exactly_duplicate not_found = false
is_exactly_duplicate insufficient_balance = false
is_exactly_duplicate sql_unique = false
is_exactly_duplicate sql_failure = false
is_exactly_duplicate (message s) = false
is_exactly_duplicate (wrap e) = false

-- `len(password) < MinPasswordLen`
abbrev pub too_short : Config → String → Bool
too_short cfg password = ltb_ℤ (pos (len password)) cfg.min_password_len

-- What follows the creation of the account.
unfoldable pub admit : Primitives → Config → Visit → Portal → User → Portal × Reply
admit pr cfg visit portal u =
    if cfg.require_approval
    then (
      record portal { db = (set_user_status visit.env portal.db u.id "pending").0 },
      (201, awaiting u.id u.username),
    )
    else (let (portal', token) = create_session pr cfg visit portal u.id in
        (portal', (201, registered u token)))

-- `handleRegister`; no body is one that does not parse.
unfoldable pub handle_register :
    Primitives → Config → Visit → Portal → Option Credentials → Portal × Reply
unfolding admit
handle_register pr cfg visit portal body =
    if not cfg.registration_open
    then (portal, (403, refused "registration_closed"))
    else (elim body [
      | none ↦ (portal, (400, refused "invalid body"))
      | some creds ↦
          let username = trim_space creds.username in
          if is_empty username
          then (portal, (400, refused "username required"))
          else if too_short cfg creds.password
          then (portal, (400, refused "password too short"))
          else (let hash = hash_password pr.argon visit.salt creds.password in
              let (db', r) = create_user visit.env portal.db username hash "" "user" visit.code in
              let portal' = record portal { db = db' } in
              elim r [
                | ok u ↦ admit pr cfg visit portal' u
                | err e ↦
                    if is_exactly_duplicate e
                    then (portal', (409, refused "username taken"))
                    else (portal', internal_error e)
              ])
    ])

-- `u.LockedUntil > 0 && store.Now() < u.LockedUntil`
abbrev pub is_locked : Env → User → Bool
is_locked env u = ltb_ℤ (pos 0) u.locked_until && ltb_ℤ env.now u.locked_until

-- A wrong password.
unfoldable pub refuse_password : Config → Visit → Portal → User → Portal × Reply
refuse_password cfg visit portal u =
    let (db', locked_until, _) =
      record_failed_login visit.env portal.db u.id cfg.login_lock_after (pos 900000) in
    let portal' = record portal { db = db' } in
    if ltb_ℤ (pos 0) locked_until
    then (portal', (429, refused "account locked"))
    else (portal', (401, refused "invalid credentials"))

-- The login of an account whose identity is proved: its status, the note of the login, the session.
unfoldable pub enter : Primitives → Config → Visit → Portal → User → Portal × Reply
enter pr cfg visit portal u =
    if not (str_eq u.status "active")
    then (portal, (403, inactive u.status))
    else (let noted = record portal { db = (record_login visit.env portal.db u.id).0 } in
        let (portal', token) = create_session pr cfg visit noted u.id in
        (portal', (200, welcome u token)))

-- `handleLogin`
unfoldable pub handle_login :
    Primitives → Config → Visit → Portal → Option Credentials → Portal × Reply
unfolding refuse_password enter
handle_login pr cfg visit portal body = elim body [
  | none ↦ (portal, (400, refused "invalid body"))
  | some creds ↦ elim (user_by_username visit.env portal.db (trim_space creds.username)) [
    | err e ↦
        if is_not_found e
        then (portal, (401, refused "invalid credentials"))
        else (portal, internal_error e)
    | ok u ↦
        if is_locked visit.env u
        then (portal, (429, refused "account locked"))
        else if not (verify_password pr.argon u.password_hash creds.password)
        then refuse_password cfg visit portal u
        else enter pr cfg visit portal u
  ]
]
