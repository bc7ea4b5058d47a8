-- ===== src/Portal/Changes.antt =====
-- What the handlers of the portal change in the database.
use manager_key_pro.Base.{
  subst, none, some, inl, inr, Option, String, is_empty, trim_space, arith, Option-cases,
  if◌then◌else◌,
}
use manager_key_pro.Base.Int.{pos}
use manager_key_pro.Store.Types.{User, Db}
use manager_key_pro.Store.Errors.{Env}
use manager_key_pro.Store.Users.{user_by_username}
use manager_key_pro.Store.Keys.{rename}
use manager_key_pro.Store.Steps.{
  Steps, Steps-trans, here, here_at, Result-cases, adjust_balance-Steps,
}
use manager_key_pro.Store.Edits.{
  rename-Steps, set_overflow-Steps, record_login-Steps, record_failed_login-Steps,
  set_password-Steps,
}
use manager_key_pro.Issue.Steps.{buy_package-Steps}
use manager_key_pro.Portal.{Config, Portal, Primitives, Session, Visit, HttpRequest, Reply}
use manager_key_pro.Portal.Password.{hash_password}
use manager_key_pro.Portal.Sessions.{create_session, get_session, handle_logout, with_session}
use manager_key_pro.Portal.Revealed.{get_session-db}
use manager_key_pro.Portal.Auth.{Credentials, refuse_password, enter, handle_login}
use manager_key_pro.Portal.Account.{
  KeyUpdate, Purchase, Recharge, update_own_key, handle_set_password, handle_my_key_update,
  handle_buy_package, handle_webhook_recharge,
}

refuse_password-Steps :
    (cfg : Config) (visit : Visit) (portal : Portal) (u : User)
    → Steps portal.db (refuse_password cfg visit portal u).0.db
unfolding refuse_password
refuse_password-Steps cfg visit portal u =
    let noted =
      record_failed_login-Steps visit.env portal.db u.id cfg.login_lock_after (pos 900000) in
    ground (arith, noted)

enter-Steps :
    (pr : Primitives) (cfg : Config) (visit : Visit) (portal : Portal) (u : User)
    → Steps portal.db (enter pr cfg visit portal u).0.db
unfolding enter create_session
enter-Steps pr cfg visit portal u =
    ground (arith, here_at portal.db, record_login-Steps visit.env portal.db u.id)

pub handle_login-Steps :
    (pr : Primitives) (cfg : Config) (visit : Visit) (portal : Portal) (body : Option Credentials)
    → Steps portal.db (handle_login pr cfg visit portal body).0.db
unfolding handle_login
handle_login-Steps pr cfg visit portal none = here
handle_login-Steps pr cfg visit portal (some creds) =
    elim (Result-cases (user_by_username visit.env portal.db (trim_space creds.username))) [
      | inl (e, q) ↦ ground (arith, q, here_at portal.db)
      | inr (u, q) ↦ ground (
        arith,
        q,
        here_at portal.db,
        refuse_password-Steps cfg visit portal u,
        enter-Steps pr cfg visit portal u,
      )
    ]

pub handle_logout-Steps :
    (portal : Portal) (req : HttpRequest) → Steps portal.db (handle_logout portal req).0.db
unfolding handle_logout
handle_logout-Steps portal req = ground (arith, here_at portal.db)

-- A handler behind a session changes what it changes once the session is found.
with_session-Steps :
    (pr : Primitives) (visit : Visit) (portal : Portal) (req : HttpRequest)
    (handle : Portal → Session → Portal × Reply)
    → ((p : Portal) (sess : Session) → Steps p.db (handle p sess).0.db)
    → Steps portal.db (with_session pr visit portal req handle).0.db
unfolding with_session
with_session-Steps pr visit portal req handle h =
    let entered = (get_session pr visit portal req).0 in
    let same = get_session-db pr visit portal req in
    elim (Option-cases (get_session pr visit portal req).1) [
      | inl q ↦ rw (with_session, q) (subst (λ d. Steps d entered.db) same here)
      | inr (sess, q) ↦
          rw (with_session, q)
            (subst (λ d. Steps d (handle entered sess).0.db) same (h entered sess))
    ]

pub handle_set_password-Steps :
    (pr : Primitives) (cfg : Config) (visit : Visit) (portal : Portal) (req : HttpRequest)
    (body : Option String)
    → Steps portal.db (handle_set_password pr cfg visit portal req body).0.db
unfolding handle_set_password
handle_set_password-Steps pr cfg visit portal req none =
    with_session-Steps pr visit portal req _ (λ p sess. here)
handle_set_password-Steps pr cfg visit portal req (some password) =
    with_session-Steps pr visit portal req _ (λ p sess. ground (
      arith,
      here_at p.db,
      set_password-Steps visit.env p.db sess.user_id (hash_password pr.argon visit.salt password),
    ))

update_own_key-Steps :
    (env : Env) (db : Db) (body : KeyUpdate) → Steps db (update_own_key env db body)
unfolding update_own_key
update_own_key-Steps env db body =
    let db' = if is_empty body.name then db else (rename env db body.id body.name).0 in
    let renamed : Steps db db' =
      ground (arith, here_at db, rename-Steps env db body.id body.name) in
    elim (Option-cases body.overflow) [
      | inl q ↦ rw (update_own_key, q) renamed
      | inr (b, q) ↦
          rw (update_own_key, q) (Steps-trans renamed (set_overflow-Steps env db' body.id b))
    ]

pub handle_my_key_update-Steps :
    (pr : Primitives) (visit : Visit) (portal : Portal) (req : HttpRequest)
    (body : Option KeyUpdate)
    → Steps portal.db (handle_my_key_update pr visit portal req body).0.db
unfolding handle_my_key_update
handle_my_key_update-Steps pr visit portal req none =
    with_session-Steps pr visit portal req _ (λ p sess. here)
handle_my_key_update-Steps pr visit portal req (some change) =
    with_session-Steps pr visit portal req _
      (λ p sess. ground (arith, here_at p.db, update_own_key-Steps visit.env p.db change))

pub handle_buy_package-Steps :
    (pr : Primitives) (cfg : Config) (visit : Visit) (portal : Portal) (req : HttpRequest)
    (body : Option Purchase)
    → Steps portal.db (handle_buy_package pr cfg visit portal req body).0.db
unfolding handle_buy_package
handle_buy_package-Steps pr cfg visit portal req none =
    with_session-Steps pr visit portal req _ (λ p sess. here)
handle_buy_package-Steps pr cfg visit portal req (some wish) =
    with_session-Steps pr visit portal req _ (λ p sess. ground (
      arith,
      here_at p.db,
      buy_package-Steps pr.cipher visit.env visit.retry p.db cfg.secret_key sess.user_id
          wish.package_id (if is_empty wish.kind then "new_key" else wish.kind) wish.renew_key_id,
    ))

pub handle_webhook_recharge-Steps :
    (cfg : Config) (visit : Visit) (portal : Portal) (req : HttpRequest) (body : Option Recharge)
    → Steps portal.db (handle_webhook_recharge cfg visit portal req body).0.db
unfolding handle_webhook_recharge
handle_webhook_recharge-Steps cfg visit portal req none = ground (arith, here_at portal.db)
handle_webhook_recharge-Steps cfg visit portal req (some paid) = ground (
  arith,
  here_at portal.db,
  adjust_balance-Steps visit.env portal.db paid.user_id paid.amount "recharge" paid.tx_id "telegram"
      "",
)
