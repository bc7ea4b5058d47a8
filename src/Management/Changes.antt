-- ===== src/Management/Changes.antt =====
-- What the handlers of the administration change in the database.
use manager_key_pro.Base.{
  ℕ, none, some, inl, inr, true, Option, List, String, arith, if◌then◌else◌, update_where,
}
use manager_key_pro.Base.Int.{ℤ, add64}
use manager_key_pro.Store.Types.{Db}
use manager_key_pro.Store.Errors.{Env}
use manager_key_pro.Store.Users.{adjust_balance}
use manager_key_pro.Store.Users.Accounts.{set_password}
use manager_key_pro.Store.Keys.{key_by_id, has_key_id, renew_row, set_overflow}
use manager_key_pro.Store.Packages.{package_by_id}
use manager_key_pro.Store.Steps.{
  Steps, Steps-trans, here, here_at, Result-cases, adjust_balance-Steps,
}
use manager_key_pro.Store.Edits.{set_overflow-Steps, set_access-Steps, set_password-Steps}
use manager_key_pro.Crypto.{Cipher}
use manager_key_pro.Issue.{audit, issue_key}
use manager_key_pro.Issue.Steps.{audit-Steps, issue_key-Steps, renew_row-Steps, renew_history-Steps}
use manager_key_pro.Referral.Steps.{on_recharge-Steps}
use manager_key_pro.Plugin.Hooks.{after_recharge, default_text}
use manager_key_pro.Portal.Password.{Argon, hash_password}
use manager_key_pro.Management.Keys.{
  CreateKeyBody, RenewBody, admin_expiry, apply_package, key_spec, dress_key, issue_for,
  create_key_for, renew_key_for,
}
use manager_key_pro.Management.Users.{RechargeBody, recharge_for, reset_password}

after_recharge-Steps :
    (tiers_of : String → Option (List ℤ)) (env : Env) (db : Db) (uid : String) (amount : ℤ)
    (why ref : String)
    → Steps db (after_recharge tiers_of env db uid amount why ref)
unfolding after_recharge
after_recharge-Steps tiers_of env db uid amount why ref =
    let noted_db = audit env db "admin" "wallet.recharge" "" uid in
    let noted = audit-Steps env db "admin" "wallet.recharge" "" uid in
    ground
      (arith, noted, Steps-trans noted (on_recharge-Steps tiers_of env noted_db uid amount ref))

pub recharge_for-Steps :
    (tiers_of : String → Option (List ℤ)) (env : Env) (db : Db) (uid : String)
    (body : Option RechargeBody)
    → Steps db (recharge_for tiers_of env db uid body).0
unfolding recharge_for
recharge_for-Steps tiers_of env db uid none = here
recharge_for-Steps tiers_of env db uid (some body) =
    let why = default_text body.reason "recharge" in
    let ch = default_text body.channel "dashboard" in
    let reached = adjust_balance-Steps env db uid body.amount why body.ref_id ch "" in
    let paid = adjust_balance env db uid body.amount why body.ref_id ch "" in
    ground (
      arith,
      here_at db,
      reached,
      Steps-trans reached
          (after_recharge-Steps tiers_of env paid.0 uid body.amount why body.ref_id),
    )

dress_key-Steps :
    (env : Env) (db : Db) (kid : String) (body : CreateKeyBody)
    → Steps db (dress_key env db kid body)
unfolding dress_key
dress_key-Steps env db kid body =
    let db1 = if body.overflow then (set_overflow env db kid true).0 else db in
    let opened : Steps db db1 = ground (arith, here_at db, set_overflow-Steps env db kid true) in
    ground (
      arith,
      opened,
      Steps-trans opened (set_access-Steps env db1 kid body.providers body.ip_allowlist),
    )

issue_for-Steps :
    (cr : Cipher) (env : Env) (db : Db) (secret : List ℕ) (body : CreateKeyBody)
    → Steps db (issue_for cr env db secret body).0
unfolding issue_for
issue_for-Steps cr env db secret body =
    let spec = key_spec body in
    let made = issue_key-Steps cr env db secret body.user_id spec "admin" in
    let db1 = (issue_key cr env db secret body.user_id spec "admin").0 in
    elim (Result-cases (issue_key cr env db secret body.user_id spec "admin").1) [
      | inl (e, q) ↦ rw (issue_for, q) made
      | inr ((k, plain), q) ↦
          rw (issue_for, q) (Steps-trans made (dress_key-Steps env db1 k.id body))
    ]

pub create_key_for-Steps :
    (cr : Cipher) (env : Env) (db : Db) (secret : List ℕ) (body : Option CreateKeyBody)
    → Steps db (create_key_for cr env db secret body).0
unfolding create_key_for
create_key_for-Steps cr env db secret none = here
create_key_for-Steps cr env db secret (some body) =
    elim (Result-cases (package_by_id env db body.package_id)) [
      | inl (e, q) ↦ ground (arith, q, here_at db, issue_for-Steps cr env db secret body)
      | inr (pkg, q) ↦ ground (
        arith,
        q,
        here_at db,
        issue_for-Steps cr env db secret body,
        issue_for-Steps cr env db secret (apply_package env pkg body),
      )
    ]

pub renew_key_for-Steps :
    (env : Env) (db : Db) (kid : String) (body : Option RenewBody)
    → Steps db (renew_key_for env db kid body).0
unfolding renew_key_for
renew_key_for-Steps env db kid none = here
renew_key_for-Steps env db kid (some body) = elim (Result-cases (key_by_id env db kid)) [
  | inl (e, q) ↦ rw (renew_key_for, q) here
  | inr (k, q) ↦
      let amount = add64 k.quota_amount body.add_quota in
      let expires = admin_expiry env body k in
      let db1 = record db {
        keys = update_where (has_key_id kid) (renew_row amount expires env.now) db.keys;
      } in
      let renewed =
        Steps-trans (renew_row-Steps db kid amount expires env.now)
          (renew_history-Steps env db1 kid k amount expires "admin") in
      ground (arith, q, here_at db, renewed)
]

pub reset_password-Steps :
    (argon : Argon) (salt : List ℕ) (env : Env) (db : Db) (body : Option (String × String))
    → Steps db (reset_password argon salt env db body).0
unfolding reset_password
reset_password-Steps argon salt env db none = here
reset_password-Steps argon salt env db (some (uid, password)) =
    let hash = hash_password argon salt password in
    let stored = set_password-Steps env db uid hash in
    let db' = (set_password env db uid hash).0 in
    ground (
      arith,
      here_at db,
      stored,
      Steps-trans stored (audit-Steps env db' "admin" "user.reset_password" "" uid),
    )
