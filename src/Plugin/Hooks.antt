-- ===== src/Plugin/Hooks.antt =====
-- hooks.go: authentication, the gate before a request, its completion, and what follows a recharge.
use manager_key_pro.Base.{
  Bool, false, not, ◌&&◌, Option, none, some, List, [], String, str_eq, is_empty, if◌then◌else◌,
}
use manager_key_pro.Base.Int.{ℤ, pos, ltb_ℤ}
use manager_key_pro.Store.Types.{Key, Db}
use manager_key_pro.Store.Errors.{Error, ok, err, wrap, is_not_found, Env}
use manager_key_pro.Store.Users.{user_by_id}
use manager_key_pro.Store.Keys.{key_by_hash, is_active, set_key_status}
use manager_key_pro.Crypto.{Cipher, hash_key}
use manager_key_pro.Policy.{
  Decision, Seen, check_model, check_provider, check_ip, check_rpm, check_user_status,
}
use manager_key_pro.Billing.Pricing.{Floats, Pricing}
use manager_key_pro.Billing.Hold.{hold, release}
use manager_key_pro.Issue.{audit}
use manager_key_pro.Referral.{on_recharge}
use manager_key_pro.Plugin.Request.{Headers, extract_key, client_ip}

-- The answer of `handleAuthenticate`: not authenticated, the key and its owner, or an error.
pub data Auth : Type 0 where
  rejected : Auth
  granted : String → String → Auth
  failed : Error → Auth

-- The owner's status bars the key; a failed lookup of the owner does not.
unfoldable pub owner_barred : Env → Db → Key → Bool
owner_barred env db key = elim (user_by_id env db key.user_id) [
  | err _ ↦ false
  | ok user ↦ not (check_user_status user).allowed
]

-- `key.ExpiresAt > 0 && store.Now() > key.ExpiresAt`
unfoldable pub is_expired : Env → Key → Bool
is_expired env key = ltb_ℤ (pos 0) key.expires_at && ltb_ℤ key.expires_at env.now

-- `handleAuthenticate`, from the request's headers and query.
unfoldable pub authenticate : Cipher → Env → Db → Headers → Headers → Db × Auth
unfolding is_expired owner_barred
authenticate cr env db headers query =
    let plain = extract_key headers query in
    if is_empty plain then (db, rejected) else (elim (key_by_hash env db (hash_key cr plain)) [
      | err e ↦ if is_not_found e then (db, rejected) else (db, failed (wrap e))
      | ok key ↦
          if not (is_active key)
          then (db, rejected)
          else if is_expired env key
          then ((set_key_status env db key.id "expired").0, rejected)
          else if owner_barred env db key
          then (db, rejected)
          else (db, granted key.id key.user_id)
    ])

-- `interceptRequest`, the fields that the gate reads.
pub record InterceptRequest : Type 0 where
  pub request_id : String
  pub model : String
  pub requested_model : String
  pub headers : Headers

-- The answer of `handleInterceptBefore`: `{}`, or the termination with a decision.
pub data Gate : Type 0 where
  passed : Gate
  terminated : Decision → Gate

-- The policy gates that keep no state: models, providers (no hint is read from the model), addresses.
unfoldable pub static_gate : Key → InterceptRequest → Option Decision
static_gate key req =
    let m = check_model key req.requested_model req.model in
    let p = check_provider key "" in
    let i = check_ip key (client_ip req.headers) in
    if not m.allowed
    then some m
    else if not p.allowed
    then some p
    else if not i.allowed
    then some i
    else none

-- `handleInterceptBefore`: the gates, then one hold. The capture of the request for the logs, which
-- stands between them and changes no table, is added in Plugin.Logged.
unfoldable pub intercept_before :
    Cipher → (fl : Floats) → Env → Pricing fl → Db → Seen → InterceptRequest → Db × Seen × Gate
unfolding static_gate
intercept_before cr fl env pr db seen req =
    let plain = extract_key req.headers [] in
    if is_empty plain then (db, seen, passed) else (elim (key_by_hash env db (hash_key cr plain)) [
      | err _ ↦ (db, seen, passed)
      | ok key ↦ elim (static_gate key req) [
        | some d ↦ (db, seen, terminated d)
        | none ↦
            let (seen', d) = check_rpm env.now seen key in
            if not d.allowed
            then (db, seen', terminated d)
            else (hold fl env pr db req.request_id key.id key.user_id req.model, seen', passed)
      ]
    ])

-- The first part of `handleComplete`: a request that did not succeed gives its hold back.
unfoldable pub complete : Env → Db → String → String → Db
complete env db rid outcome = if str_eq outcome "succeeded" then db else release env db rid

-- The text, or a default where it is empty.
abbrev pub default_text : String → String → String
default_text s d = if is_empty s then d else s

-- What follows the move of the wallet: the audit row, then the referral rewards of a real recharge.
unfoldable pub after_recharge :
    (String → Option (List ℤ)) → Env → Db → String → ℤ → String → String → Db
after_recharge tiers_of env db uid amount why ref =
    let db' = audit env db "admin" "wallet.recharge" "" uid in
    if str_eq why "recharge" && ltb_ℤ (pos 0) amount
    then on_recharge tiers_of env db' uid amount ref
    else db'
