-- ===== src/Issue.antt =====
-- internal/issue/issue.go: issuing a key and buying a package.
pub mod Steps
pub mod Purchase
use manager_key_pro.Base.{
  ℕ, Bool, true, false, not, ◌&&◌, ◌||◌, Option, none, some, List, [], ◌∷◌, String, str_eq,
  is_empty, ◌+++◌, if◌then◌else◌, exists_row, update_where,
}
use manager_key_pro.Base.Int.{ℤ, pos, negsuc, add64, mul64, neg64, ltb_ℤ, leb_ℤ, show_int}
use manager_key_pro.Store.Types.{Key, Package, Order, AuditRow, HistoryRow, Db}
use manager_key_pro.Store.Errors.{
  Error, sql_failure, message, wrap, Result, ok, err, null_str, Env, update_key, insert_audit,
  insert_history,
}
use manager_key_pro.Store.Users.{user_by_id, adjust_balance}
use manager_key_pro.Store.Keys.{key_by_id, has_key_id, renew_row}
use manager_key_pro.Store.Keys.Create.{create_key, CreateKeyInput}
use manager_key_pro.Store.Packages.{package_by_id, create_order}
use manager_key_pro.Crypto.{Cipher, generate_key, hash_key, prefix, encrypt_key}

-- `Spec`
pub record Spec : Type 0 where
  pub name : String
  pub quota_kind : String
  pub quota_scope : String
  pub quota_amount : ℤ
  pub plan_type : String
  pub window_hours : ℤ
  pub expires_at : ℤ
  pub rpm : ℤ
  pub models : List String
  pub package_id : String

abbrev pub audit_row : Env → String → String → String → String → AuditRow
audit_row env actor action kid uid = record {
  user_id = null_str uid;
  key_id = null_str kid;
  actor = actor;
  action = action;
  created_at = env.now;
}

-- `audit`: best effort. The JSON detail is not kept.
unfoldable pub audit : Env → Db → String → String → String → String → Db
audit env db actor action kid uid =
    if env.fails (insert_audit kid)
    then db
    else record db { audit_log = audit_row env actor action kid uid ∷ db.audit_log }

abbrev pub history_row : Env → String → Key → ℤ → ℤ → String → HistoryRow
history_row env kid before amount expires actor = record {
  key_id = kid;
  action = "renew";
  amount_before = before.quota_amount;
  expires_before = before.expires_at;
  amount_after = amount;
  expires_after = expires;
  actor = actor;
  created_at = env.now;
}

-- `quotaHistory` of a renewal: best effort.
unfoldable pub renew_history : Env → Db → String → Key → ℤ → ℤ → String → Db
renew_history env db kid before amount expires actor =
    if env.fails (insert_history kid) || not (exists_row (has_key_id kid) db.keys)
    then db
    else record db {
      quota_history = history_row env kid before amount expires actor ∷ db.quota_history;
    }

-- The row that `Key` asks the repository for.
abbrev pub key_input : Cipher → String → String → List ℕ → List ℕ → Spec → CreateKeyInput
key_input cr uid plain cipher nonce spec = record {
  user_id = uid;
  key_hash = hash_key cr plain;
  key_cipher = cipher;
  key_nonce = nonce;
  prefix = prefix plain;
  name = spec.name;
  quota_kind = spec.quota_kind;
  quota_scope = spec.quota_scope;
  quota_amount = spec.quota_amount;
  plan_type = spec.plan_type;
  window_hours = spec.window_hours;
  expires_at = spec.expires_at;
  package_id = spec.package_id;
  allowed_models = spec.models;
  allowed_providers = [];
  ip_allowlist = [];
  rpm = spec.rpm;
}

-- `Key`: the new key and its plaintext.
unfoldable pub issue_key :
    Cipher → Env → Db → List ℕ → String → Spec → String → Db × Result (Key × String)
issue_key cr env db secret uid spec actor = elim (user_by_id env db uid) [
  | err _ ↦ (db, err (message "user not found"))
  | ok _ ↦ elim (generate_key cr env) [
    | err e ↦ (db, err e)
    | ok plain ↦ elim (encrypt_key cr env plain secret) [
      | err e ↦ (db, err e)
      | ok (cipher, nonce) ↦
          let (db', r) = create_key env db (key_input cr uid plain cipher nonce spec) in
          elim r [
            | err e ↦ (db', err e)
            | ok k ↦ (audit env db' actor "key.create" k.id uid, ok (k, plain))
          ]
    ]
  ]
]

-- `days * 24 * 60 * 60 * 1000`
unfoldable pub days_ms : ℤ → ℤ
days_ms days = mul64 (mul64 (mul64 (mul64 days (pos 24)) (pos 60)) (pos 60)) (pos 1000)

-- The expiry of a package bought now; -1 for a package without a time limit.
unfoldable pub package_expiry : Env → Package → ℤ
package_expiry env pkg =
    if ltb_ℤ (pos 0) pkg.duration_days then add64 env.now (days_ms pkg.duration_days) else negsuc 0

-- The expiry of a renewed key.
unfoldable pub renewed_expiry : Env → Package → Key → ℤ
renewed_expiry env pkg k =
    let expires = package_expiry env pkg in
    if ltb_ℤ (pos 0) expires && ltb_ℤ env.now k.expires_at
    then add64 k.expires_at (days_ms pkg.duration_days)
    else expires

-- The quota and expiry of the key's row, 0 where the second lookup fails (`k, _ := ByID`).
abbrev pub zeroed : Result Key → Key → Key
zeroed (ok k) _ = k
zeroed (err _) k = record k { quota_amount = pos 0; expires_at = pos 0 }

-- The renewal after the debit: `k` is the key as the second lookup returned it.
unfoldable pub renew_key :
    Env → Db → String → Package → String → Key → Db × Result (String × String × String)
renew_key env db uid pkg kid k =
    let amount = add64 k.quota_amount pkg.quota_amount in
    let expires = renewed_expiry env pkg k in
    if env.fails (update_key kid) || (exists_row (has_key_id kid) db.keys && ltb_ℤ amount (pos 0))
    then (db, err (wrap sql_failure))
    else (let db1 = record db {
      keys = update_where (has_key_id kid) (renew_row amount expires env.now) db.keys;
    } in
        let db2 = renew_history env db1 kid k amount expires ("user:" +++ uid) in
        let (db3, r) = create_order env db2 uid pkg.id kid "renew" pkg.price_credit "paid" in
        elim r [ err e ↦ (db3, err e) | ok o ↦ (db3, ok (o.id, kid, "")) ])

-- The scope that a key of the package gets: a custom window needs a cyclic scope.
abbrev pub package_scope : Package → String
package_scope pkg =
    if ltb_ℤ (pos 0) pkg.window_hours && str_eq pkg.quota_scope "lifetime"
    then "day"
    else pkg.quota_scope

abbrev pub package_spec : Env → Package → Spec
package_spec env pkg = record {
  name = pkg.name;
  quota_kind = pkg.quota_kind;
  quota_scope = package_scope pkg;
  quota_amount = pkg.quota_amount;
  plan_type = pkg.plan_type;
  window_hours = pkg.window_hours;
  expires_at = package_expiry env pkg;
  rpm = pkg.rpm;
  models = pkg.allowed_models;
  package_id = pkg.id;
}

-- The new key after the debit.
unfoldable pub sell_key :
    Cipher → Env → Db → List ℕ → String → Package → Db × Result (String × String × String)
sell_key cr env db secret uid pkg =
    let (db1, r) = issue_key cr env db secret uid (package_spec env pkg) ("user:" +++ uid) in
    elim r [
      | err e ↦ (db1, err e)
      | ok (k, plain) ↦
          let (db2, q) = create_order env db1 uid pkg.id k.id "new_key" pkg.price_credit "paid" in
          elim q [ err e ↦ (db2, err e) | ok o ↦ (db2, ok (o.id, k.id, plain)) ]
    ]

-- The checks on the kind of the purchase and on the key to renew: an error, or that key.
unfoldable pub check_purchase : Env → Db → String → String → String → Result (Option Key)
check_purchase env db uid kind kid =
    if not (str_eq kind "new_key") && not (str_eq kind "renew")
    then err (message "kind must be new_key or renew")
    else if str_eq kind "new_key"
    then ok none
    else if is_empty kid
    then err (message "key_id required for renew")
    else (elim (key_by_id env db kid) [
      | err _ ↦ err (message "key not found or not owned by you")
      | ok k ↦
          if str_eq k.user_id uid
          then ok (some k)
          else err (message "key not found or not owned by you")
    ])

-- What follows the debit; `renewing` is the key that the check found.
unfoldable pub deliver :
    Cipher
    → Env
    → Db
    → List ℕ
    → String
    → Package
    → String
    → Option Key
    → Db × Result (String × String × String)
deliver cr env db secret uid pkg kid none = sell_key cr env db secret uid pkg
deliver cr env db secret uid pkg kid (some k) =
    renew_key env db uid pkg kid (zeroed (key_by_id env db kid) k)

-- `BuyPackage`: `env` is the call up to the debit, `env'` what follows it. The order's id, the key's
-- id and the plaintext of a new key.
unfoldable pub buy_package :
    Cipher
    → Env
    → Env
    → Db
    → List ℕ
    → String
    → String
    → String
    → String
    → Db × Result (String × String × String)
buy_package cr env env' db secret uid pid kind kid = elim (package_by_id env db pid) [
  | err _ ↦ (db, err (message "package not found"))
  | ok pkg ↦ elim (check_purchase env db uid kind kid) [
    | err e ↦ (db, err e)
    | ok renewing ↦
        let ref = "order:" +++ pid +++ ":" +++ show_int env.now in
        let (db1, r) =
          adjust_balance env db uid (neg64 pkg.price_credit) "purchase" ref "portal" "" in
        elim r [ err e ↦ (db1, err e) | ok _ ↦ deliver cr env' db1 secret uid pkg kid renewing ]
  ]
]
