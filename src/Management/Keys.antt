-- ===== src/Management/Keys.antt =====
-- internal/plugin/management.go: creating, revealing, deleting, renewing and switching keys.
use manager_key_pro.Base.{
  ℕ, Bool, true, false, not, ◌&&◌, ◌||◌, Option, none, some, List, [], ◌∷◌, String, is_empty,
  str_eq, if◌then◌else◌, exists_row, update_where,
}
use manager_key_pro.Base.Int.{ℤ, pos, negsuc, add64, ltb_ℤ, leb_ℤ}
use manager_key_pro.Store.Types.{Key, Package, Db}
use manager_key_pro.Store.Errors.{sql_failure, ok, err, Env, update_key, insert_history}
use manager_key_pro.Store.Users.{user_by_id}
use manager_key_pro.Store.Keys.{key_by_id, has_key_id, set_overflow, set_access, delete, renew_row}
use manager_key_pro.Store.Keys.Create.{kind_valid, is_cyclic, or_default}
use manager_key_pro.Store.Packages.{package_by_id}
use manager_key_pro.Crypto.{Cipher, decrypt_key}
use manager_key_pro.Scheduler.Bindings.{list_bindings}
use manager_key_pro.Issue.{
  Spec, issue_key, audit, renew_history, history_row, package_expiry, days_ms,
}
use manager_key_pro.Management.{
  Answer, refused, failed, done, shown_key, created_key, revealed_key, renewed_key, switched_key,
  lookup_error,
}

-- `mgmtGetKey`
unfoldable pub get_key : Env → Db → String → Answer
get_key env db kid = elim (key_by_id env db kid) [
  | err e ↦ lookup_error "key not found" e
  | ok k ↦ shown_key k (elim (list_bindings env db k.id) [ ok bs ↦ bs | err _ ↦ [] ])
]

-- `createKeyBody`
pub record CreateKeyBody : Type 0 where
  pub user_id : String
  pub package_id : String
  pub name : String
  pub quota_kind : String
  pub quota_scope : String
  pub quota_amount : ℤ
  pub plan_type : String
  pub window_hours : ℤ
  pub expires_at : ℤ
  pub rpm : ℤ
  pub models : List String
  pub providers : List String
  pub ip_allowlist : List String
  pub overflow : Bool

abbrev or_models : List String → List String → List String
or_models [] ms = ms
or_models (m ∷ ms) _ = m ∷ ms

-- The package's quota in place of the body's; a package without models leaves the body's.
unfoldable pub apply_package : Env → Package → CreateKeyBody → CreateKeyBody
apply_package env pkg body = record body {
  quota_kind = pkg.quota_kind;
  quota_scope = pkg.quota_scope;
  quota_amount = pkg.quota_amount;
  plan_type = pkg.plan_type;
  window_hours = pkg.window_hours;
  expires_at = package_expiry env pkg;
  rpm = pkg.rpm;
  models = or_models pkg.allowed_models body.models;
  name = or_default body.name pkg.name;
}

abbrev is_zero : ℤ → Bool
is_zero n = leb_ℤ n (pos 0) && leb_ℤ (pos 0) n

-- The defaults, and the cyclic scope of a custom window.
unfoldable pub key_spec : CreateKeyBody → Spec
key_spec body =
    let scope = or_default body.quota_scope "lifetime" in
    record {
      name = or_default body.name "API Key";
      quota_kind = or_default body.quota_kind "token";
      quota_scope =
          if str_eq body.plan_type "windowed"
            && ltb_ℤ (pos 0) body.window_hours
            && str_eq scope "lifetime"
          then "day"
          else scope;
      quota_amount = if leb_ℤ body.quota_amount (pos 0) then pos 1000 else body.quota_amount;
      plan_type = body.plan_type;
      window_hours = body.window_hours;
      expires_at = if is_zero body.expires_at then negsuc 0 else body.expires_at;
      rpm = if leb_ℤ body.rpm (pos 0) then pos 60 else body.rpm;
      models = body.models;
      package_id = body.package_id;
    }

abbrev has_entry : List String → Bool
has_entry [] = false
has_entry (x ∷ xs) = true

-- The overflow and the access lists of the new key; their errors are only printed.
unfoldable pub dress_key : Env → Db → String → CreateKeyBody → Db
dress_key env db kid body =
    let db1 = if body.overflow then (set_overflow env db kid true).0 else db in
    if has_entry body.providers || has_entry body.ip_allowlist
    then (set_access env db1 kid body.providers body.ip_allowlist).0
    else db1

-- The issue of the key.
unfoldable pub issue_for : Cipher → Env → Db → List ℕ → CreateKeyBody → Db × Answer
unfolding key_spec dress_key
issue_for cr env db secret body =
    let (db1, r) = issue_key cr env db secret body.user_id (key_spec body) "admin" in
    elim r [
      | err e ↦ (db1, failed 500 e)
      | ok (k, plain) ↦ (dress_key env db1 k.id body, created_key k plain)
    ]

-- `mgmtCreateKey`
unfoldable pub create_key_for : Cipher → Env → Db → List ℕ → Option CreateKeyBody → Db × Answer
unfolding issue_for apply_package
create_key_for cr env db secret none = (db, refused 400 "invalid body")
create_key_for cr env db secret (some body) =
    if is_empty body.user_id
    then (db, refused 400 "user_id required")
    else (elim (user_by_id env db body.user_id) [
      | err _ ↦ (db, refused 404 "user not found")
      | ok _ ↦
          if is_empty body.package_id
          then issue_for cr env db secret body
          else (elim (package_by_id env db body.package_id) [
            | err _ ↦ (db, refused 404 "package not found")
            | ok pkg ↦ issue_for cr env db secret (apply_package env pkg body)
          ])
    ])

-- `mgmtRevealKey`
unfoldable pub reveal_key : Cipher → Env → Db → List ℕ → String → Db × Answer
reveal_key cr env db secret kid = elim (key_by_id env db kid) [
  | err e ↦ (db, lookup_error "key not found" e)
  | ok k ↦ elim (decrypt_key cr k.key_cipher k.key_nonce secret) [
    | err _ ↦ (db, refused 500 "decrypt failed — encryption_key may have changed")
    | ok plain ↦ (audit env db "admin" "key.reveal" k.id k.user_id, revealed_key k plain)
  ]
]

-- `mgmtDeleteKey`
unfoldable pub delete_key_for : Env → Db → String → Db × Answer
delete_key_for env db kid =
    let (db', r) = delete env db kid in
    elim r [
      | err e ↦ (db', lookup_error "key not found" e)
      | ok _ ↦ (audit env db' "admin" "key.delete" kid "", done kid "deleted")
    ]

-- `renewBody`
pub record RenewBody : Type 0 where
  pub add_quota : ℤ
  pub extend_days : ℤ
  pub set_expires : ℤ

-- The expiry that the administration sets: an absolute one, or days from the expiry or from now.
unfoldable pub admin_expiry : Env → RenewBody → Key → ℤ
admin_expiry env body k =
    if not (is_zero body.set_expires)
    then body.set_expires
    else if ltb_ℤ (pos 0) body.extend_days
    then add64
        (if ltb_ℤ k.expires_at (pos 0) || ltb_ℤ k.expires_at env.now then env.now else k.expires_at)
        (days_ms body.extend_days)
    else k.expires_at

-- `mgmtRenewKey`
unfoldable pub renew_key_for : Env → Db → String → Option RenewBody → Db × Answer
unfolding admin_expiry
renew_key_for env db kid none = (db, refused 400 "invalid body")
renew_key_for env db kid (some body) = elim (key_by_id env db kid) [
  | err e ↦ (db, lookup_error "key not found" e)
  | ok k ↦
      let amount = add64 k.quota_amount body.add_quota in
      let expires = admin_expiry env body k in
      if env.fails (update_key kid) || (exists_row (has_key_id kid) db.keys && ltb_ℤ amount (pos 0))
      then (db, failed 500 sql_failure)
      else (let db1 = record db {
        keys = update_where (has_key_id kid) (renew_row amount expires env.now) db.keys;
      } in
          (renew_history env db1 kid k amount expires "admin", renewed_key kid amount expires))
]

-- The body of `mgmtSwitchQuota`.
pub record SwitchBody : Type 0 where
  pub quota_kind : String
  pub quota_scope : String
  pub quota_amount : ℤ
  pub expires_at : ℤ

-- The row after the switch: its own values where the body has none, and nothing used.
unfoldable pub switched : Env → SwitchBody → Key → Key
switched env body k = record k {
  quota_kind = or_default body.quota_kind k.quota_kind;
  quota_scope = or_default body.quota_scope k.quota_scope;
  quota_amount = if leb_ℤ body.quota_amount (pos 0) then k.quota_amount else body.quota_amount;
  quota_used = pos 0;
  expires_at = if is_zero body.expires_at then k.expires_at else body.expires_at;
  updated_at = env.now;
}

-- The CHECKs of keys on a switched row.
abbrev quota_valid : Key → Bool
quota_valid k =
    kind_valid k.quota_kind
    && (str_eq k.quota_scope "lifetime" || is_cyclic k.quota_scope)
    && leb_ℤ (pos 0) k.quota_amount

-- `quotaHistory` of a switch: best effort. The kinds and scopes are not kept.
unfoldable pub switch_history : Env → Db → String → Key → Key → Db
switch_history env db kid before after =
    if env.fails (insert_history kid) || not (exists_row (has_key_id kid) db.keys)
    then db
    else record db {
      quota_history =
          record (history_row env kid before after.quota_amount after.expires_at "admin") {
            action = "switch";
          }
          ∷ db.quota_history;
    }

-- `mgmtSwitchQuota`
unfoldable pub switch_quota : Env → Db → String → Option SwitchBody → Db × Answer
unfolding switched switch_history
switch_quota env db kid none = (db, refused 400 "invalid body")
switch_quota env db kid (some body) = elim (key_by_id env db kid) [
  | err e ↦ (db, lookup_error "key not found" e)
  | ok k ↦
      let after = switched env body k in
      if env.fails (update_key kid)
        || (exists_row (has_key_id kid) db.keys && not (quota_valid after))
      then (db, failed 500 sql_failure)
      else (let db1 = record db {
        keys = update_where (has_key_id kid) (switched env body) db.keys;
      } in
          let db2 = switch_history env db1 kid k after in
          (
            audit env db2 "admin" "quota.switch" kid k.user_id,
            switched_key kid after.quota_kind after.quota_scope after.quota_amount after.expires_at,
          ))
]
