-- ===== src/Management/Users.antt =====
-- internal/plugin/management.go and mgmt_extra.go: creating, editing and barring accounts, and their
-- passwords.
use manager_key_pro.Base.{
  Bool, true, false, not, ◌&&◌, ◌||◌, Option, none, some, List, [], ◌∷◌, ◌++◌, String, is_empty,
  trim_space, str_eq, if◌then◌else◌, exists_row, update_where, ℕ, ◌⊎◌, inl, inr,
}
use manager_key_pro.Base.Int.{ℤ, pos, leb_ℤ}
use manager_key_pro.Store.Types.{User, Db}
use manager_key_pro.Store.Errors.{
  Error, message, wrap, not_found, duplicate, insufficient_balance, sql_failure, sql_unique, ok,
  err, Env, update_row,
}
use manager_key_pro.Store.Users.{user_by_id, has_id, adjust_balance}
use manager_key_pro.Store.Users.Accounts.{
  create_user, set_user_status, set_password, user_status_valid, role_valid,
}
use manager_key_pro.Crypto.{Cipher, hash_key}
use manager_key_pro.Issue.{audit}
use manager_key_pro.Plugin.Hooks.{after_recharge, default_text}
use manager_key_pro.Portal.Auth.{is_exactly_duplicate}
use manager_key_pro.Portal.Password.{Argon, hash_password}
use manager_key_pro.Management.{
  Answer, refused, failed, done, created_user, recharged, lookup_error,
}

-- `createUserBody`
pub record CreateUserBody : Type 0 where
  pub username : String
  pub password : String
  pub role : String

-- What is stored for the password of a new account: the SHA-256 of the text.
unfoldable pub admin_hash : Cipher → String → String
admin_hash cr password = if is_empty password then "" else hash_key cr password

-- `mgmtCreateUser`; `code` is what `newReferralCode` draws.
unfoldable pub create_user_for : Cipher → Env → Db → String → Option CreateUserBody → Db × Answer
unfolding admin_hash
create_user_for cr env db code none = (db, refused 400 "invalid body")
create_user_for cr env db code (some body) =
    if is_empty body.username
    then (db, refused 400 "username required")
    else (let role = if is_empty body.role then "user" else body.role in
        let (db', r) =
          create_user env db body.username (admin_hash cr body.password) "" role code in
        elim r [
          | err e ↦
              if is_exactly_duplicate e
              then (db', refused 409 "username taken")
              else (db', failed 500 e)
          | ok u ↦ (audit env db' "admin" "user.create" "" u.id, created_user u)
        ])

-- The answer for an error of AdjustBalance, which compares without looking through wrapping.
unfoldable pub recharge_error : Error → Answer
recharge_error not_found = refused 404 "user not found"
recharge_error insufficient_balance = refused 402 "insufficient balance"
recharge_error duplicate = refused 409 "duplicate ref_id"
recharge_error sql_unique = failed 500 sql_unique
recharge_error sql_failure = failed 500 sql_failure
recharge_error (message s) = failed 500 (message s)
recharge_error (wrap e) = failed 500 (wrap e)

-- `rechargeBody`
pub record RechargeBody : Type 0 where
  pub amount : ℤ
  pub reason : String
  pub channel : String
  pub ref_id : String

-- `mgmtRecharge`
unfoldable pub recharge_for :
    (String → Option (List ℤ)) → Env → Db → String → Option RechargeBody → Db × Answer
unfolding recharge_error
recharge_for tiers_of env db uid none = (db, refused 400 "invalid body")
recharge_for tiers_of env db uid (some body) =
    if leb_ℤ body.amount (pos 0) && leb_ℤ (pos 0) body.amount
    then (db, refused 400 "amount required")
    else (let why = default_text body.reason "recharge" in
        let (db', r) =
          adjust_balance env db uid body.amount why body.ref_id
            (default_text body.channel "dashboard") "" in
        elim r [
          | err e ↦ (db', recharge_error e)
          | ok after ↦ (
            after_recharge tiers_of env db' uid body.amount why body.ref_id,
            recharged uid body.amount after,
          )
        ])

-- `mgmtSetUserStatus`
unfoldable pub set_status_for : Env → Db → String → String → Db × Answer
set_status_for env db uid status =
    if not (user_status_valid status)
    then (db, refused 400 "invalid status")
    else (let (db', r) = set_user_status env db uid status in
        elim r [
          | err e ↦ (db', lookup_error "user not found" e)
          | ok _ ↦ (audit env db' "admin" "user.status" "" uid, done uid status)
        ])

-- `updateUserBody`
pub record UpdateUserBody : Type 0 where
  pub id : String
  pub role : Option String
  pub wallet_mode : Option String
  pub credit_limit : Option ℤ
  pub username : Option String

-- One column of the `updates` map, with its value.
pub data Column : Type 0 where
  role_column mode_column name_column : String → Column
  limit_column : ℤ → Column

abbrev pub set_column : Column → User → User
set_column (role_column r) u = record u { role = r }
set_column (mode_column m) u = record u { wallet_mode = m }
set_column (name_column n) u = record u { username = n }
set_column (limit_column l) u = record u { credit_limit = l }

abbrev mode_known : String → Bool
mode_known m = str_eq m "prepaid" || str_eq m "postpaid"

abbrev column_of {ℓ} : {A : Type ℓ} → Option A → (A → Column) → List Column
column_of none f = []
column_of (some a) f = f a ∷ []

-- A blank name is no update.
abbrev name_of : Option String → List Column
name_of none = []
name_of (some n) = if is_empty (trim_space n) then [] else name_column (trim_space n) ∷ []

-- The updates that the body asks for, or the refusal of a value.
unfoldable pub user_updates : UpdateUserBody → Answer ⊎ List Column
user_updates body =
    if elim body.role [ none ↦ false | some r ↦ not (role_valid r) ]
    then inl (refused 400 "role must be user or admin")
    else if elim body.wallet_mode [ none ↦ false | some m ↦ not (mode_known m) ]
    then inl (refused 400 "wallet_mode must be prepaid or postpaid")
    else inr (
        column_of body.role role_column
        ++ column_of body.wallet_mode mode_column
        ++ column_of body.credit_limit limit_column
        ++ name_of body.username)

-- Another account has the name (UNIQUE).
abbrev pub name_taken : String → Column → User → Bool
name_taken uid (name_column n) u = str_eq u.username n && not (has_id uid u)
name_taken uid (role_column r) u = false
name_taken uid (mode_column m) u = false
name_taken uid (limit_column l) u = false

-- The updates in the order of the range over the map, up to the first error. Earlier ones stay.
unfoldable pub update_columns : Env → String → List Column → Db → Db × Option Error
update_columns env uid [] db = (db, none)
update_columns env uid (c ∷ cs) db = elim (env.fails (update_row "users" uid)) [
  | true ↦ (db, some sql_failure)
  | false ↦ elim (exists_row (has_id uid) db.users && exists_row (name_taken uid c) db.users) [
    | true ↦ (db, some sql_unique)
    | false ↦
        update_columns env uid cs
          (record db { users = update_where (has_id uid) (set_column c) db.users })
  ]
]

-- `mgmtUpdateUser`; `range` is the order of the range over the map.
unfoldable pub update_user_for :
    (List Column → List Column) → Env → Db → Option UpdateUserBody → Db × Answer
unfolding user_updates update_columns
update_user_for range env db none = (db, refused 400 "invalid body")
update_user_for range env db (some body) =
    if is_empty body.id
    then (db, refused 400 "id required")
    else (elim (user_by_id env db body.id) [
      | err e ↦ (db, lookup_error "user not found" e)
      | ok _ ↦ elim (user_updates body) [
        | inl a ↦ (db, a)
        | inr columns ↦
            let (db', e) = update_columns env body.id (range columns) db in
            elim e [
              | some e' ↦ (db', failed 500 e')
              | none ↦ (audit env db' "admin" "user.update" "" body.id, done body.id "updated")
            ]
      ]
    ])

-- `mgmtResetPassword`, whose `argon2Hash` is the portal's `hashPassword`. The rows that it deletes from
-- the table sessions are not there: the portal keeps its sessions in memory.
unfoldable pub reset_password : Argon → List ℕ → Env → Db → Option (String × String) → Db × Answer
reset_password argon salt env db none = (db, refused 400 "invalid body")
reset_password argon salt env db (some (uid, password)) =
    if is_empty uid || is_empty password
    then (db, refused 400 "user_id and password required")
    else (let (db', r) = set_password env db uid (hash_password argon salt password) in
        elim r [
          | err e ↦ (db', failed 500 e)
          | ok _ ↦ (audit env db' "admin" "user.reset_password" "" uid, done uid "updated")
        ])
