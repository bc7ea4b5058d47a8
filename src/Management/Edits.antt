-- ===== src/Management/Edits.antt =====
-- internal/plugin/mgmt_extra.go: editing a key, and its bindings.
use manager_key_pro.Base.{
  Bool, not, ◌&&◌, ◌||◌, Option, none, some, List, String, is_empty, trim_space, str_eq,
  if◌then◌else◌, exists_row,
}
use manager_key_pro.Base.Int.{ℤ}
use manager_key_pro.Store.Types.{Key, Binding, Reservation, Db}
use manager_key_pro.Store.Errors.{ok, err, Env, select_rows}
use manager_key_pro.Store.Users.{user_by_id}
use manager_key_pro.Store.Keys.{
  key_by_id, rename, transfer, set_models, set_access, set_rpm, set_log_mode, set_overflow,
}
use manager_key_pro.Scheduler.Bindings.{list_bindings, set_bindings}
use manager_key_pro.Issue.{audit}
use manager_key_pro.Management.{
  Answer, refused, failed, done, binding_list, lookup_error, and_then, attempt,
}

-- `updateKeyBody`
pub record UpdateKeyBody : Type 0 where
  pub id : String
  pub name : Option String
  pub user_id : Option String
  pub allowed_models : List String
  pub allowed_providers : List String
  pub ip_allowlist : List String
  pub rpm : Option ℤ
  pub log_mode : Option String
  pub overflow : Option Bool
  pub set_providers_flag : Bool
  pub set_models_flag : Bool
  pub set_ip_flag : Bool

abbrev pub is_open_for : String → Reservation → Bool
is_open_for kid r = str_eq r.key_id kid && str_eq r.status "open"

-- The key has an open reservation; a failed count reads as none.
unfoldable pub has_open_hold : Env → Db → String → Bool
has_open_hold env db kid =
    not (env.fails (select_rows "reservations" kid)) && exists_row (is_open_for kid) db.reservations

-- The transfer to another user.
unfoldable pub transfer_key : Env → String → String → Db → Db × Option Answer
unfolding has_open_hold
transfer_key env kid uid db =
    if has_open_hold env db kid
    then (db, some (refused 409 "key has an open reservation; retry later"))
    else (elim (user_by_id env db uid) [
      | err _ ↦ (db, some (refused 404 "target user not found"))
      | ok _ ↦
          let (db', r) = transfer env db kid uid in
          elim r [
            | err e ↦ (db', some (failed 500 e))
            | ok _ ↦ (audit env db' "admin" "key.transfer" kid uid, none)
          ]
    ])

-- A step for a value that the body has.
unfoldable pub given {ℓ} :
    {A : Type ℓ} → Option A → (A → Db → Db × Option Answer) → Db → Db × Option Answer
given none f db = (db, none)
given (some a) f db = f a db

unfoldable pub rename_step : Env → String → String → Db → Db × Option Answer
rename_step env kid name db =
    if is_empty (trim_space name) then (db, none) else attempt 500 (rename env db kid name)

unfoldable pub owner_step : Env → Key → String → String → Db → Db × Option Answer
unfolding transfer_key
owner_step env k kid uid db =
    if str_eq uid k.user_id then (db, none) else transfer_key env kid uid db

unfoldable pub models_step : Env → UpdateKeyBody → Db → Db × Option Answer
models_step env body db =
    if body.set_models_flag
    then attempt 500 (set_models env db body.id body.allowed_models)
    else (db, none)

unfoldable pub access_step : Env → UpdateKeyBody → Key → Db → Db × Option Answer
access_step env body k db =
    if body.set_providers_flag || body.set_ip_flag
    then attempt 500 (
        set_access env db body.id
          (if body.set_providers_flag then body.allowed_providers else k.allowed_providers)
          (if body.set_ip_flag then body.ip_allowlist else k.ip_allowlist))
    else (db, none)

-- The edits in their order, each after the ones before it have succeeded.
unfoldable pub edit_key : Env → UpdateKeyBody → Key → Db → Db × Option Answer
unfolding given and_then rename_step owner_step models_step access_step
edit_key env body k db =
    let kid = body.id in
    let s1 = given body.name (rename_step env kid) db in
    let s2 = and_then s1 (given body.user_id (owner_step env k kid)) in
    let s3 = and_then s2 (models_step env body) in
    let s4 = and_then s3 (access_step env body k) in
    let s5 = and_then s4 (given body.rpm (λ n d. attempt 500 (set_rpm env d kid n))) in
    let s6 = and_then s5 (given body.log_mode (λ m d. attempt 400 (set_log_mode env d kid m))) in
    and_then s6 (given body.overflow (λ b d. attempt 500 (set_overflow env d kid b)))

-- `mgmtUpdateKey`
unfoldable pub update_key_for : Env → Db → Option UpdateKeyBody → Db × Answer
unfolding edit_key
update_key_for env db none = (db, refused 400 "invalid body")
update_key_for env db (some body) =
    if is_empty body.id then (db, refused 400 "id required") else (elim (key_by_id env db body.id) [
      | err e ↦ (db, lookup_error "key not found" e)
      | ok k ↦
          let (db', answer) = edit_key env body k db in
          elim answer [
            | some a ↦ (db', a)
            | none ↦ (audit env db' "admin" "key.update" body.id k.user_id, done body.id "updated")
          ]
    ])

-- `mgmtListBindings`
unfoldable pub show_bindings : Env → Db → String → Answer
show_bindings env db kid =
    if is_empty kid
    then refused 400 "key_id required"
    else (elim (list_bindings env db kid) [ err e ↦ failed 500 e | ok bs ↦ binding_list bs ])

-- `mgmtSetBindings`; `id` is the first identifier of the new rows.
unfoldable pub put_bindings : Env → Db → ℤ → Option (String × List Binding) → Db × Answer
put_bindings env db id none = (db, refused 400 "invalid body")
put_bindings env db id (some (kid, bs)) =
    if is_empty kid
    then (db, refused 400 "key_id required")
    else (let (db', r) = set_bindings env db id kid bs in
        elim r [
          | err e ↦ (db', failed 400 e)
          | ok _ ↦ (audit env db' "admin" "key.bindings" kid "", done kid "saved")
        ])
