-- ===== src/Management/EditChanges.antt =====
-- What an edit of a key by the administration changes in the database.
use manager_key_pro.Base.{
  ℕ, Bool, none, some, inl, inr, Option, String, arith, Option-cases, if◌then◌else◌,
}
use manager_key_pro.Base.Int.{ℤ}
use manager_key_pro.Store.Types.{Key, Db}
use manager_key_pro.Store.Errors.{Env, Result, ok, err}
use manager_key_pro.Store.Users.{user_by_id}
use manager_key_pro.Store.Keys.{
  key_by_id, rename, set_access, set_models, set_rpm, set_log_mode, set_overflow, transfer,
}
use manager_key_pro.Store.Steps.{Steps, Steps-trans, here, here_at, Result-cases}
use manager_key_pro.Store.Edits.{
  rename-Steps, set_overflow-Steps, set_log_mode-Steps, set_access-Steps, set_models-Steps,
  set_rpm-Steps, transfer-Steps,
}
use manager_key_pro.Issue.Steps.{audit-Steps}
use manager_key_pro.Management.{Answer, and_then, attempt}
use manager_key_pro.Management.Edits.{
  UpdateKeyBody, given, transfer_key, rename_step, owner_step, models_step, access_step, edit_key,
  update_key_for,
}

attempt-Steps :
    (status : ℕ) (db : Db) (r : Db × Result (Unit {0}))
    → Steps db r.0
    → Steps db (attempt status r).0
unfolding attempt
attempt-Steps status db (db', ok _) h = h
attempt-Steps status db (db', err e) h = h

and_then-Steps :
    (db : Db) (s : Db × Option Answer) (f : Db → Db × Option Answer)
    → Steps db s.0
    → ((d : Db) → Steps d (f d).0)
    → Steps db (and_then s f).0
unfolding and_then
and_then-Steps db (d, none) f h k = Steps-trans h (k d)
and_then-Steps db (d, some a) f h k = h

given-Steps {ℓ} :
    {A : Type ℓ} (o : Option A) (f : A → Db → Db × Option Answer) (db : Db)
    → ((a : A) → Steps db (f a db).0)
    → Steps db (given o f db).0
unfolding given
given-Steps none f db k = here
given-Steps (some a) f db k = k a

rename_step-Steps :
    (env : Env) (kid name : String) (db : Db) → Steps db (rename_step env kid name db).0
unfolding rename_step
rename_step-Steps env kid name db = ground (
  arith,
  here_at db,
  attempt-Steps 500 db (rename env db kid name) (rename-Steps env db kid name),
)

owner_step-Steps :
    (env : Env) (k : Key) (kid uid : String) (db : Db) → Steps db (owner_step env k kid uid db).0
unfolding owner_step transfer_key
owner_step-Steps env k kid uid db =
    let moved = transfer-Steps env db kid uid in
    let db' = (transfer env db kid uid).0 in
    let noted = Steps-trans moved (audit-Steps env db' "admin" "key.transfer" kid uid) in
    elim (Result-cases (user_by_id env db uid)) [
      | inl (e, q) ↦ ground (arith, q, here_at db)
      | inr (u, q) ↦ ground (arith, q, here_at db, moved, noted)
    ]

models_step-Steps :
    (env : Env) (body : UpdateKeyBody) (db : Db) → Steps db (models_step env body db).0
unfolding models_step
models_step-Steps env body db = ground (
  arith,
  here_at db,
  attempt-Steps 500 db (set_models env db body.id body.allowed_models)
      (set_models-Steps env db body.id body.allowed_models),
)

access_step-Steps :
    (env : Env) (body : UpdateKeyBody) (k : Key) (db : Db) → Steps db (access_step env body k db).0
unfolding access_step
access_step-Steps env body k db =
    let ps = if body.set_providers_flag then body.allowed_providers else k.allowed_providers in
    let ips = if body.set_ip_flag then body.ip_allowlist else k.ip_allowlist in
    ground (
      arith,
      here_at db,
      attempt-Steps 500 db (set_access env db body.id ps ips)
          (set_access-Steps env db body.id ps ips),
    )

edit_key-Steps :
    (env : Env) (body : UpdateKeyBody) (k : Key) (db : Db) → Steps db (edit_key env body k db).0
unfolding edit_key
edit_key-Steps env body k db =
    let kid = body.id in
    let name_step = rename_step env kid in
    let user_step = owner_step env k kid in
    let rpm_step : ℤ → Db → Db × Option Answer = λ n d. attempt 500 (set_rpm env d kid n) in
    let mode_step : String → Db → Db × Option Answer =
      λ m d. attempt 400 (set_log_mode env d kid m) in
    let flag_step : Bool → Db → Db × Option Answer =
      λ b d. attempt 500 (set_overflow env d kid b) in
    let s1 = given body.name name_step db in
    let s2 = and_then s1 (given body.user_id user_step) in
    let s3 = and_then s2 (models_step env body) in
    let s4 = and_then s3 (access_step env body k) in
    let s5 = and_then s4 (given body.rpm rpm_step) in
    let s6 = and_then s5 (given body.log_mode mode_step) in
    let o1 = given-Steps body.name name_step db (λ n. rename_step-Steps env kid n db) in
    let o2 =
      and_then-Steps db s1 (given body.user_id user_step) o1
        (λ d. given-Steps body.user_id user_step d (λ u. owner_step-Steps env k kid u d)) in
    let o3 = and_then-Steps db s2 (models_step env body) o2 (models_step-Steps env body) in
    let o4 = and_then-Steps db s3 (access_step env body k) o3 (access_step-Steps env body k) in
    let o5 = and_then-Steps db s4 (given body.rpm rpm_step) o4 (λ d.
      given-Steps body.rpm rpm_step d
        (λ n. attempt-Steps 500 d (set_rpm env d kid n) (set_rpm-Steps env d kid n))) in
    let o6 = and_then-Steps db s5 (given body.log_mode mode_step) o5 (λ d.
      given-Steps body.log_mode mode_step d
        (λ m. attempt-Steps 400 d (set_log_mode env d kid m) (set_log_mode-Steps env d kid m))) in
    and_then-Steps db s6 (given body.overflow flag_step) o6 (λ d.
      given-Steps body.overflow flag_step d
        (λ b. attempt-Steps 500 d (set_overflow env d kid b) (set_overflow-Steps env d kid b)))

pub update_key_for-Steps :
    (env : Env) (db : Db) (body : Option UpdateKeyBody) → Steps db (update_key_for env db body).0
unfolding update_key_for
update_key_for-Steps env db none = here
update_key_for-Steps env db (some body) = elim (Result-cases (key_by_id env db body.id)) [
  | inl (e, q) ↦ ground (arith, q, here_at db)
  | inr (k, q) ↦
      let edited = edit_key-Steps env body k db in
      let db' = (edit_key env body k db).0 in
      let noted = Steps-trans edited (audit-Steps env db' "admin" "key.update" body.id k.user_id) in
      elim (Option-cases (edit_key env body k db).1) [
        | inl r ↦ ground (arith, q, r, here_at db, noted)
        | inr (a, r) ↦ ground (arith, q, r, here_at db, edited)
      ]
]
