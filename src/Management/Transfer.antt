-- ===== src/Management/Transfer.antt =====
-- An edit does not move a key with an open reservation to another owner.
use manager_key_pro.Base.{
  ◌≡◌, ◌∙◌, ap, Bool, true, not, ◌&&◌, Option, some, inl, inr, String, is_empty, Bool-cases,
  Option-cases, exists_row,
}
use manager_key_pro.Base.Int.{ℤ}
use manager_key_pro.Store.Types.{Key, Db}
use manager_key_pro.Store.Errors.{Env, select_rows}
use manager_key_pro.Store.Steps.{Result-cases}
use manager_key_pro.Store.Keys.{key_by_id, set_rpm, set_log_mode, set_overflow}
use manager_key_pro.Management.{Answer, and_then, attempt}
use manager_key_pro.Management.Edits.{
  UpdateKeyBody, has_open_hold, is_open_for, given, rename_step, owner_step, models_step,
  access_step, edit_key, update_key_for,
}
use manager_key_pro.Management.Owners.{
  SameOwners, same_owners, SameOwners-trans, attempt-owners, and_then-owners, given-owners,
  audit-owners, owner_step-owners, rename_step-owners, models_step-owners, access_step-owners,
  set_log_mode-owners, set_rpm-owners, set_overflow-owners,
}

-- The chain of the edits of a key with an open reservation.
edit_key-owners :
    (env : Env) (body : UpdateKeyBody) (k : Key) (db : Db)
    → has_open_hold env db body.id ≡ true
    → SameOwners db (edit_key env body k db).0
unfolding edit_key has_open_hold
edit_key-owners env body k db h =
    let kid = body.id in
    let still : (d : Db) → SameOwners db d → has_open_hold env d kid ≡ true = λ d s.
      ap (λ rs. not (env.fails (select_rows "reservations" kid)) && exists_row (is_open_for kid) rs)
        s.held
      ∙ h in
    let name_step = rename_step env kid in
    let user_step = owner_step env k kid in
    let rpm_step : ℤ → Db → Db × Option Answer = λ n d. attempt 500 (set_rpm env d kid n) in
    let mode_step : String → Db → Db × Option Answer =
      λ m d. attempt 400 (set_log_mode env d kid m) in
    let flag_step : Bool → Db → Db × Option Answer =
      λ b d. attempt 500 (set_overflow env d kid b) in
    let s1 = given body.name name_step db in
    let s2 = and_then s1 (given body.user_id user_step) in
    let s3 = and_then s2 (models_step env body) in
    let s4 = and_then s3 (access_step env body k) in
    let s5 = and_then s4 (given body.rpm rpm_step) in
    let s6 = and_then s5 (given body.log_mode mode_step) in
    let o1 = given-owners body.name name_step db (λ n. rename_step-owners env kid n db) in
    let o2 = and_then-owners db s1 (given body.user_id user_step) o1 (λ d s.
      given-owners body.user_id user_step d (λ u. owner_step-owners env k kid u d (still d s))) in
    let o3 =
      and_then-owners db s2 (models_step env body) o2 (λ d s. models_step-owners env body d) in
    let o4 =
      and_then-owners db s3 (access_step env body k) o3 (λ d s. access_step-owners env body k d) in
    let o5 = and_then-owners db s4 (given body.rpm rpm_step) o4 (λ d s.
      given-owners body.rpm rpm_step d
        (λ n. attempt-owners 500 d (set_rpm env d kid n) (set_rpm-owners env d kid n))) in
    let o6 = and_then-owners db s5 (given body.log_mode mode_step) o5 (λ d s.
      given-owners body.log_mode mode_step d
        (λ m. attempt-owners 400 d (set_log_mode env d kid m) (set_log_mode-owners env d kid m))) in
    and_then-owners db s6 (given body.overflow flag_step) o6 (λ d s.
      given-owners body.overflow flag_step d
        (λ b. attempt-owners 500 d (set_overflow env d kid b) (set_overflow-owners env d kid b)))

-- While a key has an open reservation, and the count of them succeeds, no edit of it changes the
-- owner of any key or any reservation, whatever the body asks for and whichever other statements
-- fail.
pub update_key_for-owners :
    (env : Env) (db : Db) (body : UpdateKeyBody)
    → has_open_hold env db body.id ≡ true
    → SameOwners db (update_key_for env db (some body)).0
unfolding update_key_for
update_key_for-owners env db body h = elim (Bool-cases (is_empty body.id)) [
  | inl e ↦ rw (update_key_for, e) (same_owners db)
  | inr e ↦ elim (Result-cases (key_by_id env db body.id)) [
    | inl (x, q) ↦ rw (update_key_for, e, q) (same_owners db)
    | inr (k, q) ↦
        let edited = edit_key-owners env body k db h in
        let left = (edit_key env body k db).0 in
        elim (Option-cases (edit_key env body k db).1) [
          | inr (a, r) ↦ rw (update_key_for, e, q, r) edited
          | inl r ↦
              rw (update_key_for, e, q, r)
                (SameOwners-trans edited
                  (audit-owners env left "admin" "key.update" body.id k.user_id))
        ]
  ]
]
