-- ===== src/Store/Keys.antt =====
-- internal/store/keys_repo.go: the API keys and their quotas.
pub mod Create
use manager_key_pro.Base.{
  ℕ, Bool, true, false, not, ◌&&◌, ◌||◌, none, some, List, ◌∷◌, String, is_empty, trim_space,
  str_eq, if◌then◌else◌, select_first, exists_row, update_where, delete_where,
}
use manager_key_pro.Base.Int.{ℤ, pos, ◌+ℤ◌, sub64, ltb_ℤ, leb_ℤ}
use manager_key_pro.Store.Types.{Key, Order, Db}
use manager_key_pro.Store.Errors.{
  not_found, duplicate, sql_failure, message, wrap, Result, ok, err, null_if_empty, coalesce, Stmt,
  Env, select_key, consume_quota, reset_period, update_key, insert_key, delete_key, require_one_row,
}

-- `Key.IsActive`
unfoldable pub is_active : Key → Bool
is_active k = str_eq k.status "active"

-- `Key.HasQuota`
unfoldable pub has_quota : Key → Bool
has_quota k = if str_eq k.quota_kind "unlimited" then true else ltb_ℤ k.quota_used k.quota_amount

-- `Key.QuotaRemaining`
unfoldable pub quota_remaining : Key → ℤ
quota_remaining k =
    if str_eq k.quota_kind "unlimited"
    then pos 4611686018427387903
    else sub64 k.quota_amount k.quota_used

abbrev pub has_key_id : String → Key → Bool
has_key_id kid k = str_eq k.id kid

-- `KeysRepo.ByID`
unfoldable pub key_by_id : Env → Db → String → Result Key
key_by_id env db kid =
    if env.fails (select_key kid)
    then err (wrap sql_failure)
    else (elim (select_first (has_key_id kid) db.keys) [ none ↦ err not_found | some k ↦ ok k ])

-- `KeysRepo.ByHash`
unfoldable pub key_by_hash : Env → Db → String → Result Key
key_by_hash env db h =
    if env.fails (select_key h)
    then err (wrap sql_failure)
    else (elim (select_first (λ k. str_eq k.key_hash h) db.keys) [
      | none ↦ err not_found
      | some k ↦ ok k
    ])

-- `UPDATE keys SET … WHERE id = ?` with `requireOneRow`; `valid` is the table's CHECK on the row.
unfoldable pub update_key_row :
    Env → Db → Stmt → String → (Key → Key) → (Key → Bool) → Db × Result (Unit {0})
update_key_row env db stmt kid f valid =
    if env.fails stmt || exists_row (λ k. has_key_id kid k && not (valid (f k))) db.keys
    then (db, err (wrap sql_failure))
    else (
      record db { keys = update_where (has_key_id kid) f db.keys },
      require_one_row (exists_row (has_key_id kid) db.keys),
    )

-- `CHECK (quota_used >= 0)`
abbrev pub used_valid : Key → Bool
used_valid k = leb_ℤ (pos 0) k.quota_used

abbrev pub add_used : Env → ℤ → Key → Key
add_used env delta k = record k {
  quota_used = k.quota_used +ℤ delta;
  updated_at = env.now;
  last_used_at = env.now;
}

-- `KeysRepo.ConsumeQuota`; the sum is SQLite's.
unfoldable pub consume : Env → Db → String → ℤ → Db × Result (Unit {0})
unfolding update_key_row
consume env db kid delta =
    update_key_row env db (consume_quota kid) kid (add_used env delta) used_valid

abbrev pub start_period : Env → ℤ → ℤ → Key → Key
start_period env start end k = record k {
  quota_used = pos 0;
  period_start = start;
  period_end = end;
  updated_at = env.now;
}

-- `KeysRepo.ResetPeriod`
unfoldable pub reset : Env → Db → String → ℤ → ℤ → Db × Result (Unit {0})
unfolding update_key_row
reset env db kid start end =
    update_key_row env db (reset_period kid) kid (start_period env start end) used_valid

abbrev pub key_status_valid : String → Bool
key_status_valid s =
    str_eq s "active"
    || str_eq s "disabled"
    || str_eq s "banned"
    || str_eq s "expired"
    || str_eq s "exhausted"

-- `KeysRepo.SetStatus`
unfoldable pub set_key_status : Env → Db → String → String → Db × Result (Unit {0})
unfolding update_key_row
set_key_status env db kid status =
    update_key_row env db (update_key kid) kid
      (λ k. record k { status = status; updated_at = env.now }) (λ k. key_status_valid k.status)

-- `KeysRepo.SetOverflow`
unfoldable pub set_overflow : Env → Db → String → Bool → Db × Result (Unit {0})
unfolding update_key_row
set_overflow env db kid enabled =
    update_key_row env db (update_key kid) kid
      (λ k. record k { overflow_to_wallet = enabled; updated_at = env.now }) (λ k. true)

abbrev pub log_mode_valid : String → Bool
log_mode_valid m = is_empty m || str_eq m "full" || str_eq m "standard" || str_eq m "error_only"

-- `KeysRepo.SetLogMode`
unfoldable pub set_log_mode : Env → Db → String → String → Db × Result (Unit {0})
unfolding update_key_row
set_log_mode env db kid raw =
    let mode = trim_space raw in
    if not (log_mode_valid mode)
    then (db, err (message "invalid log mode"))
    else update_key_row env db (update_key kid) kid
        (λ k. record k { log_mode = coalesce (null_if_empty mode); updated_at = env.now })
        (λ k. true)

-- `KeysRepo.Rename`
unfoldable pub rename : Env → Db → String → String → Db × Result (Unit {0})
unfolding update_key_row
rename env db kid raw =
    let trimmed = trim_space raw in
    let name = if is_empty trimmed then "Unnamed key" else trimmed in
    update_key_row env db (update_key kid) kid (λ k. record k { name = name; updated_at = env.now })
      (λ k. true)

-- `KeysRepo.SetAccess`
unfoldable pub set_access : Env → Db → String → List String → List String → Db × Result (Unit {0})
unfolding update_key_row
set_access env db kid providers ips =
    update_key_row env db (update_key kid) kid
      (λ k. record k { allowed_providers = providers; ip_allowlist = ips; updated_at = env.now })
      (λ k. true)

-- `KeysRepo.SetModels`
unfoldable pub set_models : Env → Db → String → List String → Db × Result (Unit {0})
unfolding update_key_row
set_models env db kid models =
    update_key_row env db (update_key kid) kid
      (λ k. record k { allowed_models = models; updated_at = env.now }) (λ k. true)

-- `KeysRepo.SetRPM`
unfoldable pub set_rpm : Env → Db → String → ℤ → Db × Result (Unit {0})
unfolding update_key_row
set_rpm env db kid rpm =
    update_key_row env db (update_key kid) kid (λ k. record k { rpm = rpm; updated_at = env.now })
      (λ k. true)

-- `KeysRepo.Transfer`; the new owner must exist (foreign key).
unfoldable pub transfer : Env → Db → String → String → Db × Result (Unit {0})
unfolding update_key_row
transfer env db kid uid =
    update_key_row env db (update_key kid) kid
      (λ k. record k { user_id = uid; updated_at = env.now })
      (λ k. exists_row (λ u. str_eq u.id uid) db.users)

abbrev pub ordered : String → Order → Bool
ordered kid o = elim o.key_id [ none ↦ false | some i ↦ str_eq i kid ]

-- `KeysRepo.Delete`. Reservations, bindings and the quota history of the key go with it (ON DELETE
-- CASCADE); an order that names the key stops the deletion (foreign key without an action).
unfoldable pub delete : Env → Db → String → Db × Result (Unit {0})
delete env db kid =
    if env.fails (delete_key kid)
      || (exists_row (has_key_id kid) db.keys && exists_row (ordered kid) db.orders)
    then (db, err (wrap sql_failure))
    else if not (exists_row (has_key_id kid) db.keys)
    then (db, require_one_row false)
    else (
      record db {
        keys = delete_where (has_key_id kid) db.keys;
        reservations = delete_where (λ r. str_eq r.key_id kid) db.reservations;
        bindings = delete_where (λ b. str_eq b.key_id kid) db.bindings;
        quota_history = delete_where (λ h. str_eq h.key_id kid) db.quota_history;
      },
      require_one_row true,
    )

-- `UPDATE keys SET quota_amount, expires_at, status = 'active', updated_at`, the renewal of issue.go.
abbrev pub renew_row : ℤ → ℤ → ℤ → Key → Key
renew_row amount expires now k = record k {
  quota_amount = amount;
  expires_at = expires;
  status = "active";
  updated_at = now;
}
