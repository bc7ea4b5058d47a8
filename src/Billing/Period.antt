-- ===== src/Billing/Period.antt =====
-- internal/billing/period.go: the quota periods.
use manager_key_pro.Base.{Bool, not, ◌||◌, String, str_eq, is_empty, if◌then◌else◌}
use manager_key_pro.Base.Int.{ℤ, pos, add64, mul64, ltb_ℤ, leb_ℤ}
use manager_key_pro.Store.Types.{Key, Db}
use manager_key_pro.Store.Errors.{Result, ok, err, Env}
use manager_key_pro.Store.Keys.{reset}

-- `WindowHours`
unfoldable pub window_length : String → ℤ → ℤ
window_length scope hours =
    if ltb_ℤ (pos 0) hours
    then hours
    else if str_eq scope "hour"
    then pos 1
    else if str_eq scope "day"
    then pos 24
    else if str_eq scope "week"
    then pos 168
    else if str_eq scope "month"
    then pos 720
    else pos 0

-- The key has no quota period.
unfoldable pub has_no_period : Key → Bool
has_no_period k =
    str_eq k.quota_scope "lifetime"
    || is_empty k.quota_kind
    || leb_ℤ (window_length k.quota_scope k.window_hours) (pos 0)

-- The period is not set, or it is over.
unfoldable pub is_due : Env → Key → Bool
is_due env k =
    leb_ℤ k.period_start (pos 0) || leb_ℤ k.period_end (pos 0) || leb_ℤ k.period_end env.now

-- The end of a period that starts now.
unfoldable pub period_end_from : Env → Key → ℤ
period_end_from env k =
    add64 env.now (mul64 (mul64 (window_length k.quota_scope k.window_hours) (pos 3600)) (pos 1000))

-- `EnsurePeriod`: the database, the refreshed key, and the error.
unfoldable pub ensure_period : Env → Db → Key → Db × Key × Result (Unit {0})
ensure_period env db k =
    if has_no_period k || not (is_due env k)
    then (db, k, ok tt)
    else (let end = period_end_from env k in
        let (db', r) = reset env db k.id env.now end in
        elim r [
          | err e ↦ (db', k, err e)
          | ok _ ↦ (
            db',
            record k { period_start = env.now; period_end = end; quota_used = pos 0 },
            ok tt,
          )
        ])
