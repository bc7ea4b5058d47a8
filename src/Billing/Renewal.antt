-- ===== src/Billing/Renewal.antt =====
-- A quota period is started once.
use manager_key_pro.Base.{◌≡◌, refl, false, not, ◌||◌, inl, inr, arith, Bool-cases}
use manager_key_pro.Base.Int.{pos, leb_ℤ}
use manager_key_pro.Store.Types.{Key, Db}
use manager_key_pro.Store.Errors.{Env, ok}
use manager_key_pro.Store.Steps.{Result-cases}
use manager_key_pro.Store.Keys.{reset}
use manager_key_pro.Billing.Period.{ensure_period, has_no_period, is_due, period_end_from}

-- The key as a successful renewal of its period returns it.
abbrev renewed_key : Env → Key → Key
renewed_key env k = record k {
  period_start = env.now;
  period_end = period_end_from env k;
  quota_used = pos 0;
}

fresh :
    (env : Env) (k : Key)
    → leb_ℤ env.now (pos 0) ≡ false
    → leb_ℤ (period_end_from env k) env.now ≡ false
    → is_due env (renewed_key env k) ≡ false
unfolding is_due
fresh env k clock fits = ground arith

-- A successful call leaves a key without a due period: a second call at the same time returns the same
-- key and changes nothing, so the quota is not reset twice. The clock must be positive and the end of
-- the new period must not wrap.
pub ensure_period-once :
    (env : Env) (db : Db) (k : Key)
    → leb_ℤ env.now (pos 0) ≡ false
    → leb_ℤ (period_end_from env k) env.now ≡ false
    → (ensure_period env db k).2 ≡ ok tt
    → let (db', k', _) = ensure_period env db k in ensure_period env db' k' ≡ (db', k', ok tt)
unfolding ensure_period
ensure_period-once env db k clock fits h =
    elim (Bool-cases (has_no_period k || not (is_due env k))) [
      | inl quiet ↦ rw (quiet, quiet) refl
      | inr due ↦ elim (Result-cases (reset env db k.id env.now (period_end_from env k)).1) [
        | inl (e, q) ↦ absurd (ground arith)
        | inr (a, q) ↦ let now_fresh = fresh env k clock fits in ground (arith, due, q, now_fresh)
      ]
    ]
