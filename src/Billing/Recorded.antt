-- ===== src/Billing/Recorded.antt =====
-- The usage row of a charge.
use manager_key_pro.Base.{
  ◌≡◌, refl, ap, ◌∙◌, false, ◌&&◌, inl, inr, ◌∷◌, String, str_eq, is_empty, arith, Bool-cases,
  if◌then◌else◌,
}
use manager_key_pro.Base.Int.{ℤ, pos}
use manager_key_pro.Store.Types.{Key, UsageRow, Db}
use manager_key_pro.Store.Errors.{Env, Result, ok, err, null_str, insert_usage}
use manager_key_pro.Store.Keys.{key_by_id, reset}
use manager_key_pro.Store.Steps.{Result-cases}
use manager_key_pro.Billing.Pricing.{Floats, Pricing}
use manager_key_pro.Billing.Period.{ensure_period, period_end_from}
use manager_key_pro.Billing.Hold.{settle}
use manager_key_pro.Billing.Charge.{
  UsageRecord, record_usage, source_of, debit_extra, charge_wallet_extra, charge_extra,
  finish_charge, settle_and_charge, charge_key, unit_spend, cost_of, charge, is_zero,
}
use manager_key_pro.Billing.Spending.{
  Spent, charge_extra-Spent, covered, from_quota, quota_refused, from_wallet, wallet_refused,
  owner_unknown, too_poor, closed,
}
use manager_key_pro.Billing.Untouched.{
  SameRows, same_rows, SameRows-trans, ensure_period-SameRows, settle-SameRows,
  debit_extra-SameRows, Spent-SameRows,
}
use manager_key_pro.Billing.Row.{
  Recorded, Outcome, PaidResult, record_usage-Outcome, Outcome-row, Outcome-key,
}

-- What the last switch reports.
Spent-Paid :
    {env : Env} {db : Db} {k : Key} {cost extra : ℤ} (rec : UsageRecord)
    {r : Db × Result (ℤ × String × ℤ)}
    → is_zero rec.detail.total_tokens ≡ false
    → Spent env db k cost extra r
    → PaidResult rec r.1
unfolding null_str
Spent-Paid rec used (covered _) = inl (refl, used, inl refl)
Spent-Paid rec used (from_quota _ _ _ _) = inl (refl, used, inl refl)
Spent-Paid rec used (quota_refused _ _ _ _ _) = tt
Spent-Paid rec used (from_wallet _ _ _ _ _ _ _ _ _ _) = inl (refl, used, inr refl)
Spent-Paid rec used (wallet_refused _ _ _ _ _ _ _) = tt
Spent-Paid rec used (owner_unknown _ _ _ _) = tt
Spent-Paid rec used (too_poor _ _ _ _ _) = inr (refl, refl, refl)
Spent-Paid rec used (closed _ _) = inr (refl, refl, refl)

finished-Outcome :
    (env : Env) (start : Db) (k : Key) (rec : UsageRecord) (db : Db) (r : Result (ℤ × String × ℤ))
    → env.fails (insert_usage k.id) ≡ false
    → SameRows start db
    → PaidResult rec r
    → Outcome k rec start (elim r [
      | err e ↦ (db, err e)
      | ok (charged, source, billed) ↦ (record_usage env db k rec charged source billed, ok charged)
    ])
finished-Outcome env start k rec db (err e) writes same paid = tt
finished-Outcome env start k rec db (ok (charged, source, billed)) writes same paid =
    record_usage-Outcome env start db k rec charged source billed writes same paid

finish_charge-Outcome :
    (env : Env) (start db : Db) (k : Key) (rec : UsageRecord) (cost extra : ℤ)
    → env.fails (insert_usage k.id) ≡ false
    → is_zero rec.detail.total_tokens ≡ false
    → SameRows start db
    → Outcome k rec start (finish_charge env db k rec cost extra)
unfolding finish_charge
finish_charge-Outcome env start db k rec cost extra writes used same =
    let spent = charge_extra-Spent env db k cost extra in
    let spend = charge_extra env db k cost extra in
    let same' = SameRows-trans same (Spent-SameRows spent) in
    finished-Outcome env start k rec spend.0 spend.1 writes same' (Spent-Paid rec used spent)

charge_wallet_extra-Outcome :
    (env : Env) (start db : Db) (k : Key) (rec : UsageRecord) (cost extra : ℤ)
    → env.fails (insert_usage k.id) ≡ false
    → is_zero rec.detail.total_tokens ≡ false
    → SameRows start db
    → Outcome k rec start (charge_wallet_extra env db k rec cost extra)
unfolding charge_wallet_extra null_str
charge_wallet_extra-Outcome env start db k rec cost extra writes used same =
    elim (Result-cases (debit_extra env db k extra).1) [
      | inl (e, q) ↦ rw (charge_wallet_extra, q) tt
      | inr (a, q) ↦
          let debited = SameRows-trans same (debit_extra-SameRows env db k extra) in
          rw (charge_wallet_extra, q)
            (record_usage-Outcome env start (debit_extra env db k extra).0 k rec cost "wallet"
              (pos 1) writes debited (inl (refl, used, inr refl)))
    ]

settle_and_charge-Outcome :
    (env : Env) (start db : Db) (k : Key) (rec : UsageRecord) (cost unit : ℤ)
    → env.fails (insert_usage k.id) ≡ false
    → is_zero rec.detail.total_tokens ≡ false
    → SameRows start db
    → Outcome k rec start (settle_and_charge env db k rec cost unit)
unfolding settle_and_charge
settle_and_charge-Outcome env start db k rec cost unit writes used same =
    let source = source_of env db rec.request_id in
    let actual = if str_eq source "wallet" then cost else unit in
    let settled = settle env db k.id actual in
    let same' = SameRows-trans same (settle-SameRows env db k.id actual) in
    elim (Bool-cases (is_empty rec.request_id)) [
      | inl e ↦
          rw (settle_and_charge, e)
            (finish_charge-Outcome env start db k rec cost unit writes used same)
      | inr e ↦ elim (Bool-cases (settled.2 && str_eq source "wallet")) [
        | inl w ↦
            rw (settle_and_charge, e, w)
              (charge_wallet_extra-Outcome env start settled.0 k rec cost settled.1 writes used
                same')
        | inr w ↦
            rw (settle_and_charge, e, w)
              (finish_charge-Outcome env start settled.0 k rec cost
                (if settled.2 then settled.1 else unit) writes used same')
      ]
    ]

-- The key with its period refreshed is the same key.
ensure_period-key :
    (env : Env) (db : Db) (k : Key)
    → ((ensure_period env db k).1.id ≡ k.id) × ((ensure_period env db k).1.user_id ≡ k.user_id)
unfolding ensure_period
ensure_period-key env db k =
    elim (Result-cases (reset env db k.id env.now (period_end_from env k)).1) [
      | inl (e, q) ↦ (ground (arith, q), ground (arith, q))
      | inr (a, q) ↦ (ground (arith, q), ground (arith, q))
    ]

charge_key-Outcome :
    (env : Env) (db : Db) (k : Key) (rec : UsageRecord) (cost : ℤ)
    → env.fails (insert_usage k.id) ≡ false
    → is_zero rec.detail.total_tokens ≡ false
    → Outcome k rec db (charge_key env db k rec cost)
unfolding charge_key
charge_key-Outcome env db k rec cost writes used =
    let (db', k', _) = ensure_period env db k in
    let (same_id, same_user) = ensure_period-key env db k in
    Outcome-key k k' rec db (settle_and_charge env db' k' rec cost (unit_spend env db' k' rec cost))
      same_id same_user
      (settle_and_charge-Outcome env db db' k' rec cost (unit_spend env db' k' rec cost)
        (ap (λ i. env.fails (insert_usage i)) same_id ∙ writes) used
        (ensure_period-SameRows env db k))

charge-Outcome :
    (fl : Floats) (env : Env) (pr : Pricing fl) (db : Db) (rec : UsageRecord) (k : Key)
    → key_by_id env db rec.api_key ≡ ok k
    → env.fails (insert_usage k.id) ≡ false
    → Outcome k rec db (charge fl env pr db rec)
unfolding charge null_str
charge-Outcome fl env pr db rec k found writes =
    elim (Bool-cases (is_zero rec.detail.total_tokens)) [
      | inl none_used ↦
          rw (charge, none_used, found)
            (record_usage-Outcome env db db k rec (pos 0) "" (pos 0) writes (same_rows db)
              (inr (refl, refl, refl)))
      | inr used ↦
          rw (charge, used, found)
            (charge_key-Outcome env db k rec (cost_of fl env pr rec) writes used)
    ]

-- Every charge of a known key that returns without an error, on whichever path, puts exactly one usage
-- row in front of the usage records, if the insert of that row does not fail, and leaves the log as it
-- was. The row is of the key and its owner, about the request, and costs what the charge returns. It is
-- billed to the key's quota or to the wallet only where the request used tokens; otherwise the row has
-- no source, and the charge returns 0.
pub charge-Recorded :
    (fl : Floats) (env : Env) (pr : Pricing fl) (db : Db) (rec : UsageRecord) (k : Key)
    (charged : ℤ)
    → key_by_id env db rec.api_key ≡ ok k
    → env.fails (insert_usage k.id) ≡ false
    → (charge fl env pr db rec).1 ≡ ok charged
    → (row : UsageRow) × ((charge fl env pr db rec).0.usage_records ≡ row ∷ db.usage_records)
      × ((charge fl env pr db rec).0.request_logs ≡ db.request_logs)
      × Recorded k rec charged row
charge-Recorded fl env pr db rec k charged found writes h =
    Outcome-row k rec db (charge fl env pr db rec) charged h
      (charge-Outcome fl env pr db rec k found writes)
