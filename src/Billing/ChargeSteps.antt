-- ===== src/Billing/ChargeSteps.antt =====
-- A charge as a sequence of atomic changes of the database.
use manager_key_pro.Base.{inl, inr, arith, if◌then◌else◌, str_eq}
use manager_key_pro.Base.Int.{ℤ, pos, neg64}
use manager_key_pro.Store.Types.{Key, Db}
use manager_key_pro.Store.Errors.{Env}
use manager_key_pro.Store.Keys.{key_by_id}
use manager_key_pro.Store.Users.{user_by_id}
use manager_key_pro.Billing.Pricing.{Floats, Pricing}
use manager_key_pro.Billing.Period.{ensure_period}
use manager_key_pro.Billing.Hold.{settle}
use manager_key_pro.Billing.Charge.{
  UsageRecord, usage_ref, debit_extra, charge_wallet_extra, charge_wallet, charge_extra,
  finish_charge, settle_and_charge, charge_key, charge, unit_spend, source_of, cost_of,
}
use manager_key_pro.Store.Steps.{
  Steps, Steps-trans, here_at, Result-cases, adjust_balance-Steps, consume-Steps,
}
use manager_key_pro.Billing.Steps.{record_usage-Steps, ensure_period-Steps, settle-Steps}

debit_extra-Steps :
    (env : Env) (db : Db) (key : Key) (extra : ℤ) → Steps db (debit_extra env db key extra).0
unfolding debit_extra
debit_extra-Steps env db key extra = elim (Result-cases (user_by_id env db key.user_id)) [
  | inl (e, q) ↦ ground (arith, here_at db)
  | inr (u, q) ↦ ground (
    arith,
    here_at db,
    adjust_balance-Steps env db u.id (neg64 extra) "usage" (usage_ref env) "system" key.id,
  )
]

charge_wallet_extra-Steps :
    (env : Env) (db : Db) (key : Key) (rec : UsageRecord) (cost extra : ℤ)
    → Steps db (charge_wallet_extra env db key rec cost extra).0
unfolding charge_wallet_extra
charge_wallet_extra-Steps env db key rec cost extra =
    let d = debit_extra env db key extra in
    let reached = debit_extra-Steps env db key extra in
    ground (
      arith,
      reached,
      Steps-trans reached (record_usage-Steps env d.0 key rec cost "wallet" (pos 1)),
    )

charge_wallet-Steps :
    (env : Env) (db : Db) (key : Key) (cost : ℤ) → Steps db (charge_wallet env db key cost).0
unfolding charge_wallet
charge_wallet-Steps env db key cost = elim (Result-cases (user_by_id env db key.user_id)) [
  | inl (e, q) ↦ ground (arith, here_at db)
  | inr (u, q) ↦ ground (
    arith,
    here_at db,
    adjust_balance-Steps env db u.id (neg64 cost) "usage" (usage_ref env) "system" key.id,
  )
]

charge_extra-Steps :
    (env : Env) (db : Db) (key : Key) (cost extra : ℤ)
    → Steps db (charge_extra env db key cost extra).0
unfolding charge_extra
charge_extra-Steps env db key cost extra =
    ground
      (arith, here_at db, consume-Steps env db key.id extra, charge_wallet-Steps env db key cost)

finish_charge-Steps :
    (env : Env) (db : Db) (key : Key) (rec : UsageRecord) (cost extra : ℤ)
    → Steps db (finish_charge env db key rec cost extra).0
unfolding finish_charge
finish_charge-Steps env db key rec cost extra =
    let c = charge_extra env db key cost extra in
    let reached = charge_extra-Steps env db key cost extra in
    elim (Result-cases c.1) [
      | inl (e, q) ↦ ground (arith, reached)
      | inr ((charged, source, billed), q) ↦
          ground
            (arith, Steps-trans reached (record_usage-Steps env c.0 key rec charged source billed))
    ]

settle_and_charge-Steps :
    (env : Env) (db : Db) (key : Key) (rec : UsageRecord) (cost unit : ℤ)
    → Steps db (settle_and_charge env db key rec cost unit).0
unfolding settle_and_charge
settle_and_charge-Steps env db key rec cost unit =
    let actual = if str_eq (source_of env db rec.request_id) "wallet" then cost else unit in
    let s = settle env db key.id actual in
    let reached = settle-Steps env db key.id actual in
    ground (
      arith,
      finish_charge-Steps env db key rec cost unit,
      Steps-trans reached (charge_wallet_extra-Steps env s.0 key rec cost s.1),
      Steps-trans reached (finish_charge-Steps env s.0 key rec cost (if s.2 then s.1 else unit)),
    )

charge_key-Steps :
    (env : Env) (db : Db) (k : Key) (rec : UsageRecord) (cost : ℤ)
    → Steps db (charge_key env db k rec cost).0
unfolding charge_key
charge_key-Steps env db k rec cost =
    let p = ensure_period env db k in
    Steps-trans (ensure_period-Steps env db k)
      (settle_and_charge-Steps env p.0 p.1 rec cost (unit_spend env p.0 p.1 rec cost))

-- A charge is a sequence of changes, also one that ends in an error.
pub charge-Steps :
    (fl : Floats) (env : Env) (pr : Pricing fl) (db : Db) (rec : UsageRecord)
    → Steps db (charge fl env pr db rec).0
unfolding charge
charge-Steps fl env pr db rec = elim (Result-cases (key_by_id env db rec.api_key)) [
  | inl (e, q) ↦ ground (arith, here_at db)
  | inr (k, q) ↦ ground (
    arith,
    record_usage-Steps env db k rec (pos 0) "" (pos 0),
    charge_key-Steps env db k rec (cost_of fl env pr rec),
  )
]
