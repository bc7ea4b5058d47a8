-- ===== src/Billing/Untouched.antt =====
-- What the parts of a charge leave of the usage records and of the log.
use manager_key_pro.Base.{
  ◌≡◌, refl, ap, ◌∙◌, inl, inr, String, ◌+++◌, arith, Option-cases, select_all,
}
use manager_key_pro.Base.Int.{ℤ, neg64, sub64}
use manager_key_pro.Store.Types.{Key, Reservation, Db}
use manager_key_pro.Store.Errors.{Env, Result}
use manager_key_pro.Store.Keys.{update_key_row, consume, reset}
use manager_key_pro.Store.Users.{adjust_balance, user_by_id}
use manager_key_pro.Store.Users.Adjust.{Adjusted, refused, done, adjust_balance_cases}
use manager_key_pro.Store.Steps.{Result-cases}
use manager_key_pro.Billing.Period.{ensure_period, period_end_from}
use manager_key_pro.Billing.Hold.{
  settle, refund_hold, owner_of, mark, oldest, is_open_of, at_least_zero,
}
use manager_key_pro.Billing.Charge.{usage_ref, debit_extra}
use manager_key_pro.Billing.Spending.{
  Spent, covered, from_quota, quota_refused, from_wallet, wallet_refused, owner_unknown, too_poor,
  closed,
}

-- The usage records and the log are as they were.
pub record SameRows (a b : Db) : Type 0 where
  pub usage : b.usage_records ≡ a.usage_records
  pub logs : b.request_logs ≡ a.request_logs

pub same_rows : (db : Db) → SameRows db db
same_rows db = record { usage = refl; logs = refl }

pub of_equal : {a b : Db} → b ≡ a → SameRows a b
of_equal e = record {
  usage = ap (λ (d : Db). d.usage_records) e;
  logs = ap (λ (d : Db). d.request_logs) e;
}

pub SameRows-trans : {a b c : Db} → SameRows a b → SameRows b c → SameRows a c
SameRows-trans s t = record { usage = t.usage ∙ s.usage; logs = t.logs ∙ s.logs }

Adjusted-SameRows :
    (env : Env) (db : Db) (uid : String) (delta : ℤ) (reason ref channel key : String)
    {r : Db × Result ℤ}
    → Adjusted env db uid delta reason ref channel key r
    → SameRows db r.0
Adjusted-SameRows env db uid delta reason ref channel key (refused e) = same_rows db
Adjusted-SameRows env db uid delta reason ref channel key (done u _ _ _ _ _ e) = record {
  usage = ap (λ (d : Db). d.usage_records) e;
  logs = ap (λ (d : Db). d.request_logs) e;
}

adjust_balance-SameRows :
    (env : Env) (db : Db) (uid : String) (delta : ℤ) (reason ref channel key : String)
    → SameRows db (adjust_balance env db uid delta reason ref channel key).0
adjust_balance-SameRows env db uid delta reason ref channel key =
    Adjusted-SameRows env db uid delta reason ref channel key
      (adjust_balance_cases env db uid delta reason ref channel key)

consume-SameRows :
    (env : Env) (db : Db) (kid : String) (n : ℤ) → SameRows db (consume env db kid n).0
unfolding consume update_key_row
consume-SameRows env db kid n = record { usage = ground arith; logs = ground arith }

pub ensure_period-SameRows :
    (env : Env) (db : Db) (k : Key) → SameRows db (ensure_period env db k).0
unfolding ensure_period reset update_key_row
ensure_period-SameRows env db k =
    elim (Result-cases (reset env db k.id env.now (period_end_from env k)).1) [
      | inl (e, q) ↦ record { usage = ground (arith, q); logs = ground (arith, q) }
      | inr (a, q) ↦ record { usage = ground (arith, q); logs = ground (arith, q) }
    ]

refund_hold-SameRows :
    (env : Env) (db : Db) (kid : String) (r : Reservation) (refund : ℤ)
    → SameRows db (refund_hold env db kid r refund)
unfolding refund_hold
refund_hold-SameRows env db kid r refund = ground (
  arith,
  same_rows db,
  adjust_balance-SameRows env db (owner_of env db r.reservation_id) refund "refund"
      ("settle:" +++ r.reservation_id) "system" kid,
  consume-SameRows env db kid (neg64 refund),
)

mark-SameRows : (env : Env) (db : Db) (rid status : String) → SameRows db (mark env db rid status)
unfolding mark
mark-SameRows env db rid status = record { usage = ground arith; logs = ground arith }

pub settle-SameRows :
    (env : Env) (db : Db) (kid : String) (actual : ℤ) → SameRows db (settle env db kid actual).0
unfolding settle
settle-SameRows env db kid actual =
    elim (Option-cases (oldest (select_all (is_open_of kid) db.reservations))) [
      | inl q ↦ ground (arith, q, same_rows db)
      | inr (r, q) ↦
          let refund = at_least_zero (sub64 r.hold actual) in
          let back = refund_hold env db kid r refund in
          let both =
            SameRows-trans (refund_hold-SameRows env db kid r refund)
              (mark-SameRows env back r.reservation_id "settled") in
          ground (arith, q, same_rows db, both)
    ]

pub debit_extra-SameRows :
    (env : Env) (db : Db) (key : Key) (extra : ℤ) → SameRows db (debit_extra env db key extra).0
unfolding debit_extra
debit_extra-SameRows env db key extra = elim (Result-cases (user_by_id env db key.user_id)) [
  | inl (e, q) ↦ ground (arith, q, same_rows db)
  | inr (user, q) ↦ ground (
    arith,
    q,
    same_rows db,
    adjust_balance-SameRows env db user.id (neg64 extra) "usage" (usage_ref env) "system" key.id,
  )
]

pub Spent-SameRows :
    {env : Env} {db : Db} {key : Key} {cost extra : ℤ} {r : Db × Result (ℤ × String × ℤ)}
    → Spent env db key cost extra r
    → SameRows db r.0
Spent-SameRows {db = db} (covered _) = same_rows db
Spent-SameRows {db = db} (from_quota _ _ _ e) = record {
  usage = ap (λ (d : Db). d.usage_records) e;
  logs = ap (λ (d : Db). d.request_logs) e;
}
Spent-SameRows (quota_refused _ _ _ _ e) = of_equal e
Spent-SameRows {db = db} (from_wallet _ _ _ _ _ _ _ _ _ e) = record {
  usage = ap (λ (d : Db). d.usage_records) e;
  logs = ap (λ (d : Db). d.request_logs) e;
}
Spent-SameRows {db = db} (wallet_refused _ _ _ _ _ _ _) = same_rows db
Spent-SameRows {db = db} (owner_unknown _ _ _ _) = same_rows db
Spent-SameRows {db = db} (too_poor _ _ _ _ _) = same_rows db
Spent-SameRows {db = db} (closed _ _) = same_rows db
