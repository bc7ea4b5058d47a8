-- ===== src/Billing/Steps.antt =====
-- Every billing operation as a sequence of atomic changes of the database.
use manager_key_pro.Base.{
  inl, inr, List, [], ◌∷◌, map, String, arith, Option-cases, select_all, select_first, update_where,
  delete_where, ◌++◌, ◌+++◌,
}
use manager_key_pro.Base.Int.{ℤ, neg64, sub64}
use manager_key_pro.Store.Types.{Key, Reservation, Db}
use manager_key_pro.Store.Errors.{Env}
use manager_key_pro.Store.Keys.{key_by_id, quota_remaining}
use manager_key_pro.Store.Steps.{
  Steps, here, Steps-trans, Result-cases, here_at, adjust_balance-Steps, consume-Steps,
  reserved-Steps, used-Steps, reset-Steps,
}
use manager_key_pro.Billing.Pricing.{Floats, Pricing}
use manager_key_pro.Billing.Period.{ensure_period, period_end_from}
use manager_key_pro.Billing.Hold.{
  capped, hold_quota, hold_wallet, reserve, put_reservation, hold, mark, refund_hold, settle,
  give_back, release, release_all, release_stale, hold_amount, hold_key, new_reservation, reserves,
  oldest, is_open_of, set_reservation_status, owner_of, at_least_zero, is_stale,
}
use manager_key_pro.Billing.Charge.{UsageRecord, usage_row, record_usage}

pub record_usage-Steps :
    (env : Env) (db : Db) (key : Key) (rec : UsageRecord) (cost : ℤ) (source : String) (billed : ℤ)
    → Steps db (record_usage env db key rec cost source billed)
unfolding record_usage
record_usage-Steps env db key rec cost source billed =
    ground (arith, here_at db, used-Steps db (usage_row env key rec cost source billed))

pub ensure_period-Steps : (env : Env) (db : Db) (k : Key) → Steps db (ensure_period env db k).0
unfolding ensure_period
ensure_period-Steps env db k =
    ground (arith, here_at db, reset-Steps env db k.id env.now (period_end_from env k))

hold_quota-Steps : (env : Env) (db : Db) (k : Key) (h : ℤ) → Steps db (hold_quota env db k h).0
unfolding hold_quota
hold_quota-Steps env db k h =
    ground (arith, here_at db, consume-Steps env db k.id (capped h (quota_remaining k)))

hold_wallet-Steps :
    (env : Env) (db : Db) (rid kid uid : String) (h : ℤ)
    → Steps db (hold_wallet env db rid kid uid h).0
unfolding hold_wallet
hold_wallet-Steps env db rid kid uid h = ground (
  arith,
  here_at db,
  adjust_balance-Steps env db uid (neg64 h) "hold" ("hold:" +++ rid) "system" kid,
)

reserve-Steps :
    (fl : Floats) (env : Env) (pr : Pricing fl) (db : Db) (k : Key) (rid uid model : String)
    → Steps db (reserve fl env pr db k rid uid model).0
unfolding reserve
reserve-Steps fl env pr db k rid uid model = ground (
  arith,
  here_at db,
  hold_quota-Steps env db k (hold_amount fl env pr k.quota_kind model),
  hold_wallet-Steps env db rid k.id uid (hold_amount fl env pr "credit" model),
)

put_reservation-Steps :
    (env : Env) (db : Db) (r : Reservation) → Steps db (put_reservation env db r)
unfolding put_reservation
put_reservation-Steps env db r = ground (
  arith,
  here_at db,
  reserved-Steps db (delete_where (reserves r.reservation_id) db.reservations ++ (r ∷ [])),
)

-- The open row of `Hold`, when its key is known.
hold_key-Steps :
    (fl : Floats) (env : Env) (pr : Pricing fl) (db : Db) (k : Key) (rid kid uid model : String)
    → Steps db (hold_key fl env pr db k rid kid uid model)
unfolding hold_key
hold_key-Steps fl env pr db k rid kid uid model =
    let p = ensure_period env db k in
    let q = reserve fl env pr p.0 p.1 rid uid model in
    let reached =
      Steps-trans (ensure_period-Steps env db k) (reserve-Steps fl env pr p.0 p.1 rid uid model) in
    elim (Option-cases q.1) [
      | inl e ↦ ground (arith, reached)
      | inr ((source, amount), e) ↦ ground (
        arith,
        Steps-trans reached
            (put_reservation-Steps env q.0 (new_reservation env rid kid uid model source amount)),
      )
    ]

-- A hold is a sequence of changes.
pub hold-Steps :
    (fl : Floats) (env : Env) (pr : Pricing fl) (db : Db) (rid kid uid model : String)
    → Steps db (hold fl env pr db rid kid uid model)
unfolding hold
hold-Steps fl env pr db rid kid uid model = elim (Result-cases (key_by_id env db kid)) [
  | inl (e, q) ↦ ground (arith, here_at db)
  | inr (k, q) ↦ ground (arith, here_at db, hold_key-Steps fl env pr db k rid kid uid model)
]

mark-Steps : (env : Env) (db : Db) (rid status : String) → Steps db (mark env db rid status)
unfolding mark
mark-Steps env db rid status = ground (
  arith,
  here_at db,
  reserved-Steps db (update_where (reserves rid) (set_reservation_status status) db.reservations),
)

refund_hold-Steps :
    (env : Env) (db : Db) (kid : String) (r : Reservation) (refund : ℤ)
    → Steps db (refund_hold env db kid r refund)
unfolding refund_hold
refund_hold-Steps env db kid r refund = ground (
  arith,
  here_at db,
  adjust_balance-Steps env db (owner_of env db r.reservation_id) refund "refund"
      ("settle:" +++ r.reservation_id) "system" kid,
  consume-Steps env db kid (neg64 refund),
)

pub settle-Steps :
    (env : Env) (db : Db) (kid : String) (actual : ℤ) → Steps db (settle env db kid actual).0
unfolding settle
settle-Steps env db kid actual =
    elim (Option-cases (oldest (select_all (is_open_of kid) db.reservations))) [
      | inl e ↦ ground (arith, here_at db)
      | inr (r, e) ↦
          let refund = at_least_zero (sub64 r.hold actual) in
          ground (
            arith,
            here_at db,
            Steps-trans (refund_hold-Steps env db kid r refund)
                (mark-Steps env (refund_hold env db kid r refund) r.reservation_id "settled"),
          )
    ]

give_back-Steps : (env : Env) (db : Db) (r : Reservation) → Steps db (give_back env db r)
unfolding give_back
give_back-Steps env db r = ground (
  arith,
  here_at db,
  adjust_balance-Steps env db r.user_id r.hold "refund" ("release:" +++ r.reservation_id) "system"
      r.key_id,
  consume-Steps env db r.key_id (neg64 r.hold),
)

-- A release is a sequence of changes.
pub release-Steps : (env : Env) (db : Db) (rid : String) → Steps db (release env db rid)
unfolding release
release-Steps env db rid = elim (Option-cases (select_first (reserves rid) db.reservations)) [
  | inl e ↦ ground (arith, here_at db)
  | inr (r, e) ↦ ground (
    arith,
    here_at db,
    Steps-trans (give_back-Steps env db r) (mark-Steps env (give_back env db r) rid "released"),
  )
]

release_all-Steps : (env : Env) (db : Db) (rids : List String) → Steps db (release_all env db rids)
unfolding release_all
release_all-Steps env db [] = here
release_all-Steps env db (rid ∷ rids) =
    Steps-trans (release-Steps env db rid) (release_all-Steps env (release env db rid) rids)

-- So is the release of the stale reservations at boot.
pub release_stale-Steps :
    (env : Env) (db : Db) (max_age : ℤ) → Steps db (release_stale env db max_age)
unfolding release_stale
release_stale-Steps env db max_age = ground (
  arith,
  here_at db,
  release_all-Steps env db
      (map (λ r. r.reservation_id) (select_all (is_stale env max_age) db.reservations)),
)
