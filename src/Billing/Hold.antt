-- ===== src/Billing/Hold.antt =====
-- internal/billing/hold.go: reservations of quota or wallet for one client request.
use manager_key_pro.Base.{
  Bool, true, false, not, ◌&&◌, ◌||◌, Option, none, some, List, [], ◌∷◌, ◌++◌, map, String, str_eq,
  is_empty, ◌+++◌, if◌then◌else◌, select_first, select_all, exists_row, update_where, delete_where,
}
use manager_key_pro.Base.Int.{ℤ, pos, sub64, neg64, ltb_ℤ, leb_ℤ}
use manager_key_pro.Store.Types.{Key, Reservation, Db}
use manager_key_pro.Store.Errors.{
  ok, err, Env, insert_reservation, select_oldest_open, select_reservation_user, mark_reservation,
  select_reservation, select_stale,
}
use manager_key_pro.Store.Keys.{key_by_id, has_quota, quota_remaining, consume, has_key_id}
use manager_key_pro.Store.Users.{user_by_id, can_spend, adjust_balance, has_id}
use manager_key_pro.Billing.Pricing.{Floats, Pricing, load_price}
use manager_key_pro.Billing.Period.{ensure_period}

abbrev pub reserves : String → Reservation → Bool
reserves rid r = str_eq r.reservation_id rid

-- The open reservations of a key.
abbrev pub is_open_of : String → Reservation → Bool
is_open_of kid r = str_eq r.key_id kid && str_eq r.status "open"

module _ (fl : Floats) where
  open fl use {F, to_int, ratio, mul, less, less_eq}

  -- The default branch of `HoldAmount`: micro-credit from the price.
  unfoldable pub hold_credit : Env → Pricing fl → String → ℤ
  hold_credit env pr model =
      let price = load_price fl env pr model in
      let base =
        if less (ratio 0 1) price.per_call_credit then price.per_call_credit else ratio 500000 1 in
      let mult =
        if less_eq price.hold_multiplier (ratio 0 1) then ratio 15 10 else price.hold_multiplier in
      to_int (mul base mult)

  -- `HoldAmount`, by the key's quota kind.
  unfoldable pub hold_amount : Env → Pricing fl → String → String → ℤ
  hold_amount env pr kind model =
      if str_eq kind "unlimited"
      then pos 0
      else if str_eq kind "token"
      then pos 30000
      else if str_eq kind "request"
      then pos 1
      else hold_credit env pr model

-- The smaller of a hold and what remains of the quota.
unfoldable pub capped : ℤ → ℤ → ℤ
capped hold rem = if ltb_ℤ rem hold then rem else hold

-- The branch of `Hold` for a key that has quota.
unfoldable pub hold_quota : Env → Db → Key → ℤ → Db × Option (String × ℤ)
hold_quota env db key hold =
    let amount = capped hold (quota_remaining key) in
    if ltb_ℤ (pos 0) amount
    then (let (db', r) = consume env db key.id amount in
        elim r [ err e ↦ (db', none) | ok _ ↦ (db', some ("key_quota", amount)) ])
    else (db, some ("key_quota", amount))

-- The branch of `Hold` for an exhausted key that overflows to the wallet.
unfoldable pub hold_wallet : Env → Db → String → String → String → ℤ → Db × Option (String × ℤ)
hold_wallet env db rid kid uid micro = elim (user_by_id env db uid) [
  | err e ↦ (db, none)
  | ok user ↦
      if not (can_spend user micro)
      then (db, none)
      else (let (db', r) =
            adjust_balance env db uid (neg64 micro) "hold" ("hold:" +++ rid) "system" kid in
          elim r [ err e ↦ (db', none) | ok _ ↦ (db', some ("wallet", micro)) ])
]

-- The switch of `Hold`: the source and amount reserved, or `none` where it returns.
unfoldable pub reserve :
    (fl : Floats)
    → Env
    → Pricing fl
    → Db
    → Key
    → String
    → String
    → String
    → Db × Option (String × ℤ)
reserve fl env pr db key rid uid model =
    if str_eq key.quota_kind "unlimited"
    then (db, some ("key_quota", pos 0))
    else if has_quota key
    then hold_quota env db key (hold_amount fl env pr key.quota_kind model)
    else if key.overflow_to_wallet
    then hold_wallet env db rid key.id uid (hold_amount fl env pr "credit" model)
    else (db, none)

-- `INSERT OR REPLACE INTO reservations`: the foreign keys and the CHECK on the source may fail it,
-- which is only logged.
unfoldable pub put_reservation : Env → Db → Reservation → Db
put_reservation env db r =
    if env.fails (insert_reservation r.reservation_id)
      || not (exists_row (has_key_id r.key_id) db.keys)
      || not (exists_row (has_id r.user_id) db.users)
    then db
    else record db {
      reservations = delete_where (reserves r.reservation_id) db.reservations ++ (r ∷ []);
    }

abbrev pub new_reservation : Env → String → String → String → String → String → ℤ → Reservation
new_reservation env rid kid uid model source amount = record {
  reservation_id = rid;
  key_id = kid;
  user_id = uid;
  model = model;
  hold = amount;
  source = source;
  status = "open";
  created_at = env.now;
}

-- `Hold` for a key that was found: its period, the reserve, the row.
unfoldable pub hold_key :
    (fl : Floats) → Env → Pricing fl → Db → Key → String → String → String → String → Db
hold_key fl env pr db k rid kid uid model =
    let (db1, key, _) = ensure_period env db k in
    let (db2, got) = reserve fl env pr db1 key rid uid model in
    elim got [
      | none ↦ db2
      | some (source, amount) ↦
          put_reservation env db2 (new_reservation env rid kid uid model source amount)
    ]

-- `Hold`
unfoldable pub hold : (fl : Floats) → Env → Pricing fl → Db → String → String → String → String → Db
hold fl env pr db rid kid uid model =
    if is_empty rid || is_empty kid then db else (elim (key_by_id env db kid) [
      | err e ↦ db
      | ok k ↦ hold_key fl env pr db k rid kid uid model
    ])

-- The first of the oldest rows: `ORDER BY created_at ASC LIMIT 1`.
unfoldable pub oldest : List Reservation → Option Reservation
oldest [] = none
oldest (r ∷ rs) = elim (oldest rs) [
  | none ↦ some r
  | some s ↦ if leb_ℤ r.created_at s.created_at then some r else some s
]

abbrev pub set_reservation_status : String → Reservation → Reservation
set_reservation_status status r = record r { status = status }

-- `UPDATE reservations SET status = … WHERE reservation_id = ?`; a failure is only logged.
unfoldable pub mark : Env → Db → String → String → Db
mark env db rid status = if env.fails (mark_reservation rid) then db else record db {
  reservations = update_where (reserves rid) (set_reservation_status status) db.reservations;
}

-- `n` where it is positive, else 0.
unfoldable pub at_least_zero : ℤ → ℤ
at_least_zero n = if ltb_ℤ n (pos 0) then pos 0 else n

-- The owner of a reservation, "" where the lookup fails.
unfoldable pub owner_of : Env → Db → String → String
owner_of env db rid =
    if env.fails (select_reservation_user rid)
    then ""
    else (elim (select_first (reserves rid) db.reservations) [ none ↦ "" | some r ↦ r.user_id ])

-- The refund of `Settle` to the source of the hold; errors are only logged.
unfoldable pub refund_hold : Env → Db → String → Reservation → ℤ → Db
refund_hold env db kid r refund =
    if not (ltb_ℤ (pos 0) refund)
    then db
    else if str_eq r.source "wallet"
    then (let uid = owner_of env db r.reservation_id in
        if is_empty uid
        then db
        else (adjust_balance env db uid refund "refund" ("settle:" +++ r.reservation_id) "system"
            kid).0)
    else if str_eq r.source "key_quota"
    then (consume env db kid (neg64 refund)).0
    else db

-- `Settle`: what is owed beyond the hold, and whether there was a hold.
unfoldable pub settle : Env → Db → String → ℤ → Db × ℤ × Bool
settle env db kid actual =
    if env.fails (select_oldest_open kid)
    then (db, actual, false)
    else (elim (oldest (select_all (is_open_of kid) db.reservations)) [
      | none ↦ (db, actual, false)
      | some r ↦ (
        mark env (refund_hold env db kid r (at_least_zero (sub64 r.hold actual))) r.reservation_id
            "settled",
        at_least_zero (sub64 actual r.hold),
        true,
      )
    ])

-- The refund of `Release`; errors are only logged.
unfoldable pub give_back : Env → Db → Reservation → Db
give_back env db r =
    if str_eq r.source "wallet"
    then (adjust_balance env db r.user_id r.hold "refund" ("release:" +++ r.reservation_id) "system"
        r.key_id).0
    else if str_eq r.source "key_quota"
    then (consume env db r.key_id (neg64 r.hold)).0
    else db

-- `Release`
unfoldable pub release : Env → Db → String → Db
release env db rid =
    if is_empty rid || env.fails (select_reservation rid)
    then db
    else (elim (select_first (reserves rid) db.reservations) [
      | none ↦ db
      | some r ↦
          if not (str_eq r.status "open") || leb_ℤ r.hold (pos 0)
          then db
          else mark env (give_back env db r) rid "released"
    ])

-- The loop of `ReleaseStale`.
unfoldable pub release_all : Env → Db → List String → Db
release_all env db [] = db
release_all env db (rid ∷ rids) = release_all env (release env db rid) rids

abbrev pub is_stale : Env → ℤ → Reservation → Bool
is_stale env max_age r = str_eq r.status "open" && ltb_ℤ r.created_at (sub64 env.now max_age)

-- `ReleaseStale`
unfoldable pub release_stale : Env → Db → ℤ → Db
release_stale env db max_age =
    if env.fails select_stale
    then db
    else release_all env db
        (map (λ r. r.reservation_id) (select_all (is_stale env max_age) db.reservations))
