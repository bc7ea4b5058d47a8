-- ===== src/Billing/Charge.antt =====
-- internal/billing/charge.go: the charge of one usage record.
use manager_key_pro.Base.{
  Bool, false, not, ◌&&◌, ◌||◌, Option, none, some, ◌∷◌, String, str_eq, is_empty, ◌+++◌,
  if◌then◌else◌, select_first, exists_row,
}
use manager_key_pro.Base.Int.{ℤ, pos, neg64, ltb_ℤ, leb_ℤ, div64, show_int}
use manager_key_pro.Store.Types.{Key, UsageRow, Db}
use manager_key_pro.Store.Errors.{
  wrap, Result, ok, err, is_not_found, null_str, Env, count_billed, insert_usage,
  select_reservation_source,
}
use manager_key_pro.Store.Keys.{key_by_id, has_quota, quota_remaining, consume}
use manager_key_pro.Store.Users.{user_by_id, can_spend, adjust_balance}
use manager_key_pro.Billing.Pricing.{Floats, Pricing, Detail, load_price, compute_cost}
use manager_key_pro.Billing.Period.{ensure_period}
use manager_key_pro.Billing.Hold.{settle, reserves}

-- `UsageRecord`, the fields that the code reads.
pub record UsageRecord : Type 0 where
  pub provider : String
  pub model : String
  pub alias : String
  pub api_key : String
  pub auth_id : String
  pub failed : Bool
  pub request_id : String
  pub latency : ℤ
  pub ttft : ℤ
  pub detail : Detail

-- Nanoseconds to milliseconds; `nullInt64` stores 0 as NULL.
unfoldable pub null_ms : ℤ → Option ℤ
null_ms n =
    let ms = if ltb_ℤ (pos 0) n then div64 n 1000000 else pos 0 in
    if leb_ℤ ms (pos 0) && leb_ℤ (pos 0) ms then none else some ms

-- The row that `recordUsage` inserts.
unfoldable pub usage_row : Env → Key → UsageRecord → ℤ → String → ℤ → UsageRow
usage_row env key rec cost source billed = record {
  key_id = key.id;
  user_id = key.user_id;
  provider = rec.provider;
  model = rec.model;
  requested_name = rec.alias;
  upstream_account = rec.auth_id;
  input_tokens = rec.detail.input_tokens;
  output_tokens = rec.detail.output_tokens;
  reasoning_tokens = rec.detail.reasoning_tokens;
  cached_tokens = rec.detail.cached_tokens;
  cache_read_tokens = rec.detail.cache_read_tokens;
  cache_creation_tokens = rec.detail.cache_creation_tokens;
  cost = cost;
  source = null_str source;
  billed = billed;
  client_request_id = null_str rec.request_id;
  status = if rec.failed then "failed" else "ok";
  ttft_ms = null_ms rec.ttft;
  latency_ms = null_ms rec.latency;
  created_at = env.now;
}

-- `recordUsage`; its callers ignore or log the error.
unfoldable pub record_usage : Env → Db → Key → UsageRecord → ℤ → String → ℤ → Db
record_usage env db key rec cost source billed =
    if env.fails (insert_usage key.id)
    then db
    else record db { usage_records = usage_row env key rec cost source billed ∷ db.usage_records }

-- A billed row of one client request on one key.
abbrev pub is_billed : String → String → UsageRow → Bool
is_billed rid kid row =
    elim row.client_request_id [ none ↦ false | some r ↦ str_eq r rid ]
    && leb_ℤ row.billed (pos 1)
    && leb_ℤ (pos 1) row.billed
    && str_eq row.key_id kid

-- Rule 2: the client request has been counted; a failed query counts nothing.
unfoldable pub already_counted : Env → Db → Key → String → Bool
already_counted env db key rid =
    not (is_empty rid)
    && not (env.fails (count_billed rid))
    && exists_row (is_billed rid key.id) db.usage_records

-- The spend in the key's quota unit.
unfoldable pub unit_spend : Env → Db → Key → UsageRecord → ℤ → ℤ
unit_spend env db key rec cost =
    if str_eq key.quota_kind "token"
    then rec.detail.total_tokens
    else if str_eq key.quota_kind "request"
    then (if already_counted env db key rec.request_id then pos 0 else pos 1)
    else if str_eq key.quota_kind "unlimited"
    then pos 0
    else cost

-- The source of the open reservation with the request's id, "" where there is none.
unfoldable pub source_of : Env → Db → String → String
source_of env db rid =
    if env.fails (select_reservation_source rid)
    then ""
    else (elim (select_first (λ r. reserves rid r && str_eq r.status "open") db.reservations) [
      | none ↦ ""
      | some r ↦ r.source
    ])

-- `fmt.Sprintf("usage_%d", store.Now())`
unfoldable pub usage_ref : Env → String
usage_ref env = "usage_" +++ show_int env.now

-- The debit of what a settled wallet hold did not cover. None is made for an extra of 0, an unknown
-- user, or a wallet that cannot cover it.
unfoldable pub debit_extra : Env → Db → Key → ℤ → Db × Result ℤ
debit_extra env db key extra =
    if not (ltb_ℤ (pos 0) extra) then (db, ok (pos 0)) else (elim (user_by_id env db key.user_id) [
      | err e ↦ (db, ok (pos 0))
      | ok user ↦
          if can_spend user extra
          then adjust_balance env db user.id (neg64 extra) "usage" (usage_ref env) "system" key.id
          else (db, ok (pos 0))
    ])

-- The rest of the charge after a wallet hold was settled: only the extra is debited.
unfoldable pub charge_wallet_extra : Env → Db → Key → UsageRecord → ℤ → ℤ → Db × Result ℤ
charge_wallet_extra env db key rec cost extra =
    let (db', r) = debit_extra env db key extra in
    elim r [
      | err e ↦ (db', err (wrap e))
      | ok _ ↦ (record_usage env db' key rec cost "wallet" (pos 1), ok cost)
    ]

-- The overflow branch: the whole cost from the wallet. Beside the database, what was charged, the
-- source and the billed flag of the usage row.
unfoldable pub charge_wallet : Env → Db → Key → ℤ → Db × Result (ℤ × String × ℤ)
charge_wallet env db key cost = elim (user_by_id env db key.user_id) [
  | err e ↦ (db, err (wrap e))
  | ok user ↦
      if not (can_spend user cost)
      then (db, ok (pos 0, "", pos 0))
      else (let (db', r) =
            adjust_balance env db user.id (neg64 cost) "usage" (usage_ref env) "system" key.id in
          elim r [ err e ↦ (db', err (wrap e)) | ok _ ↦ (db', ok (cost, "wallet", pos 1)) ])
]

-- The last switch of `Charge`.
unfoldable pub charge_extra : Env → Db → Key → ℤ → ℤ → Db × Result (ℤ × String × ℤ)
charge_extra env db key cost extra =
    if str_eq key.quota_kind "unlimited" || leb_ℤ extra (pos 0)
    then (db, ok (cost, "key_quota", pos 1))
    else if has_quota key && leb_ℤ extra (quota_remaining key)
    then (let (db', r) = consume env db key.id extra in
        elim r [ err e ↦ (db', err (wrap e)) | ok _ ↦ (db', ok (cost, "key_quota", pos 1)) ])
    else if key.overflow_to_wallet
    then charge_wallet env db key cost
    else (db, ok (pos 0, "", pos 0))

-- The last switch and the usage row.
unfoldable pub finish_charge : Env → Db → Key → UsageRecord → ℤ → ℤ → Db × Result ℤ
finish_charge env db key rec cost extra =
    let (db', r) = charge_extra env db key cost extra in
    elim r [
      | err e ↦ (db', err e)
      | ok (charged, source, billed) ↦
          (record_usage env db' key rec charged source billed, ok charged)
    ]

-- Rule 3: settle the hold, then charge what it did not cover.
unfoldable pub settle_and_charge : Env → Db → Key → UsageRecord → ℤ → ℤ → Db × Result ℤ
settle_and_charge env db key rec cost unit =
    if is_empty rec.request_id
    then finish_charge env db key rec cost unit
    else (let source = source_of env db rec.request_id in
        let actual = if str_eq source "wallet" then cost else unit in
        let (db', owed, settled) = settle env db key.id actual in
        if settled && str_eq source "wallet"
        then charge_wallet_extra env db' key rec cost owed
        else finish_charge env db' key rec cost (if settled then owed else unit))

-- The cost of a record: one micro-credit a token where the price gives nothing.
unfoldable pub cost_of : (fl : Floats) → Env → Pricing fl → UsageRecord → ℤ
cost_of fl env pr rec =
    let cost = compute_cost fl rec.provider rec.detail (load_price fl env pr rec.model) in
    if leb_ℤ cost (pos 0) then rec.detail.total_tokens else cost

-- The key is known: refresh its period, then charge.
unfoldable pub charge_key : Env → Db → Key → UsageRecord → ℤ → Db × Result ℤ
charge_key env db k rec cost =
    let (db', key, _) = ensure_period env db k in
    settle_and_charge env db' key rec cost (unit_spend env db' key rec cost)

abbrev pub is_zero : ℤ → Bool
is_zero n = leb_ℤ n (pos 0) && leb_ℤ (pos 0) n

-- `Charge`
unfoldable pub charge : (fl : Floats) → Env → Pricing fl → Db → UsageRecord → Db × Result ℤ
charge fl env pr db rec =
    if is_zero rec.detail.total_tokens
    then (elim (key_by_id env db rec.api_key) [
      | err e ↦ (db, ok (pos 0))
      | ok key ↦ (record_usage env db key rec (pos 0) "" (pos 0), ok (pos 0))
    ])
    else (elim (key_by_id env db rec.api_key) [
      | err e ↦ if is_not_found e then (db, ok (pos 0)) else (db, err (wrap e))
      | ok k ↦ charge_key env db k rec (cost_of fl env pr rec)
    ])
