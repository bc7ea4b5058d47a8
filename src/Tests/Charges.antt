-- ===== src/Tests/Charges.antt =====
-- Concrete charges.
use manager_key_pro.Base.{exists_row, select_all, split, to_lower, trim_space, update_where}
use manager_key_pro.Base.Int.{add64, div64, mul64, show_int, sub64, wrap64, ◌*ℤ◌, ◌+ℤ◌, ◌-ℤ◌}
use manager_key_pro.Billing.Charge.{
  already_counted, charge_extra, charge_key, charge_wallet, charge_wallet_extra, cost_of,
  debit_extra, finish_charge, null_ms, record_usage, settle_and_charge, source_of, unit_spend,
  usage_ref, usage_row,
}
use manager_key_pro.Billing.Hold.{at_least_zero, mark, oldest, owner_of, refund_hold, settle}
use manager_key_pro.Billing.Period.{
  ensure_period, has_no_period, is_due, period_end_from, window_length,
}
use manager_key_pro.Billing.Pricing.{
  compute_cost, default_for, default_prices, family_price, is_cache_additive, load_price,
  sonnet_price,
}
use manager_key_pro.Store.Errors.{is_not_found, null_if_empty, null_str, require_one_row, run_tx}
use manager_key_pro.Store.Keys.{consume, has_quota, quota_remaining, reset, update_key_row}
use manager_key_pro.Store.Users.{adjust_balance, can_spend, reason_valid, user_by_id}
use manager_key_pro.Base.{◌≡◌, refl, select_first, ◌∷◌, [], some}
use manager_key_pro.Base.Int.{pos}
use manager_key_pro.Store.Types.{Db, LogRow, UsageRow}
use manager_key_pro.Store.Errors.{ok}
use manager_key_pro.Store.Keys.{key_by_id}
use manager_key_pro.Billing.Charge.{charge}
use manager_key_pro.Billing.Row.{Recorded}
use manager_key_pro.Billing.Recorded.{charge-Recorded}
use manager_key_pro.Logging.{effective_mode}
use manager_key_pro.Logging.Write.{
  write_usage, insert_log, usage_log, attach_cost, update_newest, newest_usage, purge_time,
}
use manager_key_pro.Store.Settings.{get_setting}
use manager_key_pro.Plugin.Logged.{decoded, handle_usage}
use manager_key_pro.Plugin.Costs.{handle_usage-previous_cost}
use manager_key_pro.Tests.Setup.{codec, env, floats, key, db, pricing, usage}

charges_120 : (charge floats env pricing db (usage (pos 40))).1 ≡ ok (pos 120)
unfolding charge key_by_id select_first charge_key settle_and_charge settle oldest select_all
    ensure_period has_no_period source_of finish_charge charge_extra at_least_zero sub64 wrap64 ◌-ℤ◌
    unit_spend add64 div64 mul64 show_int ◌*ℤ◌ ◌+ℤ◌ exists_row update_where split to_lower
    trim_space already_counted charge_wallet charge_wallet_extra cost_of debit_extra null_ms
    record_usage usage_ref usage_row mark owner_of refund_hold is_due period_end_from window_length
    compute_cost default_for default_prices family_price is_cache_additive load_price sonnet_price
    is_not_found null_if_empty null_str require_one_row run_tx consume has_quota quota_remaining
    reset update_key_row adjust_balance can_spend reason_valid user_by_id
charges_120 = refl

charge-Recorded_example :
    let (db', charged) = charge floats env pricing db (usage (pos 40)) in
    (row : UsageRow) × (db'.usage_records ≡ row ∷ db.usage_records)
    × (db'.request_logs ≡ db.request_logs)
    × Recorded key (usage (pos 40)) (pos 120) row
unfolding key_by_id select_first
charge-Recorded_example =
    charge-Recorded floats env pricing db (usage (pos 40)) key (pos 120) refl refl charges_120

-- The key's newest record cost 7 from the wallet, and a newer one is of another key. A report of 40
-- tokens is charged 120, and logged at 7.
abbrev others_row : UsageRow
unfolding usage_row
others_row = usage_row env (record key { id = "k2" }) (usage (pos 5)) (pos 3) "key_quota" (pos 1)

abbrev previous : UsageRow
unfolding usage_row
previous = usage_row env key (usage (pos 10)) (pos 7) "wallet" (pos 1)

abbrev used_before : Db
used_before = record db { usage_records = others_row ∷ previous ∷ [] }

charges_used :
    (charge floats env pricing
      (write_usage env used_before [] (usage (pos 40))).0
      (usage (pos 40))).1
    ≡ ok (pos 120)
unfolding charge key_by_id select_first charge_key settle_and_charge settle oldest select_all
    ensure_period has_no_period source_of finish_charge charge_extra at_least_zero sub64 wrap64 ◌-ℤ◌
    unit_spend add64 div64 mul64 show_int ◌*ℤ◌ ◌+ℤ◌ exists_row update_where split to_lower
    trim_space already_counted charge_wallet charge_wallet_extra cost_of debit_extra null_ms
    record_usage usage_ref usage_row mark owner_of refund_hold is_due period_end_from window_length
    compute_cost default_for default_prices family_price is_cache_additive load_price sonnet_price
    is_not_found null_if_empty null_str require_one_row run_tx consume has_quota quota_remaining
    reset update_key_row adjust_balance can_spend reason_valid user_by_id write_usage insert_log
    usage_log attach_cost update_newest newest_usage effective_mode get_setting purge_time
charges_used = refl

handle_usage-previous_cost_example :
    let db' = (handle_usage codec floats env pricing used_before [] (decoded (usage (pos 40)))).0 in
    (log : LogRow) × (own : UsageRow) × (db'.request_logs ≡ log ∷ [])
    × (db'.usage_records ≡ own ∷ others_row ∷ previous ∷ [])
    × (log.key_id ≡ some "k1")
    × (own.key_id ≡ "k1")
    × (own.cost ≡ pos 120)
    × (log.cost ≡ pos 7)
    × (log.source ≡ some "wallet")
unfolding key_by_id select_first effective_mode get_setting usage_row null_str
handle_usage-previous_cost_example =
    handle_usage-previous_cost codec floats env pricing used_before [] (usage (pos 40)) key
      (others_row ∷ []) previous [] (pos 120) (λ s. refl) refl refl refl refl (refl, tt) refl
      charges_used
