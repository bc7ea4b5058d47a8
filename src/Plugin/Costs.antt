-- ===== src/Plugin/Costs.antt =====
-- The cost that the log shows of a request.
use manager_key_pro.Base.{◌≡◌, ◌∙◌, ap, true, false, some, List, ◌∷◌, ◌++◌, All, is_empty, str_eq}
use manager_key_pro.Base.Int.{ℤ}
use manager_key_pro.Store.Types.{LogRow, UsageRow, Key, Db}
use manager_key_pro.Store.Errors.{Env, Stmt, ok, null_str, coalesce, insert_usage}
use manager_key_pro.Store.Keys.{key_by_id}
use manager_key_pro.Billing.Pricing.{Floats, Pricing}
use manager_key_pro.Billing.Charge.{UsageRecord, charge}
use manager_key_pro.Billing.Recorded.{charge-Recorded}
use manager_key_pro.Logging.{Codec, Pending, effective_mode}
use manager_key_pro.Logging.Write.{mode_valid, write_usage}
use manager_key_pro.Logging.Cost.{write_usage-front, newest_usage-first}
use manager_key_pro.Plugin.Logged.{decoded, handle_usage}

-- A usage report that is charged writes one row to the log and one usage record, and the log shows the
-- wrong cost: the usage record costs what was charged, and the row of the log has the cost and the
-- source of the record u that was the key's newest before the report (an empty source as none); the
-- records in front of u are of other keys. The key is stored with an id that is not empty, its log mode
-- is one of the three, and the driver fails no statement.
pub handle_usage-previous_cost :
    (json : Codec) (fl : Floats) (env : Env) (pr : Pricing fl) (db : Db) (pending : Pending)
    (rec : UsageRecord) (k : Key) (newer : List UsageRow) (u : UsageRow) (older : List UsageRow)
    (charged : ℤ)
    → ((s : Stmt) → env.fails s ≡ false)
    → key_by_id env db rec.api_key ≡ ok k
    → is_empty k.id ≡ false
    → mode_valid (effective_mode env db k.id) ≡ true
    → db.usage_records ≡ newer ++ (u ∷ older)
    → All (λ (v : UsageRow). str_eq v.key_id k.id ≡ false) newer
    → str_eq u.key_id k.id ≡ true
    → (charge fl env pr (write_usage env db pending rec).0 rec).1 ≡ ok charged
    → let db' = (handle_usage json fl env pr db pending (decoded rec)).0 in
      (log : LogRow) × (own : UsageRow) × (db'.request_logs ≡ log ∷ db.request_logs)
      × (db'.usage_records ≡ own ∷ db.usage_records)
      × (log.key_id ≡ some k.id)
      × (own.key_id ≡ k.id)
      × (own.cost ≡ charged)
      × (log.cost ≡ u.cost)
      × (log.source ≡ null_str (coalesce u.source))
unfolding handle_usage key_by_id
handle_usage-previous_cost json fl env pr db pending rec k newer u older charged sound found named
      valid rows others mine paid =
    let (log, written, keyed, costs, from) =
      write_usage-front env db pending rec k sound found named valid in
    let newest = newest_usage-first env db k.id newer u older sound rows others mine in
    let db1 = (write_usage env db pending rec).0 in
    let still = ap (λ d. key_by_id env d rec.api_key) written ∙ found in
    let (own, usage, logs, recorded) =
      charge-Recorded fl env pr db1 rec k charged still (sound (insert_usage k.id)) paid in
    (
      log,
      own,
      rw (handle_usage, paid) (logs ∙ ap (λ (d : Db). d.request_logs) written),
      rw (handle_usage, paid) (usage ∙ ap (λ (d : Db). own ∷ d.usage_records) written),
      keyed,
      recorded.key_of,
      recorded.cost_is,
      costs ∙ ap (λ c. c.0) newest,
      from ∙ ap (λ c. null_str c.1) newest,
    )
