-- ===== src/Plugin/LogSteps.antt =====
-- The logs change no table but their own.
use manager_key_pro.Base.{String, str_eq, if◌then◌else◌, inl, inr, arith, ◌∷◌, delete_where}
use manager_key_pro.Store.Types.{LogRow, Db}
use manager_key_pro.Store.Errors.{Env, null_str}
use manager_key_pro.Store.Keys.{key_by_id}
use manager_key_pro.Store.Steps.{Steps, Steps-trans, here_at, Result-cases, logged-Steps}
use manager_key_pro.Billing.Pricing.{Floats, Pricing}
use manager_key_pro.Billing.Charge.{UsageRecord, charge}
use manager_key_pro.Billing.ChargeSteps.{charge-Steps}
use manager_key_pro.Logging.{Codec, Pending, effective_mode, take_context}
use manager_key_pro.Logging.Write.{
  Entry, newest_usage, update_newest, insert_log, usage_log, attach_cost, write_usage, entry_log,
  write_entry, reservation_key, failure_log, write_failure,
}
use manager_key_pro.Logging.Expiry.{is_past, purge}
use manager_key_pro.Plugin.Logged.{Payload, decoded, malformed, handle_usage}

insert_log-Steps : (env : Env) (db : Db) (row : LogRow) → Steps db (insert_log env db row)
unfolding insert_log
insert_log-Steps env db row = ground (arith, here_at db, logged-Steps db (row ∷ db.request_logs))

attach_cost-Steps :
    (env : Env) (db : Db) (kid account : String) → Steps db (attach_cost env db kid account)
unfolding attach_cost
attach_cost-Steps env db kid account =
    let (cost, source) = newest_usage env db kid in
    ground (
      arith,
      here_at db,
      logged-Steps db (
          update_newest kid
            (λ row. record row {
              cost = cost;
              source = null_str source;
              upstream_account = null_str account;
            })
            db.request_logs),
    )

write_usage-Steps :
    (env : Env) (db : Db) (pending : Pending) (rec : UsageRecord)
    → Steps db (write_usage env db pending rec).0
unfolding write_usage
write_usage-Steps env db pending rec = elim (Result-cases (key_by_id env db rec.api_key)) [
  | inl (e, q) ↦ ground (arith, q, here_at db)
  | inr (k, q) ↦
      let mode = effective_mode env db k.id in
      let context =
        (if str_eq mode "full" then take_context pending rec.request_id else (pending, "")).1 in
      let row = usage_log env db rec k.id k.user_id mode context in
      rw (write_usage, q)
        (Steps-trans (insert_log-Steps env db row)
          (attach_cost-Steps env (insert_log env db row) k.id rec.auth_id))
]

write_entry-Steps :
    (json : Codec) (env : Env) (db : Db) (e : Entry) → Steps db (write_entry json env db e)
unfolding write_entry
write_entry-Steps json env db e =
    let row = entry_log json env db e (effective_mode env db e.key_id) in
    ground (arith, here_at db, insert_log-Steps env db row)

pub write_failure-Steps :
    (env : Env) (db : Db) (rid outcome text : String)
    → Steps db (write_failure env db rid outcome text)
unfolding write_failure
write_failure-Steps env db rid outcome text =
    let kid = reservation_key env db rid in
    let row = failure_log env kid (effective_mode env db kid) outcome text in
    ground (arith, here_at db, insert_log-Steps env db row)

pub purge-Steps : (env : Env) (db : Db) → Steps db (purge env db).0
unfolding purge
purge-Steps env db =
    ground (arith, here_at db, logged-Steps db (delete_where (is_past env) db.request_logs))

pub handle_usage-Steps :
    (json : Codec) (fl : Floats) (env : Env) (pr : Pricing fl) (db : Db) (pending : Pending)
    (body : Payload)
    → Steps db (handle_usage json fl env pr db pending body).0
unfolding handle_usage
handle_usage-Steps json fl env pr db pending (malformed rec) = write_entry-Steps json env db _
handle_usage-Steps json fl env pr db pending (decoded rec) =
    let written = write_usage-Steps env db pending rec in
    let db1 = (write_usage env db pending rec).0 in
    let charged = Steps-trans written (charge-Steps fl env pr db1 rec) in
    elim (Result-cases (charge fl env pr db1 rec).1) [
      | inr (c, q) ↦ rw (handle_usage, q) charged
      | inl (e, q) ↦
          rw (handle_usage, q)
            (Steps-trans charged (write_entry-Steps json env (charge fl env pr db1 rec).0 _))
    ]
