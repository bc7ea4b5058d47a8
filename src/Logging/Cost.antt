-- ===== src/Logging/Cost.antt =====
-- The cost that a log row shows.
use manager_key_pro.Base.{
  List, All, select_first-behind, ◌++◌, ◌≡◌, refl, ◌∙◌, ap, true, false, some, ◌∷◌, String,
  is_empty, str_eq, str_eq_refl, if◌then◌else◌,
}
use manager_key_pro.Base.Int.{ℤ}
use manager_key_pro.Store.Types.{LogRow, UsageRow, Key, Db}
use manager_key_pro.Store.Errors.{
  Env, Stmt, ok, null_str, coalesce, insert_row, select_rows, update_row,
}
use manager_key_pro.Store.Keys.{key_by_id}
use manager_key_pro.Billing.Charge.{UsageRecord}
use manager_key_pro.Logging.{Pending, effective_mode, take_context}
use manager_key_pro.Logging.Write.{
  mode_valid, insert_log, usage_log, log_of, update_newest, newest_usage, attach_cost, write_usage,
}

insert_log-front :
    (env : Env) (db : Db) (row : LogRow)
    → ((s : Stmt) → env.fails s ≡ false)
    → mode_valid row.mode ≡ true
    → insert_log env db row ≡ record db { request_logs = row ∷ db.request_logs }
unfolding insert_log
insert_log-front env db row sound valid =
    rw (insert_log, sound (insert_row "request_logs" (coalesce row.key_id)), valid) refl

-- The row with the cost, the source and the account.
abbrev costed : ℤ × String → String → LogRow → LogRow
costed found account row = record row {
  cost = found.0;
  source = null_str found.1;
  upstream_account = null_str account;
}

attach_cost-front :
    (env : Env) (db : Db) (kid account : String) (row : LogRow)
    → ((s : Stmt) → env.fails s ≡ false)
    → log_of kid row ≡ true
    → attach_cost env (record db { request_logs = row ∷ db.request_logs }) kid account
      ≡ record db { request_logs = costed (newest_usage env db kid) account row ∷ db.request_logs }
unfolding attach_cost update_newest newest_usage null_str
attach_cost-front env db kid account row sound mine =
    rw
      (
        attach_cost,
        update_newest,
        sound (select_rows "request_logs" kid),
        sound (update_row "request_logs" kid),
        mine,
      )
      refl

-- The write of a usage row of the log puts one row in front of the log, and changes nothing else. The
-- row has the cost and the source that the newest usage record of the key has at the write.
pub write_usage-front :
    (env : Env) (db : Db) (pending : Pending) (rec : UsageRecord) (k : Key)
    → ((s : Stmt) → env.fails s ≡ false)
    → key_by_id env db rec.api_key ≡ ok k
    → is_empty k.id ≡ false
    → mode_valid (effective_mode env db k.id) ≡ true
    → (row : LogRow) × ((write_usage env db pending rec).0
        ≡ record db { request_logs = row ∷ db.request_logs })
      × (row.key_id ≡ some k.id)
      × (row.cost ≡ (newest_usage env db k.id).0)
      × (row.source ≡ null_str (newest_usage env db k.id).1)
unfolding write_usage usage_log null_str
write_usage-front env db pending rec k sound found named valid =
    let mode = effective_mode env db k.id in
    let context =
      (if str_eq mode "full" then take_context pending rec.request_id else (pending, "")).1 in
    let row = usage_log env db rec k.id k.user_id mode context in
    let named_id : row.key_id ≡ some k.id = rw (null_str, named) refl in
    let mine : log_of k.id row ≡ true =
      ap (λ o. log_of k.id (record row { key_id = o })) named_id ∙ str_eq_refl k.id in
    let front = insert_log-front env db row sound valid in
    let last = attach_cost-front env db k.id rec.auth_id row sound mine in
    (
      costed (newest_usage env db k.id) rec.auth_id row,
      rw (write_usage, found) (ap (λ (d : Db). attach_cost env d k.id rec.auth_id) front ∙ last),
      named_id,
      refl,
      refl,
    )

-- The newest usage record of a key is the first one of the key in the table.
pub newest_usage-first :
    (env : Env) (db : Db) (kid : String) (newer : List UsageRow) (u : UsageRow)
    (older : List UsageRow)
    → ((s : Stmt) → env.fails s ≡ false)
    → db.usage_records ≡ newer ++ (u ∷ older)
    → All (λ (v : UsageRow). str_eq v.key_id kid ≡ false) newer
    → str_eq u.key_id kid ≡ true
    → newest_usage env db kid ≡ (u.cost, coalesce u.source)
unfolding newest_usage
newest_usage-first env db kid newer u older sound rows others own =
    rw
      (
        newest_usage,
        sound (select_rows "usage_records" kid),
        rows,
        select_first-behind (λ (v : UsageRow). str_eq v.key_id kid) newer u older others own,
      )
      refl
