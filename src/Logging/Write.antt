-- ===== src/Logging/Write.antt =====
-- internal/logging/logging.go: the rows of request_logs.
use manager_key_pro.Base.{
  Bool, false, not, ◌&&◌, ◌||◌, Option, none, some, List, [], ◌∷◌, String, is_empty, str_eq,
  if◌then◌else◌, select_first,
}
use manager_key_pro.Base.Int.{ℤ, pos, add64, mul64, leb_ℤ}
use manager_key_pro.Store.Types.{LogRow, UsageRow, Db}
use manager_key_pro.Store.Errors.{
  ok, err, null_str, coalesce, Env, select_rows, insert_row, update_row,
}
use manager_key_pro.Store.Keys.{key_by_id}
use manager_key_pro.Store.Settings.{get_int}
use manager_key_pro.Billing.Charge.{UsageRecord}
use manager_key_pro.Logging.{Codec, Pending, redact_secrets, effective_mode, take_context}

-- `Entry`
pub record Entry : Type 0 where
  pub key_id : String
  pub user_id : String
  pub model : String
  pub alias : String
  pub alias_model : String
  pub provider : String
  pub status : String
  pub error_message : String
  pub upstream_status : ℤ
  pub input_tokens : ℤ
  pub output_tokens : ℤ
  pub cache_read : ℤ
  pub cache_write : ℤ
  pub cost : ℤ
  pub source : String
  pub attempt : ℤ
  pub request_context : String
  pub response_body : String

-- The end of the life of a row in full mode.
unfoldable pub purge_time : Env → Db → String → Option ℤ
purge_time env db mode =
    if str_eq mode "full"
    then some (
        add64 env.now (
          mul64 (mul64 (get_int env db "full_log_retention_hours" (pos 24)) (pos 3600)) (pos 1000)))
    else none

-- The CHECK on the mode.
abbrev pub mode_valid : String → Bool
mode_valid m = str_eq m "full" || str_eq m "standard" || str_eq m "error_only"

-- `INSERT INTO request_logs`, whose error is only printed.
unfoldable pub insert_log : Env → Db → LogRow → Db
insert_log env db row =
    if env.fails (insert_row "request_logs" (coalesce row.key_id)) || not (mode_valid row.mode)
    then db
    else record db { request_logs = row ∷ db.request_logs }

-- `nullInt`
unfoldable pub null_int : ℤ → Option ℤ
null_int n = if leb_ℤ n (pos 0) && leb_ℤ (pos 0) n then none else some n

-- The row of a usage record.
unfoldable pub usage_log : Env → Db → UsageRecord → String → String → String → String → LogRow
unfolding purge_time
usage_log env db rec kid uid mode context = record {
  key_id = null_str kid;
  user_id = null_str uid;
  mode = mode;
  model = null_str rec.model;
  alias = null_str rec.alias;
  alias_model =
      null_str
        (if not (is_empty rec.alias) && not (str_eq rec.alias rec.model) then rec.model else "");
  input_tokens = rec.detail.input_tokens;
  output_tokens = rec.detail.output_tokens;
  cache_read_tokens = rec.detail.cache_read_tokens;
  cache_creation_tokens = rec.detail.cache_creation_tokens;
  cost = pos 0;
  source = none;
  status = if rec.failed then "failed" else "ok";
  request_context = null_str context;
  response_body = none;
  error_code = none;
  upstream_status = some (pos 0);
  provider = null_str rec.provider;
  attempt = pos 0;
  upstream_account = none;
  purge_after = purge_time env db mode;
  created_at = env.now;
}

abbrev pub log_of : String → LogRow → Bool
log_of kid row = elim row.key_id [ none ↦ false | some k ↦ str_eq k kid ]

-- The update of the newest log row of a key, the one that `lastLogID` finds.
unfoldable pub update_newest : String → (LogRow → LogRow) → List LogRow → List LogRow
update_newest kid f [] = []
update_newest kid f (row ∷ rows) =
    let rest = update_newest kid f rows in if log_of kid row then f row ∷ rows else row ∷ rest

-- The cost and the source of the newest usage row of a key; 0 and "" where there is none.
unfoldable pub newest_usage : Env → Db → String → ℤ × String
newest_usage env db kid =
    if env.fails (select_rows "usage_records" kid)
    then (pos 0, "")
    else (elim (select_first (λ (u : UsageRow). str_eq u.key_id kid) db.usage_records) [
      | none ↦ (pos 0, "")
      | some u ↦ (u.cost, coalesce u.source)
    ])

-- The update that attaches the cost.
unfoldable pub attach_cost : Env → Db → String → String → Db
unfolding newest_usage update_newest
attach_cost env db kid account =
    let (cost, source) = newest_usage env db kid in
    if env.fails (select_rows "request_logs" kid) || env.fails (update_row "request_logs" kid)
    then db
    else record db {
      request_logs =
          update_newest kid
            (λ row. record row {
              cost = cost;
              source = null_str source;
              upstream_account = null_str account;
            })
            db.request_logs;
    }

-- `WriteUsage`
unfoldable pub write_usage : Env → Db → Pending → UsageRecord → Db × Pending
unfolding insert_log usage_log attach_cost take_context
write_usage env db pending rec = elim (key_by_id env db rec.api_key) [
  | err _ ↦ (db, pending)
  | ok key ↦
      let mode = effective_mode env db key.id in
      let (pending', context) =
        if str_eq mode "full" then take_context pending rec.request_id else (pending, "") in
      let db' = insert_log env db (usage_log env db rec key.id key.user_id mode context) in
      (attach_cost env db' key.id rec.auth_id, pending')
]

-- The row of a plain entry.
unfoldable pub entry_log : Codec → Env → Db → Entry → String → LogRow
unfolding purge_time null_int redact_secrets
entry_log json env db e mode = record {
  key_id = null_str e.key_id;
  user_id = null_str e.user_id;
  mode = mode;
  model = null_str e.model;
  alias = null_str e.alias;
  alias_model = null_str e.alias_model;
  input_tokens = e.input_tokens;
  output_tokens = e.output_tokens;
  cache_read_tokens = e.cache_read;
  cache_creation_tokens = e.cache_write;
  cost = e.cost;
  source = null_str e.source;
  status = e.status;
  request_context =
      null_str (if str_eq mode "full" then redact_secrets json e.request_context else "");
  response_body = null_str (if str_eq mode "full" then redact_secrets json e.response_body else "");
  error_code = null_str e.error_message;
  upstream_status = null_int e.upstream_status;
  provider = null_str e.provider;
  attempt = e.attempt;
  upstream_account = none;
  purge_after = purge_time env db mode;
  created_at = env.now;
}

-- `Write`
unfoldable pub write_entry : Codec → Env → Db → Entry → Db
unfolding insert_log entry_log
write_entry json env db e =
    let mode = effective_mode env db e.key_id in
    if str_eq mode "error_only" && str_eq e.status "ok"
    then db
    else insert_log env db (entry_log json env db e mode)

-- The key of a request's reservation; "" without one.
unfoldable pub reservation_key : Env → Db → String → String
reservation_key env db rid =
    if env.fails (select_rows "reservations" rid)
    then ""
    else (elim (select_first (λ r. str_eq r.reservation_id rid) db.reservations) [
      | none ↦ ""
      | some r ↦ r.key_id
    ])

-- The row of a failed request.
unfoldable pub failure_log : Env → String → String → String → String → LogRow
failure_log env kid mode outcome text = record {
  key_id = null_str kid;
  user_id = none;
  mode = mode;
  model = none;
  alias = none;
  alias_model = none;
  input_tokens = pos 0;
  output_tokens = pos 0;
  cache_read_tokens = pos 0;
  cache_creation_tokens = pos 0;
  cost = pos 0;
  source = none;
  status = outcome;
  request_context = none;
  response_body = none;
  error_code = null_str text;
  upstream_status = none;
  provider = some "";
  attempt = pos 0;
  upstream_account = none;
  purge_after = none;
  created_at = env.now;
}

-- `WriteFailure`
unfoldable pub write_failure : Env → Db → String → String → String → Db
unfolding reservation_key insert_log failure_log
write_failure env db rid outcome text =
    let kid = reservation_key env db rid in
    let mode = effective_mode env db kid in
    if str_eq mode "standard" then db else insert_log env db (failure_log env kid mode outcome text)
