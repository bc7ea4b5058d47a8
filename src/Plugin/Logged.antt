-- ===== src/Plugin/Logged.antt =====
-- hooks.go: the hooks with what they write to the request log.
use manager_key_pro.Base.{not, ◌&&◌, [], String, is_empty, str_eq, if◌then◌else◌}
use manager_key_pro.Base.Int.{pos}
use manager_key_pro.Store.Types.{Db}
use manager_key_pro.Store.Errors.{Error, message, wrap, ok, err, Env}
use manager_key_pro.Store.Keys.{key_by_hash}
use manager_key_pro.Crypto.{Cipher, hash_key}
use manager_key_pro.Policy.{Seen}
use manager_key_pro.Billing.Pricing.{Floats, Pricing}
use manager_key_pro.Billing.Charge.{UsageRecord, charge}
use manager_key_pro.Logging.{Codec, Pending, capture_request}
use manager_key_pro.Logging.Write.{Entry, write_usage, write_entry, write_failure}
use manager_key_pro.Logging.Expiry.{purge}
use manager_key_pro.Plugin.Request.{extract_key}
use manager_key_pro.Plugin.Hooks.{
  InterceptRequest, Gate, passed, terminated, intercept_before, complete,
}

-- The capture of a request that the gates pass and whose key is known.
unfoldable pub capture :
    Codec → Cipher → Env → Db → Pending → InterceptRequest → String → Gate → Pending
capture json cr env db pending req body (terminated _) = pending
capture json cr env db pending req body passed =
    let plain = extract_key req.headers [] in
    if is_empty plain then pending else (elim (key_by_hash env db (hash_key cr plain)) [
      | err _ ↦ pending
      | ok key ↦ capture_request json env db pending key.id req.request_id body
    ])

-- `handleInterceptBefore`, for a request with a body.
unfoldable pub handle_intercept_before :
    Codec
    → Cipher
    → (fl : Floats) → Env
    → Pricing fl
    → Db
    → Seen
    → Pending
    → InterceptRequest
    → String
    → Db × Seen × Pending × Gate
unfolding capture
handle_intercept_before json cr fl env pr db seen pending req body =
    let (db', seen', gate) = intercept_before cr fl env pr db seen req in
    (db', seen', capture json cr env db pending req body gate, gate)

-- The entry of a failed charge.
unfoldable pub charge_fault : Codec → String → String → String → Error → Entry
charge_fault json kid model provider e = record {
  key_id = kid;
  user_id = "";
  model = model;
  alias = "";
  alias_model = "";
  provider = provider;
  status = "failed";
  error_message = json.error_text e;
  upstream_status = pos 0;
  input_tokens = pos 0;
  output_tokens = pos 0;
  cache_read = pos 0;
  cache_write = pos 0;
  cost = pos 0;
  source = "";
  attempt = pos 0;
  request_context = "";
  response_body = "";
}

-- The payload of `handleUsage`: a record, or what a payload that does not parse has filled of one.
pub data Payload : Type 0 where
  decoded malformed : UsageRecord → Payload

-- `handleUsage`: the log row is written before the charge.
unfoldable pub handle_usage :
    Codec → (fl : Floats) → Env → Pricing fl → Db → Pending → Payload → Db × Pending
unfolding charge_fault
handle_usage json fl env pr db pending (malformed rec) = (
  write_entry json env db
      (charge_fault json rec.api_key rec.model rec.provider (wrap (message "unmarshal usage"))),
  pending,
)
handle_usage json fl env pr db pending (decoded rec) =
    let (db1, pending') = write_usage env db pending rec in
    let (db2, r) = charge fl env pr db1 rec in
    elim r [
      | ok _ ↦ (db2, pending')
      | err e ↦ (
        write_entry json env db2 (charge_fault json rec.api_key rec.model rec.provider (wrap e)),
        pending',
      )
    ]

-- `handleComplete`: the hold, the failure's row, and the purge.
unfoldable pub handle_complete : Env → Db → String → String → String → Db
handle_complete env db rid outcome text =
    let db1 = complete env db rid outcome in
    let db2 =
      if not (str_eq outcome "succeeded") && not (is_empty text)
      then write_failure env db1 rid outcome text
      else db1 in
    (purge env db2).0
