-- ===== src/Logging.antt =====
-- internal/logging/logging.go: the redaction of secrets, the mode of a key's log, and the captured
-- request contexts. encoding/json is a parameter.
pub mod Redaction
pub mod Write
pub mod Expiry
pub mod Cost
use Prim.Native.String.{len, slice}
use manager_key_pro.Base.{
  Bool, false, not, ◌||◌, Option, none, some, List, [], ◌∷◌, String, ◌+++◌, is_empty, str_eq,
  to_lower, contains, if◌then◌else◌, leb, ltb, length, select_first, delete_where,
}
use manager_key_pro.Store.Types.{Db}
use manager_key_pro.Store.Errors.{Error, Env, select_rows}
use manager_key_pro.Store.Keys.{has_key_id}
use manager_key_pro.Store.Settings.{get_setting}

-- A decoded JSON value; the fields of an object stand in the order of the range over its map. A value
-- that is neither an object nor an array is its text.
mutual
  pub data Json : Type 0 where
    value : String → Json
    array : Items → Json
    object : Fields → Json

  pub data Items : Type 0 where
    empty : Items
    item : Json → Items → Items

  pub data Fields : Type 0 where
    end : Fields
    field : String → Json → Fields → Fields

-- `json.Unmarshal` into a map, `json.Marshal`, and the text of an error.
pub record Codec : Type 0 where
  pub decode : String → Option Fields
  pub encode : Fields → String
  pub error_text : Error → String

-- A name that holds one of `secretPatterns`; "x-api-key" and "x-goog-api-key" hold "api-key".
unfoldable pub is_secret : String → Bool
is_secret name =
    let low = to_lower name in
    contains low "authorization"
    || contains low "api-key"
    || contains low "apikey"
    || contains low "x-api-key"
    || contains low "x-goog-api-key"
    || contains low "cookie"
    || contains low "bearer"

abbrev pub hidden : Json
hidden = value "[REDACTED]"

-- `redactMap`: the recursion enters objects, and no arrays.
unfoldable mutual
  pub redact_map : Fields → Fields
  redact_map end = end
  redact_map (field k v rest) =
      let inner = redact_object v in
      field k (if is_secret k then hidden else inner) (redact_map rest)

  pub redact_object : Json → Json
  redact_object (value text) = value text
  redact_object (array items) = array items
  redact_object (object fields) = object (redact_map fields)

-- `RedactSecrets`: a text that is no JSON object is left as it is.
unfoldable pub redact_secrets : Codec → String → String
unfolding redact_map
redact_secrets json raw =
    if is_empty raw
    then ""
    else (elim (json.decode raw) [ none ↦ raw | some fields ↦ json.encode (redact_map fields) ])

-- `cap`
unfoldable pub cap : String → String
cap raw = if leb (len raw) 32768 then raw else slice raw 0 32768 +++ "…[truncated]"

-- `EffectiveMode`
unfoldable pub effective_mode : Env → Db → String → String
effective_mode env db kid =
    let global = get_setting env db "log_mode_global" in
    let general = if is_empty global then "standard" else global in
    if is_empty kid || env.fails (select_rows "keys" kid)
    then general
    else (elim (select_first (has_key_id kid) db.keys) [
      | none ↦ general
      | some k ↦ if is_empty k.log_mode then general else k.log_mode
    ])

-- `pendingContext`: the captured contexts by their request.
abbrev pub Pending : Type 0
Pending = List (String × String)

abbrev pub of_request : String → String × String → Bool
of_request rid entry = str_eq entry.0 rid

-- `CaptureRequest`
unfoldable pub capture_request : Codec → Env → Db → Pending → String → String → String → Pending
unfolding effective_mode redact_secrets cap
capture_request json env db pending kid rid body =
    if is_empty rid || is_empty body || not (str_eq (effective_mode env db kid) "full")
    then pending
    else (let room = if ltb 512 (length pending) then [] else pending in
        (rid, cap (redact_secrets json body)) ∷ delete_where (of_request rid) room)

-- `takeContext`
unfoldable pub take_context : Pending → String → Pending × String
take_context pending rid = if is_empty rid then (pending, "") else (
  delete_where (of_request rid) pending,
  elim (select_first (of_request rid) pending) [ none ↦ "" | some (_, text) ↦ text ],
)
