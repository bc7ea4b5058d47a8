-- ===== src/Portal.antt =====
-- internal/portal: the user-facing server, its configuration, its state, what a request holds and what
-- an answer says (server.go, handlers.go).
pub mod Password
pub mod Sessions
pub mod Auth
pub mod Telegram
pub mod Account
pub mod Reads
pub mod Lifetime
pub mod Granted
pub mod Lockout
pub mod Locked
pub mod Referred
pub mod Ownership
pub mod Revealed
pub mod Changes
use manager_key_pro.Base.{ℕ, Bool, Option, List, String, is_empty, if◌then◌else◌}
use manager_key_pro.Base.Int.{ℤ, pos, leb_ℤ}
use manager_key_pro.Store.Types.{User, Key, LedgerRow, UsageRow, Package, Order, Db}
use manager_key_pro.Store.Errors.{Error, Env}
use manager_key_pro.Crypto.{Cipher}

-- `Config`
pub record Config : Type 0 where
  pub listen : String
  pub base_url : String
  pub telegram_bot_token : String
  pub registration_open : Bool
  pub require_approval : Bool
  pub min_password_len : ℤ
  pub login_lock_after : ℤ
  pub session_ttl_days : ℤ
  pub secret_key : List ℕ
  pub webhook_secret : String

abbrev positive_or : ℤ → ℤ → ℤ
positive_or n d = if leb_ℤ n (pos 0) then d else n

-- The defaults that `New` fills in.
unfoldable pub with_defaults : Config → Config
with_defaults cfg = record cfg {
  listen = if is_empty cfg.listen then "127.0.0.1:8788" else cfg.listen;
  min_password_len = positive_or cfg.min_password_len (pos 8);
  login_lock_after = positive_or cfg.login_lock_after (pos 5);
  session_ttl_days = positive_or cfg.session_ttl_days (pos 14);
}

-- `session`; the time is in nanoseconds.
pub record Session : Type 0 where
  pub token_hash : String
  pub user_id : String
  pub expires_at : ℤ

-- `Server`: the database and the sessions by the hash of their token.
pub record Portal : Type 0 where
  pub db : Db
  pub sessions : List (String × Session)

-- The functions of golang.org/x/crypto/argon2 and of crypto/hmac, beside those for the keys:
-- `telegram_mac token data` is the hexadecimal HMAC of the data under the token's SHA-256; `scan_int` is
-- `fmt.Sscanf` with %d.
pub record Primitives : Type 0 where
  pub cipher : Cipher
  pub argon : String → List ℕ → List ℕ
  pub telegram_mac : String → String → String
  pub scan_int : String → Option ℤ

-- What one call draws from outside: the database's environment, `time.Now()` in nanoseconds, the random
-- bytes of a session token and of a salt, and a referral code. `retry` and `retry_code` are for the
-- second account that a Telegram login tries to create.
pub record Visit : Type 0 where
  pub env : Env
  pub clock : ℤ
  pub token_bytes : List ℕ
  pub salt : List ℕ
  pub code : String
  pub retry : Env
  pub retry_code : String

-- What the handlers read from a request's headers, cookies and query ("" for a missing header or query
-- parameter).
pub record HttpRequest : Type 0 where
  pub authorization : String
  pub session_cookie : Option String
  pub ref_cookie : Option String
  pub ref_query : String
  pub webhook_header : String
  pub api_key : String
  pub key_query : String

-- The JSON bodies of the answers: an error's text, an error value, or the named fields.
pub data Body : Type 0 where
  refused : String → Body
  failure : Error → Body
  inactive : String → Body
  awaiting : String → String → Body
  registered : User → String → Body
  welcome : User → String → Body
  done : String → Body
  profile : User → Body
  key_list : List Key → Body
  revealed : Key → String → Body
  wallet : User → List LedgerRow → Body
  usage : List UsageRow → Body
  referrals : String → String → ℕ → ℤ → Body
  package_list : List Package → Body
  bought : String → String → String → Body
  order_list : List Order → Body
  credited : String → Body
  checked : Key → ℤ → Body

-- An answer: the HTTP status and the body.
abbrev pub Reply : Type 0
Reply = ℕ × Body

abbrev pub not_authenticated : Reply
not_authenticated = (401, refused "not authenticated")

abbrev pub internal_error : Error → Reply
internal_error e = (500, failure e)
