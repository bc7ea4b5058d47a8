-- ===== src/Tests/Setup.antt =====
-- The database and the parameters of the concrete runs.
use manager_key_pro.Base.{true, false, Option, none, some, List, [], ◌∷◌, String, ◌+++◌, ◌/◌}
use manager_key_pro.Base.Int.{ℤ, pos, ◌+ℤ◌, ◌*ℤ◌, ltb_ℤ, leb_ℤ, pos_part, div64}
use manager_key_pro.Store.Types.{User, Key, LedgerRow, Reservation, Package, Binding, Db}
use manager_key_pro.Store.Errors.{Env}
use manager_key_pro.Crypto.{Cipher}
use manager_key_pro.Billing.Pricing.{Floats, Pricing, Price}
use manager_key_pro.Billing.Charge.{UsageRecord}
use manager_key_pro.Logging.{Codec}
use manager_key_pro.Plugin.Hooks.{InterceptRequest}
use manager_key_pro.Plugin.Request.{Headers}

-- A driver that fails nothing.
abbrev pub env : Env
env = record { now = pos 1000000; new_id = λ p. p +++ "_9"; fails = λ _. false }

-- Integers in place of floating-point numbers.
abbrev pub floats : Floats
floats = record {
  F = ℤ;
  of_int = λ n. n;
  to_int = λ x. x;
  ratio = λ a b. pos (a / b);
  add = λ a b. a +ℤ b;
  mul = λ a b. a *ℤ b;
  div = λ a b. div64 a (pos_part b);
  less = ltb_ℤ;
  less_eq = leb_ℤ;
}

-- A cipher that hides nothing: it opens to one text.
abbrev pub cipher : Cipher
cipher = record {
  seal = λ secret nonce p. [];
  unseal = λ secret nonce c. some "sk-new";
  sha256_hex = λ p. "hash of " +++ p;
  random = [];
  nonce = [];
  base32 = λ b. "NEW";
}

-- A JSON codec that reads no text.
abbrev pub codec : Codec
codec = record { decode = λ raw. none; encode = λ fs. "{}"; error_text = λ e. "error" }

abbrev pub no_tiers : String → Option (List ℤ)
no_tiers _ = some (pos 10 ∷ pos 3 ∷ [])

abbrev user : String → String → ℤ → String → User
user uid name balance upline = record {
  id = uid;
  username = name;
  password_hash = "";
  telegram_id = none;
  role = "user";
  status = "active";
  balance = balance;
  wallet_mode = "prepaid";
  credit_limit = pos 0;
  referral_code = name;
  referred_by = upline;
  failed_logins = pos 0;
  locked_until = pos 0;
  created_at = pos 1;
  last_login_at = pos 0;
}

abbrev pub alice : User
alice = user "u1" "alice" (pos 500) "u2"

abbrev pub bob : User
bob = user "u2" "bob" (pos 0) "u1"

abbrev pub key : Key
key = record {
  id = "k1";
  user_id = "u1";
  key_hash = "hash of sk-1";
  key_cipher = [];
  key_nonce = [];
  prefix = "sk-1";
  name = "first";
  status = "active";
  quota_kind = "credit";
  quota_scope = "lifetime";
  quota_amount = pos 1000;
  quota_used = pos 300;
  period_start = pos 0;
  period_end = pos 0;
  plan_type = "lifetime";
  window_hours = pos 0;
  expires_at = pos 0;
  overflow_to_wallet = false;
  package_id = "";
  allowed_models = [];
  allowed_providers = [];
  ip_allowlist = [];
  rpm = pos 2;
  log_mode = "";
  pricing_overrides = "";
  created_at = pos 1;
  updated_at = pos 1;
  last_used_at = pos 0;
}

abbrev pub opening : LedgerRow
opening = record {
  user_id = "u1";
  key_id = none;
  delta = pos 500;
  reason = "recharge";
  ref_id = some "tx1";
  channel = some "telegram";
  balance_after = pos 500;
  created_at = pos 1;
}

-- An open hold of 200 on the key's quota.
abbrev pub held : Reservation
held = record {
  reservation_id = "r1";
  key_id = "k1";
  user_id = "u1";
  model = "claude-sonnet-5";
  hold = pos 200;
  source = "key_quota";
  status = "open";
  created_at = pos 2;
}

abbrev pub month : Package
month = record {
  id = "p1";
  name = "month";
  description = "";
  quota_kind = "credit";
  quota_scope = "month";
  quota_amount = pos 100;
  plan_type = "windowed";
  window_hours = pos 0;
  duration_days = pos 30;
  price_credit = pos 120;
  allowed_models = [];
  rpm = pos 60;
  visible = true;
  created_at = pos 1;
}

abbrev pub binding : String → String → ℤ → Binding
binding kid ref share = record {
  id = pos 1;
  key_id = kid;
  account_ref = ref;
  account_type = "";
  share_percent = share;
  priority = pos 0;
  enabled = true;
}

abbrev pub db : Db
db = record {
  users = alice ∷ bob ∷ [];
  keys = key ∷ [];
  ledger = opening ∷ [];
  reservations = held ∷ [];
  usage_records = [];
  packages = month ∷ [];
  orders = [];
  earnings = [];
  bindings = binding "k0" "other" (pos 50) ∷ [];
  settings = ("referral_mode", "percent") ∷ ("referral_tiers", "[10,3]") ∷ [];
  audit_log = [];
  quota_history = [];
  request_logs = [];
}

abbrev pub pricing : Pricing floats
pricing = record { table = []; range = [] }

abbrev pub price : Price ℤ
price = record {
  model = "m1";
  input_per_mtok = pos 2000000;
  output_per_mtok = pos 3000000;
  reasoning_per_mtok = pos 0;
  cache_read_per_mtok = pos 0;
  cache_write_per_mtok = pos 0;
  per_call_credit = pos 0;
  hold_multiplier = pos 1;
}

abbrev pub usage : ℤ → UsageRecord
usage tokens = record {
  provider = "claude";
  model = "m1";
  alias = "m1";
  api_key = "k1";
  auth_id = "acc";
  failed = false;
  request_id = "r1";
  latency = pos 0;
  ttft = pos 0;
  detail = record {
    input_tokens = tokens;
    output_tokens = pos 0;
    reasoning_tokens = pos 0;
    cached_tokens = pos 0;
    cache_read_tokens = pos 0;
    cache_creation_tokens = pos 0;
    total_tokens = tokens;
  };
}

abbrev pub headers : Headers
headers = ("authorization", "Bearer sk-1" ∷ []) ∷ []

abbrev pub request : InterceptRequest
request = record {
  request_id = "r2";
  model = "claude-sonnet-5";
  requested_model = "";
  headers = headers;
}
