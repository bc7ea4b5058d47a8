-- ===== src/Store/Types.antt =====
-- The rows of internal/store/schema.sql, migrate_v2.go and the repositories' structs.
-- A nullable column that the program always reads through COALESCE holds the value so read.
-- JSON columns with a list of strings hold the list. Tables whose order is never read by position
-- (credit_ledger, usage_records, earnings, logs) hold their newest row first; reservations stand in
-- the order of insertion, which is the order in which SQLite returns rows of one created_at.
use manager_key_pro.Base.{ℕ, Bool, Option, List, String}
use manager_key_pro.Base.Int.{ℤ}

-- One row of users.
pub record User : Type 0 where
  pub id : String
  pub username : String
  pub password_hash : String
  pub telegram_id : Option String
  pub role : String
  pub status : String
  pub balance : ℤ
  pub wallet_mode : String
  pub credit_limit : ℤ
  pub referral_code : String
  pub referred_by : String
  pub failed_logins : ℤ
  pub locked_until : ℤ
  pub created_at : ℤ
  pub last_login_at : ℤ

-- One row of keys.
pub record Key : Type 0 where
  pub id : String
  pub user_id : String
  pub key_hash : String
  pub key_cipher : List ℕ
  pub key_nonce : List ℕ
  pub prefix : String
  pub name : String
  pub status : String
  pub quota_kind : String
  pub quota_scope : String
  pub quota_amount : ℤ
  pub quota_used : ℤ
  pub period_start : ℤ
  pub period_end : ℤ
  pub plan_type : String
  pub window_hours : ℤ
  pub expires_at : ℤ
  pub overflow_to_wallet : Bool
  pub package_id : String
  pub allowed_models : List String
  pub allowed_providers : List String
  pub ip_allowlist : List String
  pub rpm : ℤ
  pub log_mode : String
  pub pricing_overrides : String
  pub created_at : ℤ
  pub updated_at : ℤ
  pub last_used_at : ℤ

-- One row of credit_ledger.
pub record LedgerRow : Type 0 where
  pub user_id : String
  pub key_id : Option String
  pub delta : ℤ
  pub reason : String
  pub ref_id : Option String
  pub channel : Option String
  pub balance_after : ℤ
  pub created_at : ℤ

-- One row of reservations.
pub record Reservation : Type 0 where
  pub reservation_id : String
  pub key_id : String
  pub user_id : String
  pub model : String
  pub hold : ℤ
  pub source : String
  pub status : String
  pub created_at : ℤ

-- One row of usage_records.
pub record UsageRow : Type 0 where
  pub key_id : String
  pub user_id : String
  pub provider : String
  pub model : String
  pub requested_name : String
  pub upstream_account : String
  pub input_tokens : ℤ
  pub output_tokens : ℤ
  pub reasoning_tokens : ℤ
  pub cached_tokens : ℤ
  pub cache_read_tokens : ℤ
  pub cache_creation_tokens : ℤ
  pub cost : ℤ
  pub source : Option String
  pub billed : ℤ
  pub client_request_id : Option String
  pub status : String
  pub ttft_ms : Option ℤ
  pub latency_ms : Option ℤ
  pub created_at : ℤ

-- One row of packages.
pub record Package : Type 0 where
  pub id : String
  pub name : String
  pub description : String
  pub quota_kind : String
  pub quota_scope : String
  pub quota_amount : ℤ
  pub plan_type : String
  pub window_hours : ℤ
  pub duration_days : ℤ
  pub price_credit : ℤ
  pub allowed_models : List String
  pub rpm : ℤ
  pub visible : Bool
  pub created_at : ℤ

-- One row of orders.
pub record Order : Type 0 where
  pub id : String
  pub user_id : String
  pub package_id : String
  pub key_id : Option String
  pub kind : String
  pub price_credit : ℤ
  pub status : String
  pub created_at : ℤ

-- One row of referral_earnings.
pub record Earning : Type 0 where
  pub user_id : String
  pub from_user_id : String
  pub tier : ℕ
  pub mode : String
  pub base_amount : ℤ
  pub reward : ℤ
  pub ref_id : Option String
  pub created_at : ℤ

-- One row of key_account_bindings.
pub record Binding : Type 0 where
  pub id : ℤ
  pub key_id : String
  pub account_ref : String
  pub account_type : String
  pub share_percent : ℤ
  pub priority : ℤ
  pub enabled : Bool

-- One row of audit_log.
pub record AuditRow : Type 0 where
  pub user_id : Option String
  pub key_id : Option String
  pub actor : String
  pub action : String
  pub created_at : ℤ

-- One row of key_quota_history: the quota and expiry before and after.
pub record HistoryRow : Type 0 where
  pub key_id : String
  pub action : String
  pub amount_before : ℤ
  pub expires_before : ℤ
  pub amount_after : ℤ
  pub expires_after : ℤ
  pub actor : String
  pub created_at : ℤ

-- One row of request_logs.
pub record LogRow : Type 0 where
  pub key_id : Option String
  pub user_id : Option String
  pub mode : String
  pub model : Option String
  pub alias : Option String
  pub alias_model : Option String
  pub input_tokens : ℤ
  pub output_tokens : ℤ
  pub cache_read_tokens : ℤ
  pub cache_creation_tokens : ℤ
  pub cost : ℤ
  pub source : Option String
  pub status : String
  pub request_context : Option String
  pub response_body : Option String
  pub error_code : Option String
  pub upstream_status : Option ℤ
  pub provider : Option String
  pub attempt : ℤ
  pub upstream_account : Option String
  pub purge_after : Option ℤ
  pub created_at : ℤ

-- The database.
pub record Db : Type 0 where
  pub users : List User
  pub keys : List Key
  pub ledger : List LedgerRow
  pub reservations : List Reservation
  pub usage_records : List UsageRow
  pub packages : List Package
  pub orders : List Order
  pub earnings : List Earning
  pub bindings : List Binding
  pub settings : List (String × String)
  pub audit_log : List AuditRow
  pub quota_history : List HistoryRow
  pub request_logs : List LogRow
