-- ===== src/Store/Keys/Create.antt =====
-- internal/store/keys_repo.go: the creation of a key.
use manager_key_pro.Base.{
  ℕ, Bool, false, not, ◌&&◌, ◌||◌, List, ◌∷◌, String, is_empty, str_eq, if◌then◌else◌, exists_row,
}
use manager_key_pro.Base.Int.{ℤ, pos, leb_ℤ}
use manager_key_pro.Store.Types.{Key, Db}
use manager_key_pro.Store.Errors.{
  duplicate, sql_failure, wrap, Result, err, null_if_empty, coalesce, Env, insert_key,
}
use manager_key_pro.Store.Keys.{key_by_id}

-- `CreateKeyInput`
pub record CreateKeyInput : Type 0 where
  pub user_id : String
  pub key_hash : String
  pub key_cipher : List ℕ
  pub key_nonce : List ℕ
  pub prefix : String
  pub name : String
  pub quota_kind : String
  pub quota_scope : String
  pub quota_amount : ℤ
  pub plan_type : String
  pub window_hours : ℤ
  pub expires_at : ℤ
  pub package_id : String
  pub allowed_models : List String
  pub allowed_providers : List String
  pub ip_allowlist : List String
  pub rpm : ℤ

abbrev pub is_cyclic : String → Bool
is_cyclic scope =
    str_eq scope "hour" || str_eq scope "day" || str_eq scope "week" || str_eq scope "month"

-- `derivePlanType`
unfoldable pub derive_plan_type : String → String → String
derive_plan_type plan scope =
    if str_eq plan "windowed" || str_eq plan "lifetime"
    then plan
    else if is_cyclic scope
    then "windowed"
    else "lifetime"

-- `nullWindowHours`, as it is read back: NULL reads as 0.
unfoldable pub null_window_hours : ℤ → ℤ
null_window_hours h = if leb_ℤ h (pos 0) then pos 0 else h

-- The text, or a default where it is empty.
abbrev pub or_default : String → String → String
or_default s d = if is_empty s then d else s

-- The row that `Create` inserts, after its defaults.
unfoldable pub new_key : Env → CreateKeyInput → Key
unfolding derive_plan_type null_window_hours
new_key env input = record {
  id = env.new_id "key";
  user_id = input.user_id;
  key_hash = input.key_hash;
  key_cipher = input.key_cipher;
  key_nonce = input.key_nonce;
  prefix = input.prefix;
  name = or_default input.name "Unnamed key";
  status = "active";
  quota_kind = or_default input.quota_kind "credit";
  quota_scope = or_default input.quota_scope "lifetime";
  quota_amount = input.quota_amount;
  quota_used = pos 0;
  period_start = pos 0;
  period_end = pos 0;
  plan_type = derive_plan_type input.plan_type (or_default input.quota_scope "lifetime");
  window_hours = null_window_hours input.window_hours;
  expires_at = input.expires_at;
  overflow_to_wallet = false;
  package_id = coalesce (null_if_empty input.package_id);
  allowed_models = input.allowed_models;
  allowed_providers = input.allowed_providers;
  ip_allowlist = input.ip_allowlist;
  rpm = if leb_ℤ input.rpm (pos 0) then pos 60 else input.rpm;
  log_mode = "";
  pricing_overrides = "";
  created_at = env.now;
  updated_at = env.now;
  last_used_at = pos 0;
}

abbrev pub kind_valid : String → Bool
kind_valid s = str_eq s "credit" || str_eq s "token" || str_eq s "request" || str_eq s "unlimited"

-- The CHECKs and foreign keys on a new row of keys.
unfoldable pub key_row_valid : Db → Key → Bool
key_row_valid db k =
    kind_valid k.quota_kind
    && (str_eq k.quota_scope "lifetime" || is_cyclic k.quota_scope)
    && leb_ℤ (pos 0) k.quota_amount
    && exists_row (λ u. str_eq u.id k.user_id) db.users
    && (is_empty k.package_id || exists_row (λ p. str_eq p.id k.package_id) db.packages)

abbrev pub key_conflict : Key → Key → Bool
key_conflict n k = str_eq k.id n.id || str_eq k.key_hash n.key_hash

-- `KeysRepo.Create`
unfoldable pub create_key : Env → Db → CreateKeyInput → Db × Result Key
unfolding new_key key_row_valid
create_key env db input =
    let k = new_key env input in
    if env.fails (insert_key k.id) || not (key_row_valid db k)
    then (db, err (wrap sql_failure))
    else if exists_row (key_conflict k) db.keys
    then (db, err duplicate)
    else (let db' = record db { keys = k ∷ db.keys } in (db', key_by_id env db' k.id))
