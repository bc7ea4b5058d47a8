-- ===== src/Tests/Admin.antt =====
-- Concrete runs of the administration, of the revealed keys and of the logs.
use manager_key_pro.Base.{
  ◌≡◌, ◌≢◌, refl, true, false, none, some, List, [], ◌∷◌, String, to_lower, str_eq, trim_space,
  exists_row, arith, select_first,
}
use manager_key_pro.Base.Int.{pos}
use manager_key_pro.Base.Hex.{hex_encode}
use manager_key_pro.Store.Types.{User, Key}
use manager_key_pro.Store.Errors.{ok, null_str, null_if_empty}
use manager_key_pro.Store.Users.{user_by_id, user_by_username}
use manager_key_pro.Store.Users.Accounts.{create_user}
use manager_key_pro.Store.Keys.{key_by_id}
use manager_key_pro.Store.Keys.Create.{
  create_key, new_key, key_row_valid, derive_plan_type, null_window_hours,
}
use manager_key_pro.Store.Settings.{get_setting}
use manager_key_pro.Crypto.{decrypt_key, encrypt_key, generate_key, hash_key, prefix}
use manager_key_pro.Issue.{Spec, issue_key, audit}
use manager_key_pro.Logging.{
  Fields, field, end, value, object, redact_map, redact_secrets, effective_mode, Codec,
}
use manager_key_pro.Logging.Redaction.{Clean, redact_secrets-Clean}
use manager_key_pro.Portal.{Session, Primitives, Portal, revealed}
use manager_key_pro.Portal.Sessions.{extract_token, find_session, get_session, with_session}
use manager_key_pro.Portal.Auth.{handle_login}
use manager_key_pro.Portal.Account.{own_key, reveal, handle_my_key_reveal}
use manager_key_pro.Portal.Ownership.{handle_my_key_reveal-owned}
use manager_key_pro.Portal.Revealed.{handle_my_key_reveal-issue_key}
use manager_key_pro.Management.{created_user}
use manager_key_pro.Management.Users.{CreateUserBody, admin_hash, create_user_for}
use manager_key_pro.Management.Passwords.{create_user_for-no_login}
use manager_key_pro.Management.Edits.{UpdateKeyBody, has_open_hold, update_key_for}
use manager_key_pro.Management.Owners.{SameOwners}
use manager_key_pro.Management.Transfer.{update_key_for-owners}
use manager_key_pro.Management.Config.{is_allowed, put_settings}
use manager_key_pro.Management.Allowed.{put_settings-keeps}
use manager_key_pro.Management.Routes.{routes, is_case, registered, is_registered}
use manager_key_pro.Management.Dispatch.{registered-routes}
use manager_key_pro.Tests.Setup.{codec, env, cipher, key, db}
use manager_key_pro.Tests.Visitors.{primitives, config, secret, visit, visitor, session, entered}

shows :
    (handle_my_key_reveal primitives config visit entered (visitor "Bearer ab12") "k1").1.0 ≡ 200
unfolding handle_my_key_reveal with_session get_session find_session select_first extract_token
    own_key reveal key_by_id decrypt_key
shows = refl

handle_my_key_reveal-owned_example :
    let req = visitor "Bearer ab12" in
    (sess : Session) × (k : Key) × (plain : String) × ((get_session primitives visit entered req).1
      ≡ some sess)
    × (key_by_id env (get_session primitives visit entered req).0.db "k1" ≡ ok k)
    × (str_eq k.user_id sess.user_id ≡ true)
    × (decrypt_key cipher k.key_cipher k.key_nonce secret ≡ ok plain)
    × ((handle_my_key_reveal primitives config visit entered req "k1").1 ≡ (200, revealed k plain))
handle_my_key_reveal-owned_example =
    handle_my_key_reveal-owned primitives config visit entered (visitor "Bearer ab12") "k1" shows

abbrev spec : Spec
spec = record {
  name = "bot";
  quota_kind = "token";
  quota_scope = "lifetime";
  quota_amount = pos 50;
  plan_type = "";
  window_hours = pos 0;
  expires_at = pos 0;
  rpm = pos 0;
  models = [];
  package_id = "";
}

abbrev issued : Key
issued = record key {
  id = "key_9";
  key_hash = "hash of sk-new";
  prefix = "sk-new";
  name = "bot";
  quota_kind = "token";
  quota_amount = pos 50;
  quota_used = pos 0;
  rpm = pos 60;
  created_at = pos 1000000;
  updated_at = pos 1000000;
}

issues : (issue_key cipher env db secret "u1" spec "admin").1 ≡ ok (issued, "sk-new")
unfolding issue_key user_by_id select_first generate_key encrypt_key hash_key prefix create_key
    new_key key_row_valid exists_row derive_plan_type null_window_hours key_by_id null_if_empty
    trim_space to_lower
issues = refl

finds :
    (get_session primitives visit
      (record entered { db = (issue_key cipher env db secret "u1" spec "admin").0 })
      (visitor "Bearer ab12")).1
    ≡ some session
unfolding get_session find_session select_first extract_token
finds = refl

handle_my_key_reveal-issue_key_example :
    (handle_my_key_reveal primitives config visit
      (record entered { db = (issue_key cipher env db secret "u1" spec "admin").0 })
      (visitor "Bearer ab12")
      "key_9").1
    ≡ (200, revealed issued "sk-new")
handle_my_key_reveal-issue_key_example =
    handle_my_key_reveal-issue_key primitives config env db "u1" spec "admin" visit
      (record entered { db = (issue_key cipher env db secret "u1" spec "admin").0 })
      (visitor "Bearer ab12") session issued "sk-new" refl issues refl finds refl refl refl

abbrev headers : Fields
headers =
    field "X-Api-Key" (value "sk-1")
      (field "nested" (object (field "Cookie" (value "c") end)) (field "model" (value "m") end))

abbrev decoder : Codec
decoder = record codec { decode = λ raw. some headers }

redact_secrets-Clean_example :
    (clean : Fields) × (redact_secrets decoder "headers" ≡ decoder.encode clean)
    × Clean clean
    × (redact_map clean ≡ clean)
redact_secrets-Clean_example = redact_secrets-Clean decoder "headers" headers refl refl

mode_known : effective_mode env db "k1" ≡ "standard"
unfolding effective_mode get_setting select_first
mode_known = refl

abbrev move : UpdateKeyBody
move = record {
  id = "k1";
  name = some "renamed";
  user_id = some "u2";
  allowed_models = [];
  allowed_providers = [];
  ip_allowlist = [];
  rpm = some (pos 5);
  log_mode = none;
  overflow = some true;
  set_providers_flag = false;
  set_models_flag = true;
  set_ip_flag = false;
}

held_open : has_open_hold env db "k1" ≡ true
unfolding has_open_hold exists_row
held_open = refl

update_key_for-owners_example : SameOwners db (update_key_for env db (some move)).0
update_key_for-owners_example = update_key_for-owners env db move held_open

abbrev wishes : List (String × String)
wishes = ("schema", "9") ∷ ("fx_mode", "auto") ∷ []

not_allowed : is_allowed "schema" ≡ false
unfolding is_allowed exists_row
not_allowed = refl

put_settings-keeps_example :
    get_setting env (put_settings env db (some wishes)).0 "schema" ≡ get_setting env db "schema"
put_settings-keeps_example = put_settings-keeps env "schema" wishes db not_allowed refl

registered-routes_example :
    exists_row (is_registered "GET" "/keys") registered ≡ exists_row (is_case "GET" "/keys") routes
registered-routes_example = registered-routes "GET" "/keys"

-- A digest of one byte.
abbrev hashing : Primitives
hashing = record primitives { cipher = record cipher { sha256_hex = λ p. "0a" } }

abbrev wanted : CreateUserBody
wanted = record { username = "carol"; password = "carol123"; role = "" }

abbrev carol : User
carol = record {
  id = "usr_9";
  username = "carol";
  password_hash = "0a";
  telegram_id = none;
  role = "user";
  status = "active";
  balance = pos 0;
  wallet_mode = "prepaid";
  credit_limit = pos 0;
  referral_code = "CODE";
  referred_by = "";
  failed_logins = pos 0;
  locked_until = pos 0;
  created_at = pos 1000000;
  last_login_at = pos 0;
}

makes : (create_user_for hashing.cipher env db "CODE" (some wanted)).1 ≡ created_user carol
unfolding create_user_for admin_hash hash_key create_user trim_space exists_row null_if_empty
    user_by_id select_first
makes = refl

abbrev open_door : Portal
open_door = record {
  db = (create_user_for hashing.cipher env db "CODE" (some wanted)).0;
  sessions = [];
}

there : user_by_username env open_door.db (trim_space "carol") ≡ ok carol
unfolding create_user_for admin_hash hash_key create_user trim_space exists_row null_if_empty
    user_by_id user_by_username select_first audit null_str
there = refl

digest_text : hash_key hashing.cipher "carol123" ≡ hex_encode (10 ∷ [])
unfolding hash_key hex_encode
digest_text = refl

create_user_for-no_login_example :
    (handle_login hashing config visit open_door
      (some (record { username = "carol"; password = "carol123" }))).1.0
    ≢ 200
create_user_for-no_login_example =
    create_user_for-no_login hashing config env db "CODE" wanted carol carol (10 ∷ []) visit
      open_door (record { username = "carol"; password = "carol123" }) makes digest_text
      (ground arith) there refl
