-- ===== src/Tests/Visitors.antt =====
-- The portal and the requests of the concrete runs.
use Prim.Native.String.{len}
use manager_key_pro.Base.{ℕ, ◌%◌, true, false, none, some, [], ◌∷◌, List, String, ◌+++◌}
use manager_key_pro.Base.Int.{pos}
use manager_key_pro.Store.Types.{User}
use manager_key_pro.Portal.{Config, Portal, Session, Primitives, Visit, HttpRequest}
use manager_key_pro.Tests.Setup.{env, cipher, alice, bob, db}

-- A password hash that is one byte, the length of the password.
abbrev pub primitives : Primitives
primitives = record {
  cipher = cipher;
  argon = λ password salt. len password % 256 ∷ [];
  telegram_mac = λ token text. "mac of " +++ text;
  scan_int = λ text. some (pos 0);
}

abbrev pub secret : List ℕ
secret =
    0 ∷ 0 ∷ 0 ∷ 0 ∷ 0 ∷ 0 ∷ 0 ∷ 0 ∷ 0 ∷ 0 ∷ 0 ∷ 0 ∷ 0 ∷ 0 ∷ 0 ∷ 0 ∷ 0 ∷ 0 ∷ 0 ∷ 0 ∷ 0 ∷ 0 ∷ 0 ∷ 0
    ∷ 0 ∷ 0 ∷ 0 ∷ 0 ∷ 0 ∷ 0 ∷ 0 ∷ 0 ∷ []

abbrev pub config : Config
config = record {
  listen = "127.0.0.1:8788";
  base_url = "https://example.org";
  telegram_bot_token = "bot";
  registration_open = true;
  require_approval = false;
  min_password_len = pos 8;
  login_lock_after = pos 2;
  session_ttl_days = pos 14;
  secret_key = secret;
  webhook_secret = "hook";
}

abbrev pub visit : Visit
visit = record {
  env = env;
  clock = pos 1000000000000;
  token_bytes = 171 ∷ 18 ∷ [];
  salt = 7 ∷ [];
  code = "NEWCODE";
  retry = env;
  retry_code = "OTHER";
}

-- The stored hash of the password "alice123".
abbrev pub stored : String
stored = "$argon2id$v=19$m=65536,t=3,p=4$07$08"

abbrev pub member : User
member = record alice { password_hash = stored; referred_by = "" }

abbrev pub portal : Portal
portal = record { db = record db { users = member ∷ bob ∷ [] }; sessions = [] }

abbrev pub visitor : String → HttpRequest
visitor authorization = record {
  authorization = authorization;
  session_cookie = none;
  ref_cookie = none;
  ref_query = "";
  webhook_header = "";
  api_key = "";
  key_query = "";
}

-- A session of u1 under the token "ab12".
abbrev pub session : Session
session = record { token_hash = "hash of ab12"; user_id = "u1"; expires_at = pos 2000000000000 }

abbrev pub entered : Portal
entered = record portal { sessions = ("hash of ab12", session) ∷ [] }
