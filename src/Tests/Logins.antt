-- ===== src/Tests/Logins.antt =====
-- Concrete runs of the portal.
use manager_key_pro.Base.{
  if◌then◌else◌, ◌≡◌, ◌↔◌, refl, true, false, none, some, [], ◌∷◌, String, ◌+++◌, str_eq,
  trim_space, arith, select_first, split, exists_row, update_where,
}
use manager_key_pro.Base.Int.{add64, leb_ℤ, ◌+ℤ◌, wrap64}
use manager_key_pro.Base.Hex.{hex_encode, hex_decode}
use manager_key_pro.Store.Types.{User}
use manager_key_pro.Store.Errors.{ok, require_one_row}
use manager_key_pro.Store.Users.{user_by_username}
use manager_key_pro.Portal.{refused, welcome}
use manager_key_pro.Issue.{audit}
use manager_key_pro.Store.Users.Accounts.{set_password}
use manager_key_pro.Management.{done}
use manager_key_pro.Management.Users.{reset_password}
use manager_key_pro.Management.Reset.{reset_password-login}
use manager_key_pro.Portal.Password.{
  hash_password, same_bytes, verify_password, verify_password-hash_password,
}
use manager_key_pro.Portal.Sessions.{
  create_session, get_session, new_session, lifetime, extract_token, handle_logout,
}
use manager_key_pro.Portal.Auth.{Credentials, handle_login, is_locked, enter}
use manager_key_pro.Portal.Lifetime.{create_session-lifetime, handle_logout-keeps}
use manager_key_pro.Portal.Granted.{Entered, handle_login-granted}
use manager_key_pro.Portal.Lockout.{Stored, Wrong, login, failed}
use manager_key_pro.Portal.Locked.{logins, logins-lock}
use manager_key_pro.Portal.Telegram.{attach_referral}
use manager_key_pro.Portal.Referred.{Referred, attach_referral-Referred}
use manager_key_pro.Tests.Setup.{env}
use manager_key_pro.Tests.Visitors.{primitives, config, visit, member, portal, visitor}

verify_password-hash_password_example :
    verify_password primitives.argon (hash_password primitives.argon (7 ∷ []) "alice123") "alice124"
      ≡ true
    ↔ primitives.argon "alice124" (7 ∷ []) ≡ primitives.argon "alice123" (7 ∷ [])
verify_password-hash_password_example =
    verify_password-hash_password primitives.argon (7 ∷ []) "alice123" "alice124" (ground arith)
      (ground arith)

abbrev alice_in : Credentials
alice_in = record { username = " alice "; password = "alice123" }

alice_enters : (handle_login primitives config visit portal (some alice_in)).1.0 ≡ 200
unfolding handle_login user_by_username select_first trim_space verify_password split hex_decode
    same_bytes enter create_session
alice_enters = refl

handle_login-granted_example :
    (u : User) × (user_by_username env portal.db (trim_space " alice ") ≡ ok u)
    × (is_locked env u ≡ false)
    × (verify_password primitives.argon u.password_hash "alice123" ≡ true)
    × Entered primitives config visit u
        (handle_login primitives config visit portal (some alice_in))
handle_login-granted_example =
    handle_login-granted primitives config visit portal alice_in alice_enters

abbrev bearing : String
bearing = "Bearer ab12"

carries :
    (visitor bearing).authorization
    ≡ "Bearer " +++ (create_session primitives config visit portal "u1").1
unfolding create_session hex_encode
carries = refl

create_session-lifetime_example :
    let (portal', token) = create_session primitives config visit portal "u1" in
    let s = new_session config visit (primitives.cipher.sha256_hex token) "u1" in
    let found = (get_session primitives visit portal' (visitor bearing)).1 in
    found ≡ (if leb_ℤ visit.clock (visit.clock +ℤ lifetime config) then some s else none)
create_session-lifetime_example =
    create_session-lifetime primitives config visit visit portal "u1" (visitor bearing) 171
      (18 ∷ []) refl carries

hashed_apart :
    str_eq
      (extract_token (visitor bearing))
      (primitives.cipher.sha256_hex (extract_token (visitor bearing)))
    ≡ false
unfolding extract_token
hashed_apart = refl

handle_logout-keeps_example :
    let opened = (create_session primitives config visit portal "u1").0 in
    (get_session primitives visit (handle_logout opened (visitor bearing)).0 (visitor bearing)).1
    ≡ (get_session primitives visit opened (visitor bearing)).1
handle_logout-keeps_example =
    handle_logout-keeps primitives visit (create_session primitives config visit portal "u1").0
      (visitor bearing) hashed_apart

alice-Stored : Stored portal "alice" "u1" (failed 0 member)
unfolding select_first trim_space
alice-Stored = record { by_name = refl; by_id = refl }

guess-Wrong : Wrong primitives member visit "guess"
unfolding verify_password split hex_decode same_bytes
guess-Wrong = record { sound = λ s. refl; wrong = refl }

logins-lock_example :
    let portal' =
      (login primitives config visit
        (logins primitives config "alice" ((visit, "guess") ∷ []) portal)
        "alice"
        "guess").0 in
    login primitives config visit portal' "alice" "alice123"
    ≡ (portal', (429, refused "account locked"))
unfolding add64 wrap64 ◌+ℤ◌
logins-lock_example =
    logins-lock primitives config "alice" ((visit, "guess") ∷ []) visit visit "guess" "alice123"
      portal member refl (ground arith) alice-Stored (guess-Wrong, tt) guess-Wrong refl refl refl

attach_referral-Referred_example :
    Referred portal.db.users (attach_referral env portal.db "u1" "bob").0.users
attach_referral-Referred_example = attach_referral-Referred env portal.db "u1" "bob"

abbrev renewed_in : Credentials
renewed_in = record { username = "alice"; password = "alice4567" }

abbrev renewed : User
renewed = record member { password_hash = "$argon2id$v=19$m=65536,t=3,p=4$07$09" }

resets :
    (reset_password primitives.argon (7 ∷ []) env portal.db (some ("u1", "alice4567"))).1
    ≡ done "u1" "updated"
unfolding reset_password set_password require_one_row exists_row
resets = refl

finds_renewed :
    user_by_username env
      (reset_password primitives.argon (7 ∷ []) env portal.db (some ("u1", "alice4567"))).0
      (trim_space "alice")
    ≡ ok renewed
unfolding reset_password set_password user_by_username select_first trim_space hash_password
    hex_encode audit require_one_row exists_row update_where
finds_renewed = refl

reset_password-login_example :
    (handle_login primitives config visit
      (record portal {
        db = (reset_password primitives.argon (7 ∷ []) env portal.db (some ("u1", "alice4567"))).0;
      })
      (some renewed_in)).1
    ≡ (200, welcome renewed (hex_encode visit.token_bytes))
reset_password-login_example =
    reset_password-login primitives config (7 ∷ []) env portal.db "u1" visit
      (record portal {
        db = (reset_password primitives.argon (7 ∷ []) env portal.db (some ("u1", "alice4567"))).0;
      })
      renewed_in renewed (ground arith) (ground arith) resets refl finds_renewed refl refl refl
