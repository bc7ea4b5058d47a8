-- ===== src/Management/Reset.antt =====
-- The password that a reset by the administration gives an account, at the portal.
use manager_key_pro.Base.{
  ℕ, ◌≡◌, refl, sym, subst, ◌∙◌, ap, true, false, some, inl, inr, List, [], ◌∷◌, String, trim_space,
  str_eq, arith, Bool-cases, Option-cases, All, update_where, select_first, select_first-All,
}
use manager_key_pro.Base.Hex.{hex_encode, Bytes}
use manager_key_pro.Store.Types.{User, Db}
use manager_key_pro.Store.Errors.{Env, ok, select_user}
use manager_key_pro.Store.Users.{has_id, user_by_username}
use manager_key_pro.Store.Users.Accounts.{set_password}
use manager_key_pro.Issue.{audit}
use manager_key_pro.Portal.{Config, Portal, Primitives, Visit, welcome}
use manager_key_pro.Portal.Password.{
  Argon, hash_password, verify_password, verify_password-hash_password,
}
use manager_key_pro.Portal.Sessions.{create_session}
use manager_key_pro.Portal.Auth.{Credentials, is_locked, enter, handle_login}
use manager_key_pro.Management.{done}
use manager_key_pro.Management.Users.{reset_password}

-- An account with the id has the hash.
abbrev HasHash : String → String → User → Type 0
HasHash uid hash u = str_eq u.id uid ≡ true → u.password_hash ≡ hash

set_hash-HasHash :
    (uid hash : String) (us : List User)
    → All (HasHash uid hash) (update_where (has_id uid) (λ u. record u { password_hash = hash }) us)
unfolding update_where
set_hash-HasHash uid hash [] = tt
set_hash-HasHash uid hash (u ∷ us) = elim (Bool-cases (str_eq u.id uid)) [
  | inl e ↦ rw (update_where, e) ((λ h. refl), set_hash-HasHash uid hash us)
  | inr e ↦ rw (update_where, e) ((λ h. ground (arith, e, h)), set_hash-HasHash uid hash us)
]

reset_password-HasHash :
    (argon : Argon) (salt : List ℕ) (env : Env) (db : Db) (uid password : String)
    → (reset_password argon salt env db (some (uid, password))).1 ≡ done uid "updated"
    → All
        (HasHash uid (hash_password argon salt password))
        (reset_password argon salt env db (some (uid, password))).0.users
unfolding reset_password set_password audit
reset_password-HasHash argon salt env db uid password h =
    ground (arith, set_hash-HasHash uid (hash_password argon salt password) db.users)

user_by_username-All :
    (P : User → Type 0) (env : Env) (db : Db) (name : String) (u : User)
    → All P db.users
    → user_by_username env db name ≡ ok u
    → P u
unfolding user_by_username
user_by_username-All P env db name u all h = elim (Bool-cases (env.fails (select_user name))) [
  | inl e ↦ ground (arith, e, h)
  | inr e ↦ elim (Option-cases (select_first (λ v. str_eq v.username (trim_space name)) db.users)) [
    | inl q ↦ ground (arith, e, q, h)
    | inr (v, q) ↦
        let same : v ≡ u = ground (arith, e, q, h) in
        subst P same (select_first-All P _ db.users all q)
  ]
]

-- After a reset that is answered as done, the account logs in with the new password: a login that
-- finds it, while it is active and not locked, is answered with 200 and a new token, from the
-- database that the reset has left. Salt and hash are lists of bytes.
pub reset_password-login :
    (pr : Primitives) (cfg : Config) (salt : List ℕ) (env : Env) (db : Db) (uid : String)
    (visit : Visit) (portal : Portal) (creds : Credentials) (u : User)
    → Bytes salt
    → Bytes (pr.argon creds.password salt)
    → (reset_password pr.argon salt env db (some (uid, creds.password))).1 ≡ done uid "updated"
    → portal.db ≡ (reset_password pr.argon salt env db (some (uid, creds.password))).0
    → user_by_username visit.env portal.db (trim_space creds.username) ≡ ok u
    → str_eq u.id uid ≡ true
    → is_locked visit.env u ≡ false
    → str_eq u.status "active" ≡ true
    → (handle_login pr cfg visit portal (some creds)).1
      ≡ (200, welcome u (hex_encode visit.token_bytes))
unfolding handle_login enter create_session
reset_password-login pr cfg salt env db uid visit portal creds u bs bh done_ at found named free
      active =
    let hash = hash_password pr.argon salt creds.password in
    let all =
      subst (λ (d : Db). All (HasHash uid hash) d.users) (sym at)
        (reset_password-HasHash pr.argon salt env db uid creds.password done_) in
    let stored = user_by_username-All (HasHash uid hash) visit.env portal.db _ u all found named in
    let accepted =
      ap (λ s. verify_password pr.argon s creds.password) stored
      ∙ (verify_password-hash_password pr.argon salt creds.password creds.password bs bh).1 refl in
    rw (handle_login, enter, create_session, found, free, accepted, active) refl
