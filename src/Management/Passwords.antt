-- ===== src/Management/Passwords.antt =====
-- The password that the administration gives a new account, at the portal.
use manager_key_pro.Base.{
  ℕ, ◌≡◌, ◌≢◌, refl, sym, ◌∙◌, ap, true, false, some, inl, inr, List, String, is_empty, trim_space,
  str_eq_refl, arith, Bool-cases, if◌then◌else◌, select_first,
}
use manager_key_pro.Base.Hex.{hex_encode, Bytes}
use manager_key_pro.Store.Types.{User, Db}
use manager_key_pro.Store.Errors.{Env, ok, null_if_empty, coalesce}
use manager_key_pro.Store.Steps.{Result-cases}
use manager_key_pro.Store.Users.{user_by_id, user_by_username}
use manager_key_pro.Store.Users.Accounts.{create_user}
use manager_key_pro.Crypto.{Cipher, hash_key}
use manager_key_pro.Portal.{Config, Portal, Primitives, Visit}
use manager_key_pro.Portal.Password.{Argon, verify_password, verify_password-digest}
use manager_key_pro.Portal.Auth.{Credentials, is_exactly_duplicate, handle_login}
use manager_key_pro.Portal.Granted.{handle_login-granted}
use manager_key_pro.Management.{created_user}
use manager_key_pro.Management.Users.{CreateUserBody, admin_hash, create_user_for}

-- The account that Create returns has the hash that it was given, or none.
create_user-hash :
    (env : Env) (db : Db) (name hash telegram role code : String) (u : User)
    → (create_user env db name hash telegram role code).1 ≡ ok u
    → u.password_hash ≡ coalesce (null_if_empty hash)
unfolding create_user user_by_id select_first
create_user-hash env db name hash telegram role code u h =
    let self = str_eq_refl (env.new_id "usr") in ground (arith, self, h)

create_user_for-hash :
    (cr : Cipher) (env : Env) (db : Db) (code : String) (body : CreateUserBody) (u : User)
    → (create_user_for cr env db code (some body)).1 ≡ created_user u
    → u.password_hash ≡ coalesce (null_if_empty (admin_hash cr body.password))
unfolding create_user_for
create_user_for-hash cr env db code body u h =
    let role = if is_empty body.role then "user" else body.role in
    let hash = admin_hash cr body.password in
    let made = create_user env db body.username hash "" role code in
    elim (Bool-cases (is_empty body.username)) [
      | inl e ↦ ground (arith, e, h)
      | inr e ↦ elim (Result-cases made.1) [
        | inl (x, q) ↦ elim (Bool-cases (is_exactly_duplicate x)) [
          | inl d ↦ ground (arith, e, q, d, h)
          | inr d ↦ ground (arith, e, q, d, h)
        ]
        | inr (v, q) ↦
            let it : v ≡ u = ground (arith, e, q, h) in
            create_user-hash env db body.username hash "" role code u (q ∙ ap ok it)
      ]
    ]

none_fits : (argon : Argon) (attempt : String) → verify_password argon "" attempt ≡ false
unfolding verify_password
none_fits argon attempt = refl

-- What is stored for an account of the administration accepts no password.
admin_hash-refused :
    (cr : Cipher) (argon : Argon) (password attempt : String) (digest : List ℕ)
    → hash_key cr password ≡ hex_encode digest
    → Bytes digest
    → verify_password argon (coalesce (null_if_empty (admin_hash cr password))) attempt ≡ false
unfolding admin_hash null_if_empty
admin_hash-refused cr argon password attempt digest h b =
    let refused =
      ap (λ s. verify_password argon s attempt) h ∙ verify_password-digest argon digest attempt b in
    let blank = none_fits argon attempt in
    elim (Bool-cases (is_empty password)) [
      | inl e ↦ elim (Bool-cases (is_empty (trim_space ""))) [
        | inl t ↦ rw (admin_hash, null_if_empty, e, t) blank
        | inr t ↦ rw (admin_hash, null_if_empty, e, t) blank
      ]
      | inr e ↦ elim (Bool-cases (is_empty (trim_space (hash_key cr password)))) [
        | inl t ↦ rw (admin_hash, null_if_empty, e, t) blank
        | inr t ↦ rw (admin_hash, null_if_empty, e, t) refused
      ]
    ]

true_is_false : true ≡ false → ⊥
true_is_false h = cc

-- An account that the administration has created, with whatever password, is not let in by the
-- portal as long as its stored hash is the one that it was created with: no login that finds it is
-- answered with 200, whatever password is tried. The SHA-256 text of the password is taken to be
-- the hexadecimal form of some bytes.
pub create_user_for-no_login :
    (pr : Primitives) (cfg : Config) (env : Env) (db : Db) (code : String) (body : CreateUserBody)
    (u u' : User) (digest : List ℕ) (visit : Visit) (portal : Portal) (creds : Credentials)
    → (create_user_for pr.cipher env db code (some body)).1 ≡ created_user u
    → hash_key pr.cipher body.password ≡ hex_encode digest
    → Bytes digest
    → user_by_username visit.env portal.db (trim_space creds.username) ≡ ok u'
    → u'.password_hash ≡ u.password_hash
    → (handle_login pr cfg visit portal (some creds)).1.0 ≢ 200
create_user_for-no_login pr cfg env db code body u u' digest visit portal creds made h b found kept
      granted =
    let (v, looked, _, verified, _) = handle_login-granted pr cfg visit portal creds granted in
    let same : v ≡ u' = ground (arith, sym looked ∙ found) in
    let stored = kept ∙ create_user_for-hash pr.cipher env db code body u made in
    let refused =
      ap (λ s. verify_password pr.argon s creds.password) stored
      ∙ admin_hash-refused pr.cipher pr.argon body.password creds.password digest h b in
    true_is_false (
      sym verified
      ∙ ap (λ (x : User). verify_password pr.argon x.password_hash creds.password) same
      ∙ refused)
