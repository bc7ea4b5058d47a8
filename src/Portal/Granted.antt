-- ===== src/Portal/Granted.antt =====
-- What a login has proved.
use manager_key_pro.Base.{
  ℕ, ◌≡◌, refl, sym, subst, ◌∙◌, ap, true, false, some, inl, inr, trim_space, str_eq, arith,
  Bool-cases,
}
use manager_key_pro.Base.Hex.{hex_encode}
use manager_key_pro.Store.Types.{User}
use manager_key_pro.Store.Errors.{ok, is_not_found}
use manager_key_pro.Store.Steps.{Result-cases}
use manager_key_pro.Store.Users.{user_by_username}
use manager_key_pro.Portal.{Config, Portal, Primitives, Visit, Reply, welcome}
use manager_key_pro.Portal.Sessions.{find_session, new_session, create_session, drop_session}
use manager_key_pro.Portal.Password.{verify_password}
use manager_key_pro.Portal.Lifetime.{find_session-put}
use manager_key_pro.Portal.Auth.{Credentials, is_locked, refuse_password, enter, handle_login}

-- The account is active, the answer carries its new token, and the token's session is the account's.
pub record Entered (pr : Primitives) (cfg : Config) (visit : Visit) (u : User) (r : Portal × Reply)
    : Type 0 where
  pub active : str_eq u.status "active" ≡ true
  pub answer : r.1 ≡ (200, welcome u (hex_encode visit.token_bytes))
  pub opened :
      find_session (pr.cipher.sha256_hex (hex_encode visit.token_bytes)) r.0.sessions
      ≡ some (new_session cfg visit (pr.cipher.sha256_hex (hex_encode visit.token_bytes)) u.id)

pub enter-Entered :
    (pr : Primitives) (cfg : Config) (visit : Visit) (portal : Portal) (u : User)
    → (enter pr cfg visit portal u).1.0 ≡ 200
    → Entered pr cfg visit u (enter pr cfg visit portal u)
unfolding enter create_session
enter-Entered pr cfg visit portal u h = elim (Bool-cases (str_eq u.status "active")) [
  | inr e ↦ ground (arith, e, h)
  | inl e ↦ record {
    active = e;
    answer = rw (enter, create_session, e) refl;
    opened =
        rw (enter, create_session, e)
          (find_session-put (pr.cipher.sha256_hex (hex_encode visit.token_bytes)) _
            (drop_session (pr.cipher.sha256_hex (hex_encode visit.token_bytes)) portal.sessions));
  }
]

abbrev status : Portal × Reply → ℕ
status r = r.1.0

refuse_password-status :
    (cfg : Config) (visit : Visit) (portal : Portal) (u : User)
    → (refuse_password cfg visit portal u).1.0 ≡ 200
    → ⊥
unfolding refuse_password
refuse_password-status cfg visit portal u h = ground (arith, h)

-- A login that is answered with 200 names an account that is stored, is not locked and is active,
-- with a password that its stored hash accepts; the answer is the welcome with a new token, and the
-- session of that token is the account's.
pub handle_login-granted :
    (pr : Primitives) (cfg : Config) (visit : Visit) (portal : Portal) (creds : Credentials)
    → (handle_login pr cfg visit portal (some creds)).1.0 ≡ 200
    → (u : User) × (user_by_username visit.env portal.db (trim_space creds.username) ≡ ok u)
      × (is_locked visit.env u ≡ false)
      × (verify_password pr.argon u.password_hash creds.password ≡ true)
      × Entered pr cfg visit u (handle_login pr cfg visit portal (some creds))
unfolding handle_login
handle_login-granted pr cfg visit portal creds h =
    elim (Result-cases (user_by_username visit.env portal.db (trim_space creds.username))) [
      | inl (e, q) ↦ elim (Bool-cases (is_not_found e)) [
        | inl n ↦ ground (arith, q, n, h)
        | inr n ↦ ground (arith, q, n, h)
      ]
      | inr (u, q) ↦ elim (Bool-cases (is_locked visit.env u)) [
        | inl l ↦ ground (arith, q, l, h)
        | inr l ↦ elim (Bool-cases (verify_password pr.argon u.password_hash creds.password)) [
          | inr v ↦
              let same : handle_login pr cfg visit portal (some creds)
                  ≡ refuse_password cfg visit portal u =
                rw (handle_login, q, l, v) refl in
              elim (refuse_password-status cfg visit portal u (ap status (sym same) ∙ h)) [ ]
          | inl v ↦
              let same : handle_login pr cfg visit portal (some creds)
                  ≡ enter pr cfg visit portal u =
                rw (handle_login, q, l, v) refl in
              (
                u,
                q,
                l,
                v,
                subst (Entered pr cfg visit u) (sym same)
                    (enter-Entered pr cfg visit portal u (ap status (sym same) ∙ h)),
              )
        ]
      ]
    ]
