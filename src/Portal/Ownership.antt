-- ===== src/Portal/Ownership.antt =====
-- What the portal shows belongs to the user of the session.
use manager_key_pro.Base.{
  ℕ, ◌≡◌, refl, true, some, inl, inr, List, String, is_empty, str_eq, arith, Bool-cases,
  Option-cases, All, select_all-All, order_by-All, take-All,
}
use manager_key_pro.Base.Int.{ℤ}
use manager_key_pro.Store.Types.{Key}
use manager_key_pro.Store.Errors.{ok}
use manager_key_pro.Store.Steps.{Result-cases}
use manager_key_pro.Store.Keys.{key_by_id}
use manager_key_pro.Crypto.{decrypt_key}
use manager_key_pro.Portal.{Config, Portal, Session, Primitives, Visit, HttpRequest, revealed}
use manager_key_pro.Portal.Sessions.{get_session, with_session}
use manager_key_pro.Portal.Account.{own_key, reveal, handle_my_key_reveal}
use manager_key_pro.Portal.Reads.{newest}

-- The rows of a list that a user is shown are the user's.
pub newest-own {ℓ} :
    {A : Type ℓ} (owner : A → String) (created : A → ℤ) (n : ℕ) (uid : String) (rows : List A)
    → All (λ a. str_eq (owner a) uid ≡ true) (newest owner created n uid rows)
unfolding newest
newest-own {A} owner created n uid rows =
    let P : A → Type 0 = λ a. str_eq (owner a) uid ≡ true in
    take-All P n _ (order_by-All P _ _ (select_all-All (λ a. str_eq (owner a) uid) rows))

-- A reveal that is answered with 200 comes with a session, is of a stored key whose owner is the
-- user of that session, and shows the text that AES-GCM opens of the key's sealed text with the
-- portal's secret.
pub handle_my_key_reveal-owned :
    (pr : Primitives) (cfg : Config) (visit : Visit) (portal : Portal) (req : HttpRequest)
    (kid : String)
    → (handle_my_key_reveal pr cfg visit portal req kid).1.0 ≡ 200
    → (sess : Session) × (k : Key) × (plain : String) × ((get_session pr visit portal req).1
        ≡ some sess)
      × (key_by_id visit.env (get_session pr visit portal req).0.db kid ≡ ok k)
      × (str_eq k.user_id sess.user_id ≡ true)
      × (decrypt_key pr.cipher k.key_cipher k.key_nonce cfg.secret_key ≡ ok plain)
      × ((handle_my_key_reveal pr cfg visit portal req kid).1 ≡ (200, revealed k plain))
unfolding handle_my_key_reveal with_session own_key reveal
handle_my_key_reveal-owned pr cfg visit portal req kid h =
    let entered = (get_session pr visit portal req).0 in
    elim (Option-cases (get_session pr visit portal req).1) [
      | inl q ↦ ground (arith, q, h)
      | inr (sess, q) ↦ elim (Bool-cases (is_empty kid)) [
        | inl e ↦ ground (arith, q, e, h)
        | inr e ↦ elim (Result-cases (key_by_id visit.env entered.db kid)) [
          | inl (x, q') ↦ ground (arith, q, e, q', h)
          | inr (k, q') ↦ elim (Bool-cases (str_eq k.user_id sess.user_id)) [
            | inr o ↦ ground (arith, q, e, q', o, h)
            | inl o ↦
                elim (Result-cases
                  (decrypt_key pr.cipher k.key_cipher k.key_nonce cfg.secret_key)) [
                    | inl (x, d) ↦ ground (arith, q, e, q', o, d, h)
                    | inr (plain, d) ↦ (
                      sess,
                      k,
                      plain,
                      q,
                      q',
                      o,
                      d,
                      rw (handle_my_key_reveal, with_session, own_key, reveal, q, e, q', o, d) refl,
                    )
                  ]
          ]
        ]
      ]
    ]
