-- ===== src/Portal/Revealed.antt =====
-- A key that was issued is the key that its owner is shown.
use manager_key_pro.Base.{
  ℕ, ◌≡◌, refl, sym, subst, ◌∙◌, ap, true, false, some, inl, inr, List, ◌∷◌, String, is_empty,
  str_eq, str_eq_refl, arith, select_first,
}
use manager_key_pro.Store.Types.{Key, Db}
use manager_key_pro.Store.Errors.{ok, Env, select_key}
use manager_key_pro.Store.Steps.{Result-cases}
use manager_key_pro.Store.Users.{user_by_id}
use manager_key_pro.Store.Keys.{key_by_id, has_key_id}
use manager_key_pro.Store.Keys.Create.{create_key, new_key}
use manager_key_pro.Store.NewKeys.{create_key-row, create_key-found}
use manager_key_pro.Crypto.{Cipher, generate_key, encrypt_key, decrypt_key, decrypt_key-encrypt_key}
use manager_key_pro.Issue.{Spec, issue_key, audit, key_input}
use manager_key_pro.Portal.{Config, Portal, Session, Primitives, Visit, HttpRequest, revealed}
use manager_key_pro.Portal.Sessions.{get_session, with_session}
use manager_key_pro.Portal.Account.{own_key, reveal, handle_my_key_reveal}

-- A key as its issue leaves it: the owner's, found by its id, and opened by the secret.
record Issued (cr : Cipher) (db : Db) (secret : List ℕ) (uid : String) (k : Key) (plain : String)
    : Type 0 where
  owner : k.user_id ≡ uid
  found : select_first (has_key_id k.id) db.keys ≡ some k
  opens : decrypt_key cr k.key_cipher k.key_nonce secret ≡ ok plain

audit-keys :
    (env : Env) (db : Db) (actor action kid uid : String)
    → (audit env db actor action kid uid).keys ≡ db.keys
unfolding audit
audit-keys env db actor action kid uid = ground arith

-- A driver that fails nothing.
abbrev sound : Env → Env
sound env = record env { fails = λ s. false }

select_first-front : (k : Key) (ks : List Key) → select_first (has_key_id k.id) (k ∷ ks) ≡ some k
unfolding select_first
select_first-front k ks = let self = str_eq_refl k.id in rw (select_first, self) refl

created-Issued :
    (cr : Cipher) (env : Env) (db : Db) (secret cipher nonce : List ℕ) (uid : String) (spec : Spec)
    (actor : String) (k : Key) (plain : String)
    → cr.unseal secret cr.nonce (cr.seal secret cr.nonce plain) ≡ some plain
    → encrypt_key cr env plain secret ≡ ok (cipher, nonce)
    → (create_key env db (key_input cr uid plain cipher nonce spec)).1 ≡ ok k
    → Issued cr
        (audit env
          (create_key env db (key_input cr uid plain cipher nonce spec)).0
          actor
          "key.create"
          k.id
          uid)
        secret
        uid
        k
        plain
unfolding new_key
created-Issued cr env db secret cipher nonce uid spec actor k plain law q r =
    let input = key_input cr uid plain cipher nonce spec in
    let made = (create_key env db input).0 in
    let row = create_key-row env db input k r in
    let keys = audit-keys env made actor "key.create" k.id uid in
    let (_, _, _, front, _) = create_key-found env (sound env) db input k r refl in
    let law' = decrypt_key-encrypt_key cr env plain secret cipher nonce law q in
    record {
      owner = ap (λ (x : Key). x.user_id) row;
      found = ap (select_first (has_key_id k.id)) (keys ∙ front) ∙ select_first-front k db.keys;
      opens = ap (λ (x : Key). decrypt_key cr x.key_cipher x.key_nonce secret) row ∙ law';
    }

issue_key-Issued :
    (cr : Cipher) (env : Env) (db : Db) (secret : List ℕ) (uid : String) (spec : Spec)
    (actor : String) (k : Key) (plain : String)
    → cr.unseal secret cr.nonce (cr.seal secret cr.nonce plain) ≡ some plain
    → (issue_key cr env db secret uid spec actor).1 ≡ ok (k, plain)
    → Issued cr (issue_key cr env db secret uid spec actor).0 secret uid k plain
unfolding issue_key
issue_key-Issued cr env db secret uid spec actor k plain law h =
    elim (Result-cases (user_by_id env db uid)) [
      | inl (e, u) ↦ ground (arith, u, h)
      | inr (_, u) ↦ elim (Result-cases (generate_key cr env)) [
        | inl (e, q) ↦ ground (arith, u, q, h)
        | inr (text, q) ↦ elim (Result-cases (encrypt_key cr env text secret)) [
          | inl (e, q') ↦ ground (arith, u, q, q', h)
          | inr ((cipher, nonce), q') ↦
              let made = create_key env db (key_input cr uid text cipher nonce spec) in
              elim (Result-cases made.1) [
                | inl (e, r) ↦ ground (arith, u, q, q', r, h)
                | inr (new, r) ↦
                    let it : (new ≡ k) × (text ≡ plain) = ground (arith, u, q, q', r, h) in
                    let law' : cr.unseal secret cr.nonce (cr.seal secret cr.nonce text)
                        ≡ some text =
                      subst (λ t. cr.unseal secret cr.nonce (cr.seal secret cr.nonce t) ≡ some t)
                        (sym it.1) law in
                    let good =
                      created-Issued cr env db secret cipher nonce uid spec actor new text law' q'
                        r in
                    let left = audit env made.0 actor "key.create" new.id uid in
                    rw (issue_key, u, q, q', r)
                      (subst (λ n. Issued cr left secret uid n plain) it.0
                        (subst (λ t. Issued cr left secret uid new t) it.1 good))
              ]
        ]
      ]
    ]

pub get_session-db :
    (pr : Primitives) (visit : Visit) (portal : Portal) (req : HttpRequest)
    → (get_session pr visit portal req).0.db ≡ portal.db
unfolding get_session
get_session-db pr visit portal req = ground arith

-- A key that has been issued under the portal's secret is shown to a session of its owner with the
-- plaintext that was made, where AES-GCM opens what it has sealed of that text, the key's id is not
-- empty and the lookup of the key succeeds.
pub handle_my_key_reveal-issue_key :
    (pr : Primitives) (cfg : Config) (env : Env) (db : Db) (uid : String) (spec : Spec)
    (actor : String) (visit : Visit) (portal : Portal) (req : HttpRequest) (sess : Session)
    (k : Key) (plain : String)
    → pr.cipher.unseal cfg.secret_key pr.cipher.nonce
        (pr.cipher.seal cfg.secret_key pr.cipher.nonce plain)
      ≡ some plain
    → (issue_key pr.cipher env db cfg.secret_key uid spec actor).1 ≡ ok (k, plain)
    → portal.db ≡ (issue_key pr.cipher env db cfg.secret_key uid spec actor).0
    → (get_session pr visit portal req).1 ≡ some sess
    → sess.user_id ≡ uid
    → is_empty k.id ≡ false
    → visit.env.fails (select_key k.id) ≡ false
    → (handle_my_key_reveal pr cfg visit portal req k.id).1 ≡ (200, revealed k plain)
unfolding handle_my_key_reveal with_session own_key reveal key_by_id
handle_my_key_reveal-issue_key pr cfg env db uid spec actor visit portal req sess k plain law h at
      entered owner named reads =
    let issued = issue_key-Issued pr.cipher env db cfg.secret_key uid spec actor k plain law h in
    let here = get_session-db pr visit portal req ∙ at in
    let found = ap (λ (d : Db). select_first (has_key_id k.id) d.keys) here ∙ issued.found in
    let own : str_eq k.user_id sess.user_id ≡ true =
      subst (λ u. str_eq k.user_id u ≡ true) (issued.owner ∙ sym owner) (str_eq_refl k.user_id) in
    let opens = issued.opens in
    rw
      (
        handle_my_key_reveal, with_session, own_key, reveal, key_by_id, entered, named, reads,
        found, own, opens,
      )
      refl
