-- ===== src/Plugin/Gates.antt =====
-- What a granted key and a passed request have behind them.
use manager_key_pro.Base.{◌≡◌, true, false, inl, inr, [], String, arith, is_empty}
use manager_key_pro.Store.Types.{Key, Db}
use manager_key_pro.Store.Errors.{ok, Env}
use manager_key_pro.Store.Steps.{Result-cases}
use manager_key_pro.Store.Keys.{key_by_hash, is_active}
use manager_key_pro.Crypto.{Cipher, hash_key}
use manager_key_pro.Policy.{Decision, Seen, check_model, check_ip, check_rpm}
use manager_key_pro.Billing.Pricing.{Floats, Pricing}
use manager_key_pro.Billing.Hold.{hold}
use manager_key_pro.Plugin.Request.{Headers, extract_key, client_ip}
use manager_key_pro.Plugin.Hooks.{
  granted, owner_barred, is_expired, authenticate, InterceptRequest, passed, terminated,
  static_gate, intercept_before,
}

-- A request is granted only to the key that has the hash of the text it carries; that key is active and
-- unexpired, no status that could be read bars its owner, and the database is left as it was.
pub authenticate-granted :
    (cr : Cipher) (env : Env) (db : Db) (headers query : Headers) (kid uid : String)
    → (authenticate cr env db headers query).1 ≡ granted kid uid
    → (key : Key) × (key_by_hash env db (hash_key cr (extract_key headers query)) ≡ ok key)
      × (key.id ≡ kid)
      × (key.user_id ≡ uid)
      × (is_active key ≡ true)
      × (is_expired env key ≡ false)
      × (owner_barred env db key ≡ false)
      × ((authenticate cr env db headers query).0 ≡ db)
unfolding authenticate
authenticate-granted cr env db headers query kid uid h =
    elim (Result-cases (key_by_hash env db (hash_key cr (extract_key headers query)))) [
      | inl (e, q) ↦ absurd (ground arith)
      | inr (key, q) ↦ (
        key,
        q,
        ground arith,
        ground arith,
        ground arith,
        ground arith,
        ground arith,
        ground arith,
      )
    ]

-- For a request that carries the text of a stored key: if it is terminated, then by a denial and with
-- nothing written; if it passes, the gates on models, addresses and the rate have allowed it, and the
-- database is the one after one hold for it.
pub intercept_before-gates :
    (cr : Cipher) (fl : Floats) (env : Env) (pr : Pricing fl) (db : Db) (seen : Seen)
    (req : InterceptRequest) (key : Key)
    → is_empty (extract_key req.headers []) ≡ false
    → key_by_hash env db (hash_key cr (extract_key req.headers [])) ≡ ok key
    → let (db', _, gate) = intercept_before cr fl env pr db seen req in
      ((d : Decision) → gate ≡ terminated d → (db' ≡ db) × (d.allowed ≡ false))
      × (gate ≡ passed
          → ((check_model key req.requested_model req.model).allowed ≡ true)
            × ((check_ip key (client_ip req.headers)).allowed ≡ true)
            × ((check_rpm env.now seen key).1.allowed ≡ true)
            × (db' ≡ hold fl env pr db req.request_id key.id key.user_id req.model))
unfolding intercept_before static_gate
intercept_before-gates cr fl env pr db seen req key carried found = (
  λ d h. (ground arith, ground arith),
  λ h. (ground arith, ground arith, ground arith, ground arith),
)
