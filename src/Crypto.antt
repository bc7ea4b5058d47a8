-- ===== src/Crypto.antt =====
-- internal/crypto/keygen.go: making, hashing and encrypting plaintext keys.
use Prim.Native.String.{len, slice}
use manager_key_pro.Base.{
  ℕ, ◌≡◌, Option, none, some, List, String, ◌+++◌, if◌then◌else◌, leb, ◌==◌, length, to_lower, not,
  arith,
}
use manager_key_pro.Store.Errors.{message, sql_failure, wrap, Result, ok, err, Env, random_bytes}

-- What the code takes from crypto/aes, crypto/cipher, crypto/sha256, crypto/rand and
-- encoding/base32.
pub record Cipher : Type 0 where
  pub seal : List ℕ → List ℕ → String → List ℕ
  pub unseal : List ℕ → List ℕ → List ℕ → Option String
  pub sha256_hex : String → String
  pub random : List ℕ  -- the 28 bytes of a new key
  pub nonce : List ℕ  -- the bytes of a new nonce
  pub base32 : List ℕ → String  -- without padding

-- `GenerateKey`
unfoldable pub generate_key : Cipher → Env → Result String
generate_key cr env =
    if env.fails random_bytes
    then err (wrap sql_failure)
    else ok ("sk-" +++ to_lower (cr.base32 cr.random))

-- `HashKey`
unfoldable pub hash_key : Cipher → String → String
hash_key cr plain = cr.sha256_hex plain

-- `Prefix`, by bytes.
unfoldable pub prefix : String → String
prefix plain = if leb (len plain) 10 then plain else slice plain 0 10 +++ "…"

-- `EncryptKey`: the ciphertext and its nonce. A secret of 32 bytes makes an AES-256 block cipher.
unfoldable pub encrypt_key : Cipher → Env → String → List ℕ → Result (List ℕ × List ℕ)
encrypt_key cr env plain secret =
    if not (length secret == 32)
    then err (message "secret must be 32 bytes")
    else if env.fails random_bytes
    then err (wrap sql_failure)
    else ok (cr.seal secret cr.nonce plain, cr.nonce)

-- `DecryptKey`
unfoldable pub decrypt_key : Cipher → List ℕ → List ℕ → List ℕ → Result String
decrypt_key cr cipher nonce secret =
    if not (length secret == 32)
    then err (message "secret must be 32 bytes")
    else elim (cr.unseal secret nonce cipher) [ none ↦ err (message "decrypt") | some p ↦ ok p ]

-- A key that EncryptKey has encrypted is what DecryptKey returns under the same secret, where AES-GCM
-- opens what it has sealed of this key.
pub decrypt_key-encrypt_key :
    (cr : Cipher) (env : Env) (plain : String) (secret cipher nonce : List ℕ)
    → cr.unseal secret cr.nonce (cr.seal secret cr.nonce plain) ≡ some plain
    → encrypt_key cr env plain secret ≡ ok (cipher, nonce)
    → decrypt_key cr cipher nonce secret ≡ ok plain
unfolding encrypt_key decrypt_key
decrypt_key-encrypt_key cr env plain secret cipher nonce law h = ground (arith, law)
