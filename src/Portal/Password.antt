-- ===== src/Portal/Password.antt =====
-- internal/portal/server.go: password hashes. Argon2id is a parameter.
use manager_key_pro.Base.{
  ℕ, ◌≡◌, refl, sym, ◌∙◌, ap, ◌&&◌, inl, inr, Bool-cases, Bool, true, false, Option, none, some,
  List, [], ◌∷◌, ◌++◌, String, ◌+++◌, is_empty, if◌then◌else◌, ◌==◌, split, arith, ◌↔◌, str_eq-eq,
}
use manager_key_pro.Base.Hex.{
  dollar, hex_encode, hex_decode, Bytes, hex_decode-encode, split-append, split-encode_all,
}

-- `argon2.IDKey(password, salt, 3, 64*1024, 4, 32)`
abbrev pub Argon : Type 0
Argon = String → List ℕ → List ℕ

-- `hashPassword`, with the salt that it draws.
unfoldable pub hash_password : Argon → List ℕ → String → String
hash_password argon salt password =
    "$argon2id$v=19$m=65536,t=3,p=4"
    +++ String.◌∷◌ dollar (hex_encode salt +++ String.◌∷◌ dollar (hex_encode (argon password salt)))

-- The loop over the bytes of two hashes; hashes of different lengths differ.
unfoldable pub same_bytes : List ℕ → List ℕ → Bool
same_bytes [] [] = true
same_bytes [] (b ∷ bs) = false
same_bytes (a ∷ as') [] = false
same_bytes (a ∷ as') (b ∷ bs) = (a == b) && same_bytes as' bs

-- The salt and the hash of six parts.
parsed : List String → Option (String × String)
parsed (_ ∷ _ ∷ _ ∷ _ ∷ salt ∷ hash ∷ []) = some (salt, hash)
parsed _ = none

-- `verifyPassword`
unfoldable pub verify_password : Argon → String → String → Bool
unfolding parsed same_bytes
verify_password argon stored password =
    if is_empty stored then false else (elim (parsed (split stored 36)) [
      | none ↦ false
      | some (salt_hex, hash_hex) ↦ elim (hex_decode salt_hex) [
        | none ↦ false
        | some salt ↦ elim (hex_decode hash_hex) [
          | none ↦ false
          | some expected ↦ same_bytes (argon password salt) expected
        ]
      ]
    ])

same_bytes-eq : (as' bs : List ℕ) → same_bytes as' bs ≡ true → as' ≡ bs
unfolding same_bytes
same_bytes-eq [] [] h = refl
same_bytes-eq [] (b ∷ bs) h = cc
same_bytes-eq (a ∷ as') [] h = cc
same_bytes-eq (a ∷ as') (b ∷ bs) h = ground (arith, same_bytes-eq as' bs)

same_bytes_refl : (bs : List ℕ) → same_bytes bs bs ≡ true
unfolding same_bytes
same_bytes_refl [] = refl
same_bytes_refl (b ∷ bs) = ground (arith, same_bytes_refl bs)

-- The six parts of a hash.
parts-hash_password :
    (argon : Argon) (salt : List ℕ) (password : String)
    → Bytes salt
    → Bytes (argon password salt)
    → parsed (split (hash_password argon salt password) 36)
      ≡ some (hex_encode salt, hex_encode (argon password salt))
unfolding hash_password parsed split
parts-hash_password argon salt password hs hh =
    let hash = hex_encode (argon password salt) in
    let tail =
      split-append (hex_encode salt) hash
      ∙ ap (λ r. r ++ split hash 36) (split-encode_all salt hs)
      ∙ ap (λ r. hex_encode salt ∷ r) (split-encode_all (argon password salt) hh) in
    ap parsed (
      split-append "$argon2id$v=19$m=65536,t=3,p=4" (hex_encode salt +++ String.◌∷◌ dollar hash)
      ∙ ap (λ r. "" ∷ "argon2id" ∷ "v=19" ∷ "m=65536,t=3,p=4" ∷ r) tail)

none_is_some : {A : Type 0} {a : A} → none ≡ some a → ⊥
none_is_some h = cc

nonempty-parsed :
    (s : String) {q : String × String} → parsed (split s 36) ≡ some q → is_empty s ≡ false
unfolding parsed split
nonempty-parsed s h = elim (Bool-cases (is_empty s)) [
  | inr e ↦ e
  | inl e ↦ elim (none_is_some (sym (ap (λ t. parsed (split t 36)) (str_eq-eq s "" e)) ∙ h)) [ ]
]

-- A stored hash accepts exactly the passwords that argon2id maps, under its salt, to the same hash
-- as the password that was hashed. Salt and hash are lists of bytes.
pub verify_password-hash_password :
    (argon : Argon) (salt : List ℕ) (password attempt : String)
    → Bytes salt
    → Bytes (argon password salt)
    → verify_password argon (hash_password argon salt password) attempt ≡ true
      ↔ argon attempt salt ≡ argon password salt
unfolding verify_password
verify_password-hash_password argon salt password attempt hs hh =
    let parts = parts-hash_password argon salt password hs hh in
    let filled = nonempty-parsed (hash_password argon salt password) parts in
    let salt_back = hex_decode-encode salt hs in
    let hash_back = hex_decode-encode (argon password salt) hh in
    let verdict : verify_password argon (hash_password argon salt password) attempt
        ≡ same_bytes (argon attempt salt) (argon password salt) =
      rw (verify_password, filled, parts, salt_back, hash_back) refl in
    (
      λ h. same_bytes-eq _ _ (sym verdict ∙ h),
      λ h.
          verdict
          ∙ ap (λ r. same_bytes r (argon password salt)) h
          ∙ same_bytes_refl (argon password salt),
    )

-- A stored text that is the hexadecimal form of a digest, as the administration writes it for a new
-- account, accepts no password.
pub verify_password-digest :
    (argon : Argon) (digest : List ℕ) (attempt : String)
    → Bytes digest
    → verify_password argon (hex_encode digest) attempt ≡ false
unfolding verify_password parsed
verify_password-digest argon digest attempt h = elim (Bool-cases (is_empty (hex_encode digest))) [
  | inl e ↦ rw (verify_password, e) refl
  | inr e ↦ rw (verify_password, e, split-encode_all digest h) refl
]
