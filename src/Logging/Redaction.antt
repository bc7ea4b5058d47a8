-- ===== src/Logging/Redaction.antt =====
-- What redaction leaves of an object.
use manager_key_pro.Base.{◌≡◌, refl, ap, Bool, true, false, if◌then◌else◌, some, String, is_empty}
use manager_key_pro.Logging.{
  Codec, Json, Fields, value, array, object, end, field, hidden, is_secret, redact_map,
  redact_object, redact_secrets,
}

-- No field with a secret's name has a value, at any depth that objects reach. Arrays are not looked into.
unfoldable mutual
  pub Clean : Fields → Type 0
  Clean end = Unit
  Clean (field k v rest) = (is_secret k ≡ true → v ≡ hidden) × CleanValue v × Clean rest

  pub CleanValue : Json → Type 0
  CleanValue (value text) = Unit
  CleanValue (array items) = Unit
  CleanValue (object fields) = Clean fields

hide-CleanValue : (b : Bool) (v : Json) → CleanValue v → CleanValue (if b then hidden else v)
unfolding CleanValue
hide-CleanValue true v h = tt
hide-CleanValue false v h = h

mutual
  unfolding redact_map Clean

  pub redact_map-Clean : (fields : Fields) → Clean (redact_map fields)
  redact_map-Clean end = tt
  redact_map-Clean (field k v rest) = (
    λ h. ap (λ b. if b then hidden else redact_object v) h,
    hide-CleanValue (is_secret k) (redact_object v) (redact_object-Clean v),
    redact_map-Clean rest,
  )

  redact_object-Clean : (v : Json) → CleanValue (redact_object v)
  redact_object-Clean (value text) = tt
  redact_object-Clean (array items) = tt
  redact_object-Clean (object fields) = redact_map-Clean fields

redact-hidden :
    (b : Bool) (v : Json)
    → redact_object v ≡ v
    → (if b then hidden else redact_object (if b then hidden else v)) ≡ (if b then hidden else v)
unfolding redact_object
redact-hidden true v h = refl
redact-hidden false v h = h

mutual
  unfolding redact_map

  -- Redacting a second time changes nothing.
  pub redact_map-idempotent : (fields : Fields) → redact_map (redact_map fields) ≡ redact_map fields
  redact_map-idempotent end = refl
  redact_map-idempotent (field k v rest) =
      let here = redact-hidden (is_secret k) (redact_object v) (redact_object-idempotent v) in
      λ i. field k (here i) (redact_map-idempotent rest i)

  redact_object-idempotent : (v : Json) → redact_object (redact_object v) ≡ redact_object v
  redact_object-idempotent (value text) = refl
  redact_object-idempotent (array items) = refl
  redact_object-idempotent (object fields) = ap object (redact_map-idempotent fields)

-- Of a text that decodes to a JSON object, redaction leaves the encoding of an object in which every
-- field that objects reach, with a name that holds "authorization", "api-key", "apikey", "x-api-key",
-- "x-goog-api-key", "cookie" or "bearer" in any case, has the value "[REDACTED]", and which another
-- redaction does not change.
pub redact_secrets-Clean :
    (json : Codec) (raw : String) (fields : Fields)
    → is_empty raw ≡ false
    → json.decode raw ≡ some fields
    → (clean : Fields) × (redact_secrets json raw ≡ json.encode clean)
      × Clean clean
      × (redact_map clean ≡ clean)
unfolding redact_secrets
redact_secrets-Clean json raw fields e d = (
  redact_map fields,
  rw (redact_secrets, e, d) refl,
  redact_map-Clean fields,
  redact_map-idempotent fields,
)
