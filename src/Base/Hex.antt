-- ===== src/Base/Hex.antt =====
-- Go's encoding/hex on lists of bytes.
use Prim.Native.Char.{Char, code}
use Prim.Native.String.{char_at}
use Prim.Native.String.append.{nil, cons}
use manager_key_pro.Base.{
  ℕ, zero, suc, Bool-cases, inl, inr, ap, not, ◌+◌, ◌-◌, ◌*◌, ◌/◌, ◌%◌, ◌<◌, ◌≡◌, refl, sym, ◌∙◌,
  ◌++◌, Bool, true, false, ◌&&◌, Option, none, some, List, [], ◌∷◌, String, ◌==◌, leb,
  if◌then◌else◌, All, arith, split, ◌+++◌,
}

abbrev pub dollar : Char
dollar = char_at "$" 0

abbrev hex_char : ℕ → Char
hex_char n = char_at "0123456789abcdef" n

-- `hex.EncodeToString`
unfoldable pub hex_encode : List ℕ → String
hex_encode [] = ""
hex_encode (b ∷ bs) =
    String.◌∷◌ (hex_char (b / 16)) (String.◌∷◌ (hex_char (b % 16)) (hex_encode bs))

-- The value of a digit, of either case.
hex_value : Char → Option ℕ
hex_value c =
    let n = code c in
    if leb 48 n && leb n 57
    then some (n - 48)
    else if leb 97 n && leb n 102
    then some (n - 87)
    else if leb 65 n && leb n 70
    then some (n - 55)
    else none

-- A byte from its digits, in front of the bytes that follow.
hex_byte : Option ℕ → Option ℕ → Option (List ℕ) → Option (List ℕ)
hex_byte none _ _ = none
hex_byte (some a) none _ = none
hex_byte (some a) (some b) none = none
hex_byte (some a) (some b) (some bs) = some ((a * 16 + b) ∷ bs)

-- `hex.DecodeString`
unfoldable pub hex_decode : String → Option (List ℕ)
unfolding hex_value hex_byte
hex_decode String.[] = some []
hex_decode (String.◌∷◌ c String.[]) = none
hex_decode (String.◌∷◌ c (String.◌∷◌ d s)) = hex_byte (hex_value c) (hex_value d) (hex_decode s)

-- A list of bytes.
abbrev pub Bytes : List ℕ → Type 0
Bytes bs = All (λ b. b < 256) bs

-- A test that the numbers below a bound pass.
below : ℕ → (ℕ → Bool) → Bool
below zero p = true
below (suc k) p = p k && below k p

eq_of : (n k : ℕ) → (n == k) ≡ true → n ≡ k
eq_of n k h = ground arith

below-test : (k : ℕ) (p : ℕ → Bool) (n : ℕ) → below k p ≡ true → n < k → p n ≡ true
unfolding below
below-test zero p n h l = ground arith
below-test (suc k) p n h l = elim (Bool-cases (n == k)) [
  | inl e ↦ ground (arith, ap p (eq_of n k e))
  | inr e ↦ ground (arith, below-test k p n)
]

is_value : Option ℕ → ℕ → Bool
is_value none n = false
is_value (some m) n = m == n

is_value-eq : (o : Option ℕ) (n : ℕ) → is_value o n ≡ true → o ≡ some n
unfolding is_value
is_value-eq none n h = cc
is_value-eq (some m) n h = ap some (ground arith)

hex_values : below 16 (λ n. is_value (hex_value (hex_char n)) n) ≡ true
unfolding below is_value hex_value
hex_values = refl

hex_value-char : (n : ℕ) → n < 16 → hex_value (hex_char n) ≡ some n
hex_value-char n h =
    is_value-eq _ n (below-test 16 (λ m. is_value (hex_value (hex_char m)) m) n hex_values h)

-- Bytes that are encoded are the bytes that are decoded.
pub hex_decode-encode : (bs : List ℕ) → Bytes bs → hex_decode (hex_encode bs) ≡ some bs
unfolding hex_encode hex_decode hex_byte
hex_decode-encode [] h = refl
hex_decode-encode (b ∷ bs) h =
    let high = hex_value-char (b / 16) (ground (arith, h.0)) in
    let low = hex_value-char (b % 16) (ground arith) in
    let rest = hex_decode-encode bs h.1 in
    let whole : b / 16 * 16 + b % 16 ≡ b = ground arith in rw (high, low, rest, whole) refl

hex_no_dollar : below 16 (λ n. not (code (hex_char n) == 36)) ≡ true
unfolding below
hex_no_dollar = refl

digit_apart : (n : ℕ) → n < 16 → (code (hex_char n) == 36) ≡ false
digit_apart n h =
    let apart = below-test 16 (λ m. not (code (hex_char m) == 36)) n hex_no_dollar h in
    ground (arith, apart)

split-pass :
    (c : Char) (s p : String) (ps : List String)
    → (code c == 36) ≡ false
    → split s 36 ≡ p ∷ ps
    → split (String.◌∷◌ c s) 36 ≡ String.◌∷◌ c p ∷ ps
unfolding split
split-pass c s p ps apart h = rw (split, apart, h) refl

split-some : (s : String) → (p : String) × (ps : List String) × (split s 36 ≡ p ∷ ps)
unfolding split
split-some String.[] = ("", [], refl)
split-some (String.◌∷◌ c s) =
    let (p, ps, e) = split-some s in
    elim (Bool-cases (code c == 36)) [
      | inl h ↦ ("", split s 36, rw (split, h) refl)
      | inr h ↦ (String.◌∷◌ c p, ps, split-pass c s p ps h e)
    ]

-- Splitting at a dollar between two texts splits both.
pub split-append : (s t : String) → split (s +++ String.◌∷◌ dollar t) 36 ≡ split s 36 ++ split t 36
unfolding split
split-append String.[] t = ap (λ r. split r 36) (λ i. nil (String.◌∷◌ dollar t) i)
split-append (String.◌∷◌ c s) t =
    let (p, ps, e) = split-some s in
    let rest = split-append s t in
    let whole = s +++ String.◌∷◌ dollar t in
    let step = ap (λ r. split r 36) (λ i. cons c s (String.◌∷◌ dollar t) i) in
    step ∙ elim (Bool-cases (code c == 36)) [
      | inl h ↦ rw (split, h, rest) refl
      | inr h ↦
          split-pass c whole p (ps ++ split t 36) h (rest ∙ ap (λ q. q ++ split t 36) e)
          ∙ ap (λ q. q ++ split t 36) (sym (split-pass c s p ps h e))
    ]

-- An encoding has no dollar.
pub split-encode_all : (bs : List ℕ) → Bytes bs → split (hex_encode bs) 36 ≡ hex_encode bs ∷ []
unfolding hex_encode split
split-encode_all [] h = refl
split-encode_all (b ∷ bs) h =
    let rest = hex_encode bs in
    split-pass _ (String.◌∷◌ (hex_char (b % 16)) rest) _ _
      (digit_apart (b / 16) (ground (arith, h.0)))
      (split-pass _ rest _ _ (digit_apart (b % 16) (ground arith)) (split-encode_all bs h.1))
