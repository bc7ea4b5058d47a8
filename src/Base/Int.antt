-- ===== src/Base/Int.antt =====
-- Signed integers over the native numbers, and Go's int64: a number in range, where every
-- operation of the program wraps around.
use Prim.Native.Char.{Char}
use Prim.Native.String.{char_at}
use manager_key_pro.Base.{
  ℕ, zero, suc, String, ◌+++◌, ◌+◌, ◌-◌, ◌*◌, ◌/◌, ◌%◌, ◌^◌, ◌≤◌, ◌<◌, ◌≡◌, Bool, arith, ltb, leb,
  if◌then◌else◌,
}

-- `negsuc n` is -(n + 1).
pub data ℤ : Type 0 where
  pos : ℕ → ℤ
  negsuc : ℕ → ℤ

abbrev pub pos_part : ℤ → ℕ
pos_part (pos n) = n
pos_part (negsuc n) = 0

abbrev pub neg_part : ℤ → ℕ
neg_part (pos n) = 0
neg_part (negsuc n) = suc n

-- a - b, as an integer.
abbrev pub sub_ℕ : ℕ → ℕ → ℤ
sub_ℕ a b = if leb b a then pos (a - b) else negsuc (b - a - 1)

infixl 65 ◌+ℤ◌ ◌-ℤ◌
infixl 70 ◌*ℤ◌
infix 50 ◌≤ℤ◌
unfoldable pub ◌+ℤ◌ : ℤ → ℤ → ℤ
a +ℤ b = sub_ℕ (pos_part a + pos_part b) (neg_part a + neg_part b)

unfoldable pub ◌-ℤ◌ : ℤ → ℤ → ℤ
a -ℤ b = sub_ℕ (pos_part a + neg_part b) (neg_part a + pos_part b)

unfoldable pub ◌*ℤ◌ : ℤ → ℤ → ℤ
a *ℤ b =
    sub_ℕ (pos_part a * pos_part b + neg_part a * neg_part b)
      (pos_part a * neg_part b + neg_part a * pos_part b)

abbrev pub ◌≤ℤ◌ : ℤ → ℤ → Type 0
a ≤ℤ b = pos_part a + neg_part b ≤ pos_part b + neg_part a

abbrev pub ltb_ℤ : ℤ → ℤ → Bool
ltb_ℤ a b = ltb (pos_part a + neg_part b) (pos_part b + neg_part a)

abbrev pub leb_ℤ : ℤ → ℤ → Bool
leb_ℤ a b = leb (pos_part a + neg_part b) (pos_part b + neg_part a)

pub +ℤ_parts :
    (a b : ℤ)
    → pos_part (a +ℤ b) + neg_part a + neg_part b ≡ neg_part (a +ℤ b) + pos_part a + pos_part b
unfolding ◌+ℤ◌
+ℤ_parts a b = ground arith

pub -ℤ_parts :
    (a b : ℤ)
    → pos_part (a -ℤ b) + neg_part a + pos_part b ≡ neg_part (a -ℤ b) + pos_part a + neg_part b
unfolding ◌-ℤ◌
-ℤ_parts a b = ground arith

pub eq_of_parts : (a b : ℤ) → pos_part a + neg_part b ≡ pos_part b + neg_part a → a ≡ b
eq_of_parts a b h = ground arith

pub ruleset int_laws = (arith, +ℤ_parts, -ℤ_parts, eq_of_parts)

abbrev pub u64_mod : ℕ
u64_mod = 18446744073709551616

abbrev pub i64_half : ℕ
i64_half = 9223372036854775808

-- The int64 with the low 64 bits of an integer (two's complement).
unfoldable pub wrap64 : ℤ → ℤ
wrap64 z =
    let low = (pos_part z + (u64_mod - neg_part z % u64_mod)) % u64_mod in
    if ltb low i64_half then pos low else negsuc (u64_mod - 1 - low)

-- `a + b`, `a - b`, `a * b` and `-a` on int64.
unfoldable pub add64 : ℤ → ℤ → ℤ
add64 a b = wrap64 (a +ℤ b)

unfoldable pub sub64 : ℤ → ℤ → ℤ
sub64 a b = wrap64 (a -ℤ b)

unfoldable pub mul64 : ℤ → ℤ → ℤ
mul64 a b = wrap64 (a *ℤ b)

abbrev pub neg64 : ℤ → ℤ
neg64 a = sub64 (pos 0) a

-- `a / n` on int64 by a positive constant: Go rounds towards zero.
unfoldable pub div64 : ℤ → ℕ → ℤ
div64 (pos m) n = pos (m / n)
div64 (negsuc m) n = sub_ℕ 0 (suc m / n)

abbrev digit : ℕ → Char
digit n = char_at "0123456789" n

-- The decimal digits of a number below 10 ^ fuel, in front of a text.
show_digits : ℕ → ℕ → String → String
show_digits zero n acc = acc
show_digits (suc fuel) n acc =
    let rest = show_digits fuel (n / 10) (String.◌∷◌ (digit (n % 10)) acc) in
    if ltb n 10 then String.◌∷◌ (digit n) acc else rest

-- `fmt.Sprintf("%d", n)` on int64, whose numbers have at most 19 digits.
unfoldable pub show_int : ℤ → String
unfolding show_digits
show_int (pos n) = show_digits 20 n ""
show_int (negsuc n) = "-" +++ show_digits 20 (suc n) ""

-- An integer that an int64 holds.
abbrev pub InRange : ℤ → Type 0
InRange z = (pos_part z < i64_half) × (neg_part z ≤ i64_half)

pub wrap64-InRange : (z : ℤ) → InRange z → wrap64 z ≡ z
unfolding wrap64
wrap64-InRange (pos n) h = ground arith
wrap64-InRange (negsuc n) h = ground arith

pub add64-eq : (a b : ℤ) → InRange (a +ℤ b) → add64 a b ≡ a +ℤ b
unfolding add64
add64-eq a b h = wrap64-InRange _ h

pub sub64-eq : (a b : ℤ) → InRange (a -ℤ b) → sub64 a b ≡ a -ℤ b
unfolding sub64
sub64-eq a b h = wrap64-InRange _ h
