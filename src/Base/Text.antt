-- ===== src/Base/Text.antt =====
-- Go's `==` and the functions of package strings that the program calls, on ASCII text.
use Prim.Native.Nat.{ℕ, ◌-◌, Ordering}
use Prim.Native.Char.{Char, code}
use Prim.Native.String.{String, char_at, ◌++◌, compare}
use mathlib.Core.Path.{◌≡◌}
use mathlib.Core.Bool.{Bool, true, ◌&&◌, ◌||◌}
use mathlib.Core.List.{List, [], ◌∷◌}
use text.Mathlib.Text.{◌==◌ as same_text, starts_with}
use text.Mathlib.TextEquality.{eq_iff}
use text.Mathlib.TextPositions.{eq_refl}
use manager_key_pro.Base.Tests.{leb, ◌==◌, if◌then◌else◌}

-- `a == b` on strings.
abbrev pub str_eq : String → String → Bool
str_eq a b = same_text a b

-- The order of strings, by bytes.
abbrev pub text_compare : String → String → Ordering
text_compare a b = compare a b

-- `s == ""`
abbrev pub is_empty : String → Bool
is_empty s = str_eq s ""

-- `a + b` on strings.
infixr 65 ◌+++◌
abbrev pub ◌+++◌ : String → String → String
a +++ b = a ++ b

pub str_eq_refl : (s : String) → str_eq s s ≡ true
str_eq_refl s = eq_refl s

pub str_eq-eq : (s t : String) → str_eq s t ≡ true → s ≡ t
str_eq-eq s t h = (eq_iff s t).0 h

abbrev is_upper : ℕ → Bool
is_upper n = leb 65 n && leb n 90

abbrev lower_char : Char → Char
lower_char c = if is_upper (code c) then char_at "abcdefghijklmnopqrstuvwxyz" (code c - 65) else c

-- `strings.ToLower`
unfoldable pub to_lower : String → String
to_lower String.[] = ""
to_lower (String.◌∷◌ c s) = String.◌∷◌ (lower_char c) (to_lower s)

abbrev is_lower : ℕ → Bool
is_lower n = leb 97 n && leb n 122

abbrev upper_char : Char → Char
upper_char c = if is_lower (code c) then char_at "ABCDEFGHIJKLMNOPQRSTUVWXYZ" (code c - 97) else c

-- `strings.ToUpper`
unfoldable pub to_upper : String → String
to_upper String.[] = ""
to_upper (String.◌∷◌ c s) = String.◌∷◌ (upper_char c) (to_upper s)

-- `strings.EqualFold`
unfoldable pub equal_fold : String → String → Bool
unfolding to_lower
equal_fold a b = str_eq (to_lower a) (to_lower b)

abbrev is_space : ℕ → Bool
is_space n = (leb 9 n && leb n 13) || n == 32

trim_left : String → String
trim_left String.[] = ""
trim_left (String.◌∷◌ c s) =
    let rest = trim_left s in if is_space (code c) then rest else String.◌∷◌ c s

-- A space is kept only where something that is no space follows.
keep_unless_last : Char → String → String
keep_unless_last c String.[] = if is_space (code c) then "" else String.◌∷◌ c ""
keep_unless_last c (String.◌∷◌ d s) = String.◌∷◌ c (String.◌∷◌ d s)

trim_right : String → String
unfolding keep_unless_last
trim_right String.[] = ""
trim_right (String.◌∷◌ c s) = keep_unless_last c (trim_right s)

-- `strings.TrimSpace`
unfoldable pub trim_space : String → String
unfolding trim_left trim_right
trim_space s = trim_left (trim_right s)

-- `strings.HasPrefix`
abbrev pub has_prefix : String → String → Bool
has_prefix s p = starts_with s p

-- `strings.TrimSuffix`
unfoldable pub trim_suffix : String → String → String
trim_suffix String.[] t = ""
trim_suffix (String.◌∷◌ c s) t =
    if str_eq (String.◌∷◌ c s) t then "" else String.◌∷◌ c (trim_suffix s t)

-- `strings.HasSuffix`
unfoldable pub has_suffix : String → String → Bool
has_suffix String.[] t = is_empty t
has_suffix (String.◌∷◌ c s) t = str_eq (String.◌∷◌ c s) t || has_suffix s t

-- `strings.Contains`
unfoldable pub contains : String → String → Bool
contains String.[] t = is_empty t
contains (String.◌∷◌ c s) t = has_prefix (String.◌∷◌ c s) t || contains s t

-- A character in front of the first part.
abbrev pub on_first : Char → List String → List String
on_first c [] = String.◌∷◌ c "" ∷ []
on_first c (p ∷ ps) = String.◌∷◌ c p ∷ ps

-- `strings.Split` at a separator of one character, given by its code.
unfoldable pub split : String → ℕ → List String
split String.[] sep = "" ∷ []
split (String.◌∷◌ c s) sep =
    let rest = split s sep in if code c == sep then "" ∷ rest else on_first c rest
