-- ===== src/Base/Table.antt =====
-- A table as the list of its rows: what the SQL statements of the program do to it.
use mathlib.Core.Path.{◌≡◌, refl, ap, subst}
use mathlib.Core.Bool.{Bool, true, false, ◌||◌}
use mathlib.Core.Logic.{inl, inr}
use mathlib.Core.Option.{Option, none, some}
use mathlib.Core.List.{◌++◌, List, [], ◌∷◌}
use native.Mathlib.Omega.{arith}
use manager_key_pro.Base.Tests.{if◌then◌else◌, Bool-cases}

module _ {ℓ} {A : Type ℓ} where
  -- `SELECT … WHERE p LIMIT 1`, or a lookup by a key.
  unfoldable pub select_first : (A → Bool) → List A → Option A
  select_first p [] = none
  select_first p (x ∷ xs) = if p x then some x else select_first p xs

  -- `SELECT … WHERE p`
  unfoldable pub select_all : (A → Bool) → List A → List A
  select_all p [] = []
  select_all p (x ∷ xs) = let rest = select_all p xs in if p x then x ∷ rest else rest

  -- `EXISTS (SELECT … WHERE p)`
  unfoldable pub exists_row : (A → Bool) → List A → Bool
  exists_row p [] = false
  exists_row p (x ∷ xs) = p x || exists_row p xs

  -- `UPDATE … SET f WHERE p`
  unfoldable pub update_where : (A → Bool) → (A → A) → List A → List A
  update_where p f [] = []
  update_where p f (x ∷ xs) = (if p x then f x else x) ∷ update_where p f xs

  -- `DELETE … WHERE p`
  unfoldable pub delete_where : (A → Bool) → List A → List A
  delete_where p [] = []
  delete_where p (x ∷ xs) = let rest = delete_where p xs in if p x then rest else x ∷ rest

  -- Every row has a property.
  abbrev pub All {κ} : (A → Type κ) → List A → Type κ
  All P [] = Unit
  All P (x ∷ xs) = P x × All P xs

  -- An update that keeps the property on the rows that it changes keeps it everywhere.
  pub update_where-All {κ} :
      (P : A → Type κ) (p : A → Bool) (f : A → A) (xs : List A)
      → ((x : A) → P x → p x ≡ true → P (f x))
      → All P xs
      → All P (update_where p f xs)
  unfolding update_where
  update_where-All P p f [] keep h = tt
  update_where-All P p f (x ∷ xs) keep h =
      ground (arith, keep x, update_where-All P p f xs keep h.1)

  -- An update of rows that are not there changes nothing.
  pub update_where-none :
      (p : A → Bool) (f : A → A) (xs : List A) → exists_row p xs ≡ false → update_where p f xs ≡ xs
  unfolding exists_row update_where
  update_where-none p f [] h = refl
  update_where-none p f (x ∷ xs) h = ground (arith, update_where-none p f xs)

  -- The first row that passes a test, behind rows that do not.
  pub select_first-behind :
      (p : A → Bool) (before : List A) (x : A) (after : List A)
      → All (λ y. p y ≡ false) before
      → p x ≡ true
      → select_first p (before ++ (x ∷ after)) ≡ some x
  unfolding select_first
  select_first-behind p [] x after others hit = rw (select_first, hit) refl
  select_first-behind p (y ∷ before) x after others hit =
      ground (arith, others, select_first-behind p before x after others.1 hit)

  -- A row that is found is a row that passes the test and has what all rows have.
  pub select_first-test :
      (p : A → Bool) (xs : List A) {x : A} → select_first p xs ≡ some x → p x ≡ true
  unfolding select_first
  select_first-test p [] h = cc
  select_first-test p (y ∷ xs) {x} h = ground (arith, select_first-test p xs {x = x})

  pub select_first-All {κ} :
      (P : A → Type κ) (p : A → Bool) (xs : List A) {x : A}
      → All P xs
      → select_first p xs ≡ some x
      → P x
  unfolding select_first
  select_first-All P p [] h e = cc
  select_first-All P p (y ∷ xs) {x} h e = elim (Bool-cases (p y)) [
    | inl hit ↦ subst P (ground arith) h.0
    | inr miss ↦ select_first-All P p xs h.1 (ground arith)
  ]

  -- The first match after an update that keeps the test is the updated first match.
  pub select_first-update_self :
      (p : A → Bool) (f : A → A) (xs : List A) {x : A}
      → ((y : A) → p y ≡ true → p (f y) ≡ true)
      → select_first p xs ≡ some x
      → select_first p (update_where p f xs) ≡ some (f x)
  unfolding select_first update_where
  select_first-update_self p f [] keep h = cc
  select_first-update_self p f (y ∷ xs) {x} keep h =
      ground (arith, keep y, select_first-update_self p f xs {x = x} keep)

  -- An update of rows by one test leaves a lookup by another alone, where no row passes both.
  pub select_first-update_ne :
      (p q : A → Bool) (f : A → A) (xs : List A)
      → ((y : A) → p y ≡ true → (q y ≡ false) × (q (f y) ≡ false))
      → select_first q (update_where p f xs) ≡ select_first q xs
  unfolding select_first update_where
  select_first-update_ne p q f [] apart = refl
  select_first-update_ne p q f (y ∷ xs) apart =
      ground (arith, apart y, select_first-update_ne p q f xs apart)

  -- An update that keeps a test, of rows among which the first match is, updates the first match.
  pub select_first-update_hit :
      (p q : A → Bool) (f : A → A) (xs : List A) {x : A}
      → ((y : A) → q (f y) ≡ q y)
      → select_first q xs ≡ some x
      → p x ≡ true
      → select_first q (update_where p f xs) ≡ some (f x)
  unfolding select_first update_where
  select_first-update_hit p q f [] keep h hit = cc
  select_first-update_hit p q f (y ∷ xs) {x} keep h hit = elim (Bool-cases (q y)) [
    | inl e ↦ let same : y ≡ x = ground (arith) in ground (arith, keep y, ap p same, ap f same)
    | inr e ↦ ground (arith, keep y, select_first-update_hit p q f xs {x = x} keep)
  ]

  -- Rows that a deletion takes away are not looked for.
  pub select_first-delete_ne :
      (p q : A → Bool) (xs : List A)
      → ((x : A) → q x ≡ true → p x ≡ false)
      → select_first q (delete_where p xs) ≡ select_first q xs
  unfolding select_first delete_where
  select_first-delete_ne p q [] apart = refl
  select_first-delete_ne p q (x ∷ xs) apart =
      ground (arith, apart x, select_first-delete_ne p q xs apart)

  -- After a deletion no row passes its test.
  pub select_first-delete_self :
      (p : A → Bool) (xs : List A) → select_first p (delete_where p xs) ≡ none
  unfolding select_first delete_where
  select_first-delete_self p [] = refl
  select_first-delete_self p (x ∷ xs) = ground (arith, select_first-delete_self p xs)
