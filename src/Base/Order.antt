-- ===== src/Base/Order.antt =====
-- Sorting and cutting the rows of a table: ORDER BY and LIMIT.
use Prim.Native.Nat.{ℕ, zero, suc}
use mathlib.Core.Path.{◌≡◌}
use mathlib.Core.Bool.{Bool, true}
use mathlib.Core.List.{List, [], ◌∷◌}
use native.Mathlib.Omega.{arith}
use manager_key_pro.Base.Tests.{if◌then◌else◌}
use manager_key_pro.Base.Table.{All, select_all}

module _ {ℓ} {A : Type ℓ} where
  insert_by : (A → A → Bool) → A → List A → List A
  insert_by before x [] = x ∷ []
  insert_by before x (y ∷ ys) =
      let rest = insert_by before x ys in if before y x then y ∷ rest else x ∷ y ∷ ys

  -- Rows of which neither comes before the other keep their order.
  unfoldable pub order_by : (A → A → Bool) → List A → List A
  unfolding insert_by
  order_by before [] = []
  order_by before (x ∷ xs) = insert_by before x (order_by before xs)

  unfoldable pub take : ℕ → List A → List A
  take zero xs = []
  take (suc n) [] = []
  take (suc n) (x ∷ xs) = x ∷ take n xs

  insert_by-All {κ} :
      (P : A → Type κ) (before : A → A → Bool) (x : A) (ys : List A)
      → P x
      → All P ys
      → All P (insert_by before x ys)
  unfolding insert_by
  insert_by-All P before x [] p h = (p, tt)
  insert_by-All P before x (y ∷ ys) p h = ground (arith, insert_by-All P before x ys p h.1)

  pub order_by-All {κ} :
      (P : A → Type κ) (before : A → A → Bool) (xs : List A) → All P xs → All P (order_by before xs)
  unfolding order_by
  order_by-All P before [] h = tt
  order_by-All P before (x ∷ xs) h =
      insert_by-All P before x (order_by before xs) h.0 (order_by-All P before xs h.1)

  pub take-All {κ} : (P : A → Type κ) (n : ℕ) (xs : List A) → All P xs → All P (take n xs)
  unfolding take
  take-All P zero xs h = tt
  take-All P (suc n) [] h = tt
  take-All P (suc n) (x ∷ xs) h = (h.0, take-All P n xs h.1)

  -- The rows that a test selects pass it.
  pub select_all-All : (p : A → Bool) (xs : List A) → All (λ x. p x ≡ true) (select_all p xs)
  unfolding select_all
  select_all-All p [] = tt
  select_all-All p (x ∷ xs) = ground (arith, select_all-All p xs)
