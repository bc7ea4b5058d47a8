-- ===== src/Management/Dispatch.antt =====
-- The routes that are registered with the host are those that are dispatched.
use manager_key_pro.Base.{
  ◌≡◌, refl, Bool, true, false, ◌&&◌, ◌||◌, List, [], ◌∷◌, map, String, str_eq, eq_iff, exists_row,
  arith,
}
use manager_key_pro.Management.Routes.{Route, routes, is_case, registered, is_registered}

abbrev Entry : Type 0
Entry = String × String

-- Every entry of one list stands in another.
within : List Entry → List Entry → Bool
within [] ys = true
within (x ∷ xs) ys = exists_row (is_registered x.0 x.1) ys && within xs ys

found_as :
    (m p m' p' : String) (ys : List Entry)
    → str_eq m m' ≡ true
    → str_eq p p' ≡ true
    → exists_row (is_registered m' p') ys ≡ true
    → exists_row (is_registered m p) ys ≡ true
unfolding exists_row
found_as m p m' p' [] hm hp h = h
found_as m p m' p' (y ∷ ys) hm hp h =
    ground (arith, eq_iff m m', eq_iff p p', found_as m p m' p' ys hm hp)

within-found :
    (m p : String) (xs ys : List Entry)
    → within xs ys ≡ true
    → exists_row (is_registered m p) xs ≡ true
    → exists_row (is_registered m p) ys ≡ true
unfolding within exists_row
within-found m p [] ys w h = ground (arith, h)
within-found m p (x ∷ xs) ys w h =
    ground (arith, w, h, found_as m p x.0 x.1 ys, within-found m p xs ys)

cases-entries :
    (m p : String) (rs : List ((String × String) × Route))
    → exists_row (is_case m p) rs ≡ exists_row (is_registered m p) (map (λ r. r.0) rs)
unfolding exists_row
cases-entries m p [] = refl
cases-entries m p (r ∷ rs) = λ i. is_case m p r || cases-entries m p rs i

registered-within : within registered (map (λ r. r.0) routes) ≡ true
unfolding within exists_row
registered-within = refl

routes-within : within (map (λ r. r.0) routes) registered ≡ true
unfolding within exists_row
routes-within = refl

same_truth : (a b : Bool) → (a ≡ true → b ≡ true) → (b ≡ true → a ≡ true) → a ≡ b
same_truth true b f g = ground (arith, f refl)
same_truth false true f g = g refl
same_truth false false f g = refl

-- A method and a path are registered with the host exactly if the switch of handleManagement has a
-- case for them.
pub registered-routes :
    (method path : String)
    → exists_row (is_registered method path) registered ≡ exists_row (is_case method path) routes
registered-routes method path =
    let cases = cases-entries method path routes in
    let entries = map (λ (r : (String × String) × Route). r.0) routes in
    rw cases (
      same_truth _ _ (within-found method path registered entries registered-within)
        (within-found method path entries registered routes-within))
