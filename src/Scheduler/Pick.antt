-- ===== src/Scheduler/Pick.antt =====
-- `HandlePick`: the bound candidates and the weighted round robin over them.
use manager_key_pro.Base.{
  ◌%◌, suc, Bool, true, false, ◌&&◌, ◌||◌, not, Option, none, some, List, [], ◌∷◌, String, str_eq,
  is_empty, trim_space, equal_fold, split, if◌then◌else◌,
}
use manager_key_pro.Base.Int.{ℤ, pos, negsuc, sub_ℕ, pos_part, add64, ltb_ℤ, leb_ℤ}
use manager_key_pro.Store.Types.{Binding, Db}
use manager_key_pro.Store.Errors.{ok, err, Env}
use manager_key_pro.Store.Keys.{key_by_hash}
use manager_key_pro.Scheduler.Bindings.{list_bindings}

-- `PickRequest`, the fields that the code reads; a candidate is its ID.
pub record PickRequest : Type 0 where
  pub provider : String
  pub candidates : List String

-- `PickResponse`
pub record PickResponse : Type 0 where
  pub auth_id : String
  pub delegate_builtin : String
  pub handled : Bool

abbrev pub declined : PickResponse
declined = record { auth_id = ""; delegate_builtin = ""; handled = false }

abbrev pub picked : String → PickResponse
picked id = record { auth_id = id; delegate_builtin = ""; handled = true }

abbrev pub delegated : PickResponse
delegated = record { auth_id = ""; delegate_builtin = "round-robin"; handled = true }

-- The parts of "provider:kind:id", if the text has that form.
unfoldable pub three_parts : List String → Option (String × String)
three_parts (a ∷ _ ∷ c ∷ []) = some (a, c)
three_parts _ = none

-- `candidateMatches`
unfoldable pub candidate_matches : String → String → String → Bool
unfolding three_parts
candidate_matches candidate ref provider =
    let c = trim_space candidate in
    let a = trim_space ref in
    not (is_empty c)
    && not (is_empty a)
    && (str_eq c a
        || elim (three_parts (split a b':')) [
          | none ↦ false
          | some (p, id) ↦ str_eq id c && equal_fold p provider
        ]
        || elim (three_parts (split c b':')) [ none ↦ false | some (p, id) ↦ str_eq id a ])

-- The first enabled binding that a candidate matches gives its share, at least 1.
unfoldable pub share_of : String → String → List Binding → Option ℤ
share_of provider cand [] = none
share_of provider cand (b ∷ bs) =
    if b.enabled && candidate_matches cand b.account_ref provider
    then some (if leb_ℤ b.share_percent (pos 0) then pos 1 else b.share_percent)
    else share_of provider cand bs

-- The candidates that a binding allows, with their shares.
unfoldable pub eligible : String → List Binding → List String → List (String × ℤ)
unfolding share_of
eligible provider bs [] = []
eligible provider bs (cand ∷ cands) = elim (share_of provider cand bs) [
  | none ↦ eligible provider bs cands
  | some share ↦ (cand, share) ∷ eligible provider bs cands
]

-- The sum of the shares.
unfoldable pub total_share : List (String × ℤ) → ℤ → ℤ
total_share [] total = total
total_share ((_, share) ∷ es) total = total_share es (add64 total share)

-- `a % b` on int64 for a positive `b`: the sign is that of `a`.
unfoldable pub rem64 : ℤ → ℤ → ℤ
rem64 (pos m) b = pos (m % pos_part b)
rem64 (negsuc m) b = sub_ℕ 0 (suc m % pos_part b)

-- The loop over the cumulative shares.
unfoldable pub walk : ℤ → ℤ → List (String × ℤ) → String → String
walk slot acc [] fallback = fallback
walk slot acc ((id, share) ∷ es) fallback =
    let acc' = add64 acc share in if ltb_ℤ slot acc' then id else walk slot acc' es fallback

-- `cursors`: the cursor of each key.
abbrev pub Cursors : Type 0
Cursors = String → ℤ

-- The pick among the eligible candidates.
unfoldable pub pick_eligible : Cursors → String → List (String × ℤ) → Cursors × PickResponse
unfolding rem64 walk total_share
pick_eligible cursors kid [] = (cursors, delegated)
pick_eligible cursors kid ((id, share) ∷ []) = (cursors, picked id)
pick_eligible cursors kid ((id, share) ∷ e ∷ es) =
    let elig = (id, share) ∷ e ∷ es in
    let slot = rem64 (cursors kid) (total_share elig (pos 0)) in
    (
      (λ i. if str_eq i kid then add64 (cursors kid) (pos 1) else cursors i),
      picked (walk slot (pos 0) elig id),
    )

-- `HandlePick`
unfoldable pub handle_pick : Env → Db → Cursors → PickRequest → String → Cursors × PickResponse
unfolding eligible
handle_pick env db cursors req hash =
    if is_empty hash then (cursors, declined) else (elim (key_by_hash env db hash) [
      | err e ↦ (cursors, declined)
      | ok key ↦ elim (list_bindings env db key.id) [
        | err e ↦ (cursors, declined)
        | ok [] ↦ (cursors, declined)
        | ok (b ∷ bs) ↦ pick_eligible cursors key.id (eligible req.provider (b ∷ bs) req.candidates)
      ]
    ])
