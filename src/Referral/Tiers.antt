-- ===== src/Referral/Tiers.antt =====
-- The walk over the tiers of a percentage referral.
use manager_key_pro.Base.{
  ℕ, ◌+◌, ◌≤◌, ◌≡◌, refl, ap, Bool, true, false, Option, List, [], ◌∷◌, String, str_eq, eq_iff,
  arith, if◌then◌else◌, inl, inr, exists_row, Option-cases, ◌+++◌,
}
use manager_key_pro.Base.Int.{ℤ}
use manager_key_pro.Store.Types.{User, Earning, Db}
use manager_key_pro.Store.Errors.{Env, Result}
use manager_key_pro.Store.Users.Adjust.{Adjusted, refused, done, adjust_balance_cases}
use manager_key_pro.Store.Settings.{get_json}
use manager_key_pro.Referral.{
  insert_reward, new_earning, grant, pay_tier, reward_of, pay_tiers, parent_of, pay_percent,
}

-- How many earnings a user has.
unfoldable pub earned_by : String → List Earning → ℕ
earned_by w [] = 0
earned_by w (e ∷ es) = let rest = earned_by w es in if str_eq e.user_id w then rest + 1 else rest

Adjusted-earnings :
    (env : Env) (db : Db) (uid : String) (delta : ℤ) (reason ref channel key : String)
    {r : Db × Result ℤ}
    → Adjusted env db uid delta reason ref channel key r
    → r.0.earnings ≡ db.earnings
Adjusted-earnings env db uid delta reason ref channel key (refused e) = refl
Adjusted-earnings env db uid delta reason ref channel key (done u _ _ _ _ _ e) =
    ap (λ (d : Db). d.earnings) e

-- A grant adds at most one earning, which is the upline's.
grant-earned_by :
    (env : Env) (db : Db) (upline from : String) (tier : ℕ) (mode : String) (base reward : ℤ)
    (ref w : String)
    → let after = earned_by w (grant env db upline from tier mode base reward ref).earnings in
      (after ≤ earned_by w db.earnings + 1)
      × (str_eq upline w ≡ false → after ≡ earned_by w db.earnings)
unfolding grant insert_reward earned_by
grant-earned_by env db upline from tier mode base reward ref w =
    let paid = insert_reward env db (new_earning env upline from tier mode base reward ref) in
    let same =
      Adjusted-earnings env paid.0 upline reward "referral_bonus" (ref +++ ":ref") "system" "" (
        adjust_balance_cases env paid.0 upline reward "referral_bonus" (ref +++ ":ref") "system"
          "") in
    ground (arith, same)

pay_tier-earned_by :
    (env : Env) (db : Db) (upline from : String) (tier : ℕ) (amount pct : ℤ) (ref w : String)
    → let after = earned_by w (pay_tier env db upline from tier amount pct ref).earnings in
      (after ≤ earned_by w db.earnings + 1)
      × (str_eq upline w ≡ false → after ≡ earned_by w db.earnings)
unfolding pay_tier
pay_tier-earned_by env db upline from tier amount pct ref w =
    ground
      (arith, grant-earned_by env db upline from tier "percent" amount (reward_of amount pct) ref w)

abbrev is_seen : String → List String → Bool
is_seen w seen = exists_row (λ s. str_eq s w) seen

-- A user whom the walk has met earns nothing more.
pay_tiers-seen :
    (env : Env) (db : Db) (from : String) (amount : ℤ) (ref : String) (tiers : List ℤ) (i : ℕ)
    (upline : String) (seen : List String) (w : String)
    → is_seen w seen ≡ true
    → earned_by w (pay_tiers env db from amount ref tiers i upline seen).earnings
      ≡ earned_by w db.earnings
unfolding pay_tiers exists_row
pay_tiers-seen env db from amount ref [] i upline seen w met = refl
pay_tiers-seen env db from amount ref (pct ∷ tiers) i upline seen w met =
    let db' = pay_tier env db upline from (i + 1) amount pct ref in
    ground (
      arith,
      eq_iff upline w,
      pay_tier-earned_by env db upline from (i + 1) amount pct ref w,
      pay_tiers-seen env db' from amount ref tiers (i + 1) (parent_of env db' upline)
          (upline ∷ seen) w,
    )

-- No user earns twice in one walk.
pay_tiers-once :
    (env : Env) (db : Db) (from : String) (amount : ℤ) (ref : String) (tiers : List ℤ) (i : ℕ)
    (upline : String) (seen : List String) (w : String)
    → earned_by w (pay_tiers env db from amount ref tiers i upline seen).earnings
      ≤ earned_by w db.earnings + 1
unfolding pay_tiers exists_row
pay_tiers-once env db from amount ref [] i upline seen w = omega arith
pay_tiers-once env db from amount ref (pct ∷ tiers) i upline seen w =
    let db' = pay_tier env db upline from (i + 1) amount pct ref in
    ground (
      arith,
      eq_iff upline w,
      pay_tier-earned_by env db upline from (i + 1) amount pct ref w,
      pay_tiers-once env db' from amount ref tiers (i + 1) (parent_of env db' upline)
          (upline ∷ seen) w,
      pay_tiers-seen env db' from amount ref tiers (i + 1) (parent_of env db' upline)
          (upline ∷ seen) w,
    )

-- A percentage referral, whatever the chain of referrers (a cycle included) and whatever fails, adds
-- at most one earning for any user and none for the user who recharged.
pub pay_percent-once :
    (tiers_of : String → Option (List ℤ)) (env : Env) (db : Db) (u : User) (amount : ℤ)
    (ref w : String)
    → let after = (pay_percent tiers_of env db u amount ref).earnings in
      (earned_by w after ≤ earned_by w db.earnings + 1)
      × (earned_by u.id after ≡ earned_by u.id db.earnings)
unfolding pay_percent exists_row
pay_percent-once tiers_of env db u amount ref w =
    elim (Option-cases (get_json tiers_of env db "referral_tiers")) [
      | inl e ↦ ground arith
      | inr (tiers, e) ↦ ground (
        arith,
        eq_iff u.id u.id,
        pay_tiers-once env db u.id amount ref tiers 0 u.referred_by (u.id ∷ []) w,
        pay_tiers-seen env db u.id amount ref tiers 0 u.referred_by (u.id ∷ []) u.id,
      )
    ]
