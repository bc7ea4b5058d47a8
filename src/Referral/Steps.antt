-- ===== src/Referral/Steps.antt =====
-- The rewards as sequences of atomic changes of the database.
use manager_key_pro.Base.{
  ◌+◌, ℕ, List, [], ◌∷◌, Option, inl, inr, String, arith, ◌+++◌, Option-cases,
}
use manager_key_pro.Base.Int.{ℤ, pos}
use manager_key_pro.Store.Types.{User, Earning, Db}
use manager_key_pro.Store.Errors.{Env}
use manager_key_pro.Store.Users.{user_by_id}
use manager_key_pro.Store.Settings.{get_int, get_json}
use manager_key_pro.Store.Steps.{
  Steps, Steps-trans, here, next, noted, here_at, Result-cases, adjust_balance-Steps,
}
use manager_key_pro.Referral.{
  insert_reward, new_earning, grant, pay_tier, reward_of, pay_tiers, parent_of, pay_percent,
  pay_fixed, on_recharge,
}

earned-Steps : (db : Db) (es : List Earning) → Steps db (record db { earnings = es })
earned-Steps db es = next here (noted db.orders es db.audit_log db.quota_history)

insert_reward-Steps : (env : Env) (db : Db) (e : Earning) → Steps db (insert_reward env db e).0
unfolding insert_reward
insert_reward-Steps env db e = ground (arith, here_at db, earned-Steps db (e ∷ db.earnings))

pub grant-Steps :
    (env : Env) (db : Db) (upline from : String) (tier : ℕ) (mode : String) (base reward : ℤ)
    (ref : String)
    → Steps db (grant env db upline from tier mode base reward ref)
unfolding grant
grant-Steps env db upline from tier mode base reward ref =
    let e = new_earning env upline from tier mode base reward ref in
    let reached = insert_reward-Steps env db e in
    ground (
      arith,
      reached,
      Steps-trans reached (
          adjust_balance-Steps env (insert_reward env db e).0 upline reward "referral_bonus"
            (ref +++ ":ref") "system" ""),
    )

pay_tier-Steps :
    (env : Env) (db : Db) (upline from : String) (tier : ℕ) (amount pct : ℤ) (ref : String)
    → Steps db (pay_tier env db upline from tier amount pct ref)
unfolding pay_tier
pay_tier-Steps env db upline from tier amount pct ref = ground (
  arith,
  here_at db,
  grant-Steps env db upline from tier "percent" amount (reward_of amount pct) ref,
)

pay_tiers-Steps :
    (env : Env) (db : Db) (from : String) (amount : ℤ) (ref : String) (tiers : List ℤ) (i : ℕ)
    (upline : String) (seen : List String)
    → Steps db (pay_tiers env db from amount ref tiers i upline seen)
unfolding pay_tiers
pay_tiers-Steps env db from amount ref [] i upline seen = here
pay_tiers-Steps env db from amount ref (pct ∷ tiers) i upline seen =
    let db' = pay_tier env db upline from (i + 1) amount pct ref in
    ground (
      arith,
      here_at db,
      Steps-trans (pay_tier-Steps env db upline from (i + 1) amount pct ref) (
          pay_tiers-Steps env db' from amount ref tiers (i + 1) (parent_of env db' upline)
            (upline ∷ seen)),
    )

pay_percent-Steps :
    (tiers_of : String → Option (List ℤ)) (env : Env) (db : Db) (u : User) (amount : ℤ)
    (ref : String)
    → Steps db (pay_percent tiers_of env db u amount ref)
unfolding pay_percent
pay_percent-Steps tiers_of env db u amount ref =
    elim (Option-cases (get_json tiers_of env db "referral_tiers")) [
      | inl e ↦ ground (arith, here_at db)
      | inr (tiers, e) ↦
          ground (arith, pay_tiers-Steps env db u.id amount ref tiers 0 u.referred_by (u.id ∷ []))
    ]

pay_fixed-Steps :
    (env : Env) (db : Db) (u : User) (ref : String) → Steps db (pay_fixed env db u ref)
unfolding pay_fixed
pay_fixed-Steps env db u ref = ground (
  arith,
  here_at db,
  grant-Steps env db u.referred_by u.id 1 "fixed" (pos 0)
      (get_int env db "referral_fixed_credit" (pos 0)) ref,
)

-- The rewards of a recharge are a sequence of changes.
pub on_recharge-Steps :
    (tiers_of : String → Option (List ℤ)) (env : Env) (db : Db) (uid : String) (amount : ℤ)
    (ref : String)
    → Steps db (on_recharge tiers_of env db uid amount ref)
unfolding on_recharge
on_recharge-Steps tiers_of env db uid amount ref = elim (Result-cases (user_by_id env db uid)) [
  | inl (e, q) ↦ ground (arith, here_at db)
  | inr (u, q) ↦ ground (
    arith,
    here_at db,
    pay_percent-Steps tiers_of env db u amount ref,
    pay_fixed-Steps env db u ref,
  )
]
