-- ===== src/Referral.antt =====
-- internal/referral/referral.go: rewards for the referrers of a user who recharges.
pub mod Steps
pub mod Tiers
use manager_key_pro.Base.{
  ℕ, ◌+◌, Bool, true, false, not, ◌&&◌, ◌||◌, Option, none, some, List, [], ◌∷◌, String, str_eq,
  is_empty, ◌+++◌, if◌then◌else◌, select_first, exists_row,
}
use manager_key_pro.Base.Int.{ℤ, pos, ◌+ℤ◌, mul64, div64, ltb_ℤ, leb_ℤ}
use manager_key_pro.Store.Types.{User, Earning, LedgerRow, Db}
use manager_key_pro.Store.Errors.{
  Error, sql_unique, sql_failure, Result, ok, err, null_str, is_duplicate, Env, insert_earning,
  select_parent, sum_recharges,
}
use manager_key_pro.Store.Users.{user_by_id, adjust_balance, has_id}
use manager_key_pro.Store.Settings.{get_setting, get_int, get_json}

-- The unique index on (user_id, from_user_id) of fixed rewards.
abbrev pub same_fixed : Earning → Earning → Bool
same_fixed n e =
    str_eq n.mode "fixed"
    && str_eq e.mode "fixed"
    && str_eq e.user_id n.user_id
    && str_eq e.from_user_id n.from_user_id

-- `INSERT INTO referral_earnings`, with its foreign keys.
unfoldable pub insert_reward : Env → Db → Earning → Db × Result (Unit {0})
insert_reward env db e =
    if env.fails (insert_earning e.user_id)
      || not (exists_row (has_id e.user_id) db.users)
      || not (exists_row (has_id e.from_user_id) db.users)
    then (db, err sql_failure)
    else if exists_row (same_fixed e) db.earnings
    then (db, err sql_unique)
    else (record db { earnings = e ∷ db.earnings }, ok tt)

abbrev pub new_earning : Env → String → String → ℕ → String → ℤ → ℤ → String → Earning
new_earning env upline from tier mode base reward ref = record {
  user_id = upline;
  from_user_id = from;
  tier = tier;
  mode = mode;
  base_amount = base;
  reward = reward;
  ref_id = null_str ref;
  created_at = env.now;
}

-- `grant`: the earning first, then the wallet. Both errors of the insert end the grant.
unfoldable pub grant : Env → Db → String → String → ℕ → String → ℤ → ℤ → String → Db
grant env db upline from tier mode base reward ref =
    let (db', r) = insert_reward env db (new_earning env upline from tier mode base reward ref) in
    elim r [
      | err _ ↦ db'
      | ok _ ↦
          (adjust_balance env db' upline reward "referral_bonus" (ref +++ ":ref") "system" "").0
    ]

-- `parentOf`
unfoldable pub parent_of : Env → Db → String → String
parent_of env db uid =
    if env.fails (select_parent uid)
    then ""
    else (elim (select_first (has_id uid) db.users) [ none ↦ "" | some u ↦ u.referred_by ])

-- `amount * pct / 100` on int64.
unfoldable pub reward_of : ℤ → ℤ → ℤ
reward_of amount pct = div64 (mul64 amount pct) 100

-- One round of the loop: the grant of a tier, if its percentage and the reward are positive.
unfoldable pub pay_tier : Env → Db → String → String → ℕ → ℤ → ℤ → String → Db
unfolding reward_of
pay_tier env db upline from tier amount pct ref =
    let reward = reward_of amount pct in
    if ltb_ℤ (pos 0) pct && ltb_ℤ (pos 0) reward
    then grant env db upline from tier "percent" amount reward ref
    else db

-- The loop of `payPercent`; `seen` are the users that the walk has met.
unfoldable pub pay_tiers : Env → Db → String → ℤ → String → List ℤ → ℕ → String → List String → Db
pay_tiers env db from amount ref [] i upline seen = db
pay_tiers env db from amount ref (pct ∷ tiers) i upline seen =
    let db' = pay_tier env db upline from (i + 1) amount pct ref in
    let rest =
      pay_tiers env db' from amount ref tiers (i + 1) (parent_of env db' upline) (upline ∷ seen) in
    if is_empty upline || exists_row (λ s. str_eq s upline) seen then db else rest

-- `payPercent`; `tiers_of` is json.Unmarshal into a list of int64.
unfoldable pub pay_percent : (String → Option (List ℤ)) → Env → Db → User → ℤ → String → Db
pay_percent tiers_of env db u amount ref = elim (get_json tiers_of env db "referral_tiers") [
  | none ↦ db
  | some tiers ↦ pay_tiers env db u.id amount ref tiers 0 u.referred_by (u.id ∷ [])
]

-- The sum of a user's recharges in the ledger (SQLite's sum).
unfoldable pub recharged : String → List LedgerRow → ℤ
recharged uid [] = pos 0
recharged uid (row ∷ rows) =
    let rest = recharged uid rows in
    if str_eq row.user_id uid && str_eq row.reason "recharge" && ltb_ℤ (pos 0) row.delta
    then rest +ℤ row.delta
    else rest

-- The total that the threshold is compared with: 0 where the query fails.
abbrev pub total_recharged : Env → Db → String → ℤ
total_recharged env db uid =
    if env.fails (sum_recharges uid) then pos 0 else recharged uid db.ledger

-- `payFixed`
unfoldable pub pay_fixed : Env → Db → User → String → Db
pay_fixed env db u ref =
    let qualify = get_int env db "referral_qualify_recharge" (pos 0) in
    let fixed = get_int env db "referral_fixed_credit" (pos 0) in
    if ltb_ℤ (pos 0) qualify && ltb_ℤ (total_recharged env db u.id) qualify
    then db
    else if leb_ℤ fixed (pos 0) || is_empty u.referred_by
    then db
    else grant env db u.referred_by u.id 1 "fixed" (pos 0) fixed ref

-- `OnRecharge`
unfoldable pub on_recharge : (String → Option (List ℤ)) → Env → Db → String → ℤ → String → Db
on_recharge tiers_of env db uid amount ref =
    if leb_ℤ amount (pos 0) then db else (elim (user_by_id env db uid) [
      | err _ ↦ db
      | ok u ↦
          if is_empty u.referred_by
          then db
          else (let mode = get_setting env db "referral_mode" in
              if str_eq mode "percent"
              then pay_percent tiers_of env db u amount ref
              else if str_eq mode "fixed"
              then pay_fixed env db u ref
              else db)
    ])
