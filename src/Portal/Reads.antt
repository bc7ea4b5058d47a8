-- ===== src/Portal/Reads.antt =====
-- internal/portal/handlers.go and portal_extra.go: the lists that a user is shown. Rows are the newest
-- first; rows of one time stand in the table's order.
use manager_key_pro.Base.{
  ℕ, Bool, false, List, [], ◌∷◌, String, ◌+++◌, str_eq, if◌then◌else◌, select_all, order_by, take,
  length,
}
use manager_key_pro.Base.Int.{ℤ, pos, ltb_ℤ, ◌+ℤ◌}
use manager_key_pro.Store.Types.{Key, LedgerRow, UsageRow, Package, Order, Earning, Db}
use manager_key_pro.Store.Errors.{sql_failure, wrap, Result, ok, err, Env, select_rows}
use manager_key_pro.Store.Users.{user_by_id}
use manager_key_pro.Portal.{
  Config, Portal, Primitives, Visit, HttpRequest, Reply, key_list, wallet, usage, referrals,
  package_list, order_list, internal_error,
}
use manager_key_pro.Portal.Sessions.{with_session}

-- `SELECT … FROM table WHERE owner = uid ORDER BY created_at DESC LIMIT n`
unfoldable pub newest {ℓ} : {A : Type ℓ} → (A → String) → (A → ℤ) → ℕ → String → List A → List A
newest owner created n uid rows =
    take n (
      order_by (λ a b. ltb_ℤ (created b) (created a)) (select_all (λ a. str_eq (owner a) uid) rows))

-- `KeysRepo.ListByUser`, at most 100 keys.
unfoldable pub keys_of_user : Env → Db → String → Result (List Key)
unfolding newest
keys_of_user env db uid =
    if env.fails (select_rows "keys" uid)
    then err (wrap sql_failure)
    else ok (newest (λ (k : Key). k.user_id) (λ (k : Key). k.created_at) 100 uid db.keys)

-- `handleMyKeys`
unfoldable pub handle_my_keys : Primitives → Visit → Portal → HttpRequest → Portal × Reply
unfolding keys_of_user
handle_my_keys pr visit portal req = with_session pr visit portal req (λ entered sess. (
  entered,
  elim (keys_of_user visit.env entered.db sess.user_id) [
    | err e ↦ internal_error e
    | ok keys ↦ (200, key_list keys)
  ],
))

-- `handleMyWallet`
unfoldable pub handle_my_wallet : Primitives → Visit → Portal → HttpRequest → Portal × Reply
unfolding newest
handle_my_wallet pr visit portal req = with_session pr visit portal req (λ entered sess. (
  entered,
  elim (user_by_id visit.env entered.db sess.user_id) [
    | err e ↦ internal_error e
    | ok u ↦
        if visit.env.fails (select_rows "credit_ledger" sess.user_id)
        then internal_error sql_failure
        else (
          200,
          wallet u (
              newest (λ (r : LedgerRow). r.user_id) (λ (r : LedgerRow). r.created_at) 50
                sess.user_id entered.db.ledger),
        )
  ],
))

-- `handleMyUsage`
unfoldable pub handle_my_usage : Primitives → Visit → Portal → HttpRequest → Portal × Reply
unfolding newest
handle_my_usage pr visit portal req = with_session pr visit portal req (λ entered sess. (
  entered,
  if visit.env.fails (select_rows "usage_records" sess.user_id)
      then internal_error sql_failure
      else (
        200,
        usage (
            newest (λ (r : UsageRow). r.user_id) (λ (r : UsageRow). r.created_at) 100 sess.user_id
              entered.db.usage_records),
      ),
))

-- `handleMyOrders`
unfoldable pub handle_my_orders : Primitives → Visit → Portal → HttpRequest → Portal × Reply
unfolding newest
handle_my_orders pr visit portal req = with_session pr visit portal req (λ entered sess. (
  entered,
  if visit.env.fails (select_rows "orders" sess.user_id) then internal_error sql_failure else (
    200,
    order_list (
        newest (λ (o : Order). o.user_id) (λ (o : Order). o.created_at) 100 sess.user_id
          entered.db.orders),
  ),
))

-- `SUM(reward)`; SQLite's sum of integers.
total_reward : List Earning → ℤ
total_reward [] = pos 0
total_reward (e ∷ es) = e.reward +ℤ total_reward es

-- The number of accounts that a user has referred; 0 where the statement fails.
unfoldable pub downline_count : Env → Db → String → ℕ
downline_count env db uid =
    if env.fails (select_rows "users" uid)
    then 0
    else length (select_all (λ u. str_eq u.referred_by uid) db.users)

-- What a user has earned by referrals; 0 where the statement fails.
unfoldable pub total_earned : Env → Db → String → ℤ
unfolding total_reward
total_earned env db uid =
    if env.fails (select_rows "referral_earnings" uid)
    then pos 0
    else total_reward (select_all (λ e. str_eq e.user_id uid) db.earnings)

-- `handleMyReferrals`
unfoldable pub handle_my_referrals :
    Primitives → Config → Visit → Portal → HttpRequest → Portal × Reply
unfolding downline_count total_earned
handle_my_referrals pr cfg visit portal req = with_session pr visit portal req (λ entered sess. (
  entered,
  elim (user_by_id visit.env entered.db sess.user_id) [
    | err e ↦ internal_error e
    | ok u ↦ (
      200,
      referrals u.referral_code (cfg.base_url +++ "/?ref=" +++ u.referral_code)
          (downline_count visit.env entered.db sess.user_id)
          (total_earned visit.env entered.db sess.user_id),
    )
  ],
))

-- `PackagesRepo.List`
unfoldable pub list_packages : Env → Db → Bool → Result (List Package)
list_packages env db include_hidden =
    if env.fails (select_rows "packages" "")
    then err (wrap sql_failure)
    else ok (
        order_by (λ a b. ltb_ℤ a.price_credit b.price_credit)
          (if include_hidden then db.packages else select_all (λ p. p.visible) db.packages))

-- `handlePublicPackages`
unfoldable pub handle_public_packages : Visit → Portal → Reply
unfolding list_packages
handle_public_packages visit portal = elim (list_packages visit.env portal.db false) [
  | err e ↦ internal_error e
  | ok pkgs ↦ (200, package_list pkgs)
]
