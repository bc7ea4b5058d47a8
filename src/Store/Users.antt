-- ===== src/Store/Users.antt =====
-- internal/store/users_repo.go: the wallets.
pub mod Accounts
pub mod Adjust
pub mod Ledger
use manager_key_pro.Base.{
  Bool, false, not, ◌&&◌, ◌||◌, Option, none, some, ◌∷◌, String, is_empty, trim_space, str_eq,
  if◌then◌else◌, select_first, exists_row, update_where,
}
use manager_key_pro.Base.Int.{ℤ, pos, add64, sub64, neg64, ltb_ℤ, leb_ℤ}
use manager_key_pro.Store.Types.{User, LedgerRow, Db}
use manager_key_pro.Store.Errors.{
  not_found, duplicate, insufficient_balance, sql_failure, message, wrap, Result, ok, err,
  null_if_empty, coalesce, Env, select_user, update_wallet, insert_ledger, update_user, insert_user,
  random_bytes, require_one_row, run_tx,
}

-- `User.IsAdmin`
unfoldable pub is_admin : User → Bool
is_admin u = str_eq u.role "admin"

-- `User.CanSpend`
unfoldable pub can_spend : User → ℤ → Bool
can_spend u cost =
    if str_eq u.wallet_mode "postpaid"
    then leb_ℤ (neg64 u.credit_limit) (sub64 u.balance cost)
    else leb_ℤ (pos 0) (sub64 u.balance cost)

abbrev pub has_id : String → User → Bool
has_id uid u = str_eq u.id uid

-- `UsersRepo.ByID`
unfoldable pub user_by_id : Env → Db → String → Result User
user_by_id env db uid =
    if env.fails (select_user uid)
    then err (wrap sql_failure)
    else (elim (select_first (has_id uid) db.users) [ none ↦ err not_found | some u ↦ ok u ])

-- `UsersRepo.ByUsername`
unfoldable pub user_by_username : Env → Db → String → Result User
user_by_username env db username =
    if env.fails (select_user username)
    then err (wrap sql_failure)
    else (elim (select_first (λ u. str_eq u.username (trim_space username)) db.users) [
      | none ↦ err not_found
      | some u ↦ ok u
    ])

abbrev pub has_telegram : String → User → Bool
has_telegram t u = elim u.telegram_id [ none ↦ false | some i ↦ str_eq i t ]

-- `UsersRepo.ByTelegramID`
unfoldable pub user_by_telegram_id : Env → Db → String → Result User
user_by_telegram_id env db t =
    if env.fails (select_user t)
    then err (wrap sql_failure)
    else (elim (select_first (has_telegram t) db.users) [ none ↦ err not_found | some u ↦ ok u ])

-- The unique index idx_ledger_tx: one row for each telegram transaction.
abbrev pub is_telegram_ref : Option String → Option String → LedgerRow → Bool
is_telegram_ref none _ row = false
is_telegram_ref (some ref) none row = false
is_telegram_ref (some ref) (some ch) row =
    str_eq ch "telegram"
    && elim row.channel [ none ↦ false | some c ↦ str_eq c "telegram" ]
    && elim row.ref_id [ none ↦ false | some r ↦ str_eq r ref ]

-- The lowest balance that a debit may leave.
abbrev pub wallet_floor : User → ℤ
wallet_floor u = if str_eq u.wallet_mode "postpaid" then neg64 u.credit_limit else pos 0

abbrev pub set_balance : ℤ → User → User
set_balance next u = record u { balance = next }

-- The ledger row of a move.
abbrev pub ledger_row : Env → String → ℤ → String → String → String → String → ℤ → LedgerRow
ledger_row env uid delta reason ref channel key next = record {
  user_id = uid;
  key_id = null_if_empty key;
  delta = delta;
  reason = reason;
  ref_id = null_if_empty ref;
  channel = null_if_empty channel;
  balance_after = next;
  created_at = env.now;
}

-- The CHECK on the reason of a ledger row.
unfoldable pub reason_valid : String → Bool
reason_valid r =
    str_eq r "recharge"
    || str_eq r "usage"
    || str_eq r "purchase"
    || str_eq r "renew"
    || str_eq r "refund"
    || str_eq r "overflow"
    || str_eq r "referral_bonus"
    || str_eq r "adjust"
    || str_eq r "hold"

-- The statements behind the balance test: the wallet's update, then the ledger row.
move_wallet : Env → String → ℤ → ℤ → String → String → String → String → Db → Db × Result ℤ
move_wallet env uid next delta reason ref channel key db =
    if env.fails (update_wallet uid)
    then (db, err (wrap sql_failure))
    else (let db' = record db { users = update_where (has_id uid) (set_balance next) db.users } in
        if env.fails (insert_ledger uid) || not (reason_valid reason)
        then (db', err (wrap sql_failure))
        else if exists_row (is_telegram_ref (null_if_empty ref) (null_if_empty channel)) db'.ledger
        then (db', err duplicate)
        else (
          record db' { ledger = ledger_row env uid delta reason ref channel key next ∷ db'.ledger },
          ok next,
        ))

-- The function that `AdjustBalance` runs in a transaction.
adjust_tx : Env → String → ℤ → String → String → String → String → Db → Db × Result ℤ
unfolding move_wallet
adjust_tx env uid delta reason ref channel key db =
    if env.fails (select_user uid)
    then (db, err (wrap sql_failure))
    else (elim (select_first (has_id uid) db.users) [
      | none ↦ (db, err not_found)
      | some u ↦
          let next = add64 u.balance delta in
          if ltb_ℤ delta (pos 0) && ltb_ℤ next (wallet_floor u)
          then (db, err insufficient_balance)
          else move_wallet env uid next delta reason ref channel key db
    ])

-- `UsersRepo.AdjustBalance`
unfoldable pub adjust_balance :
    Env → Db → String → ℤ → String → String → String → String → Db × Result ℤ
unfolding adjust_tx run_tx
adjust_balance env db uid delta reason ref channel key =
    run_tx env (adjust_tx env uid delta reason ref channel key) db
