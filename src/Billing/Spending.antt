-- ===== src/Billing/Spending.antt =====
-- Where the last switch of `Charge` takes the spend from.
use manager_key_pro.Base.{
  ◌≡◌, refl, ap, Bool, true, false, not, ◌&&◌, ◌||◌, ◌⊎◌, inl, inr, some, String, str_eq,
  if◌then◌else◌, Bool-cases, select_first, exists_row, update_where, update_where-none,
}
use manager_key_pro.Base.Int.{ℤ, pos, neg64, add64, leb_ℤ}
use manager_key_pro.Store.Types.{User, Key, Db}
use manager_key_pro.Store.Errors.{
  Error, wrap, sql_failure, not_found, Result, ok, err, Env, consume_quota, require_one_row,
}
use manager_key_pro.Store.Users.{adjust_balance, user_by_id, can_spend, has_id}
use manager_key_pro.Store.Users.Adjust.{Adjusted, refused, done, adjust_balance_cases, moved}
use manager_key_pro.Store.Keys.{
  consume, update_key_row, used_valid, add_used, has_key_id, has_quota, quota_remaining,
}
use manager_key_pro.Store.Steps.{Result-cases}
use manager_key_pro.Billing.Charge.{charge_extra, charge_wallet, usage_ref}

-- Nothing more is to be paid.
abbrev free_of : Key → ℤ → Bool
free_of key extra = str_eq key.quota_kind "unlimited" || leb_ℤ extra (pos 0)

-- The key's quota has the units.
abbrev fits : Key → ℤ → Bool
fits key extra = has_quota key && leb_ℤ extra (quota_remaining key)

-- Units are to be paid, and the key's quota does not have them.
abbrev Short : Key → ℤ → Type 0
Short key extra = (free_of key extra ≡ false) × (fits key extra ≡ false)

-- What a spend of `extra` units, of cost `cost`, comes to, and when, with the database that it leaves.
pub data Spent (env : Env) (db : Db) (key : Key) (cost extra : ℤ)
    : Db × Result (ℤ × String × ℤ) → Type 0 where
  covered :
      free_of key extra ≡ true → Spent env db key cost extra (db, ok (cost, "key_quota", pos 1))
  from_quota :
      {db' : Db}
      → free_of key extra ≡ false
      → fits key extra ≡ true
      → exists_row (has_key_id key.id) db.keys ≡ true
      → db' ≡ record db { keys = update_where (has_key_id key.id) (add_used env extra) db.keys }
      → Spent env db key cost extra (db', ok (cost, "key_quota", pos 1))
  quota_refused :
      {db' : Db} (e : Error)
      → free_of key extra ≡ false
      → fits key extra ≡ true
      → (consume env db key.id extra).1 ≡ err e
      → db' ≡ db
      → Spent env db key cost extra (db', err (wrap e))
  from_wallet :
      {db' : Db} (user payer : User) (next : ℤ)
      → Short key extra
      → key.overflow_to_wallet ≡ true
      → user_by_id env db key.user_id ≡ ok user
      → can_spend user cost ≡ true
      → select_first (has_id user.id) db.users ≡ some payer
      → next ≡ add64 payer.balance (neg64 cost)
      → db' ≡ moved env db user.id (neg64 cost) "usage" (usage_ref env) "system" key.id next
      → Spent env db key cost extra (db', ok (cost, "wallet", pos 1))
  wallet_refused :
      (user : User) (e : Error)
      → Short key extra
      → key.overflow_to_wallet ≡ true
      → user_by_id env db key.user_id ≡ ok user
      → can_spend user cost ≡ true
      → (adjust_balance env db user.id (neg64 cost) "usage" (usage_ref env) "system" key.id).1
        ≡ err e
      → Spent env db key cost extra (db, err (wrap e))
  owner_unknown :
      (e : Error)
      → Short key extra
      → key.overflow_to_wallet ≡ true
      → user_by_id env db key.user_id ≡ err e
      → Spent env db key cost extra (db, err (wrap e))
  too_poor :
      (user : User)
      → Short key extra
      → key.overflow_to_wallet ≡ true
      → user_by_id env db key.user_id ≡ ok user
      → can_spend user cost ≡ false
      → Spent env db key cost extra (db, ok (pos 0, "", pos 0))
  closed :
      Short key extra
      → key.overflow_to_wallet ≡ false
      → Spent env db key cost extra (db, ok (pos 0, "", pos 0))

-- A consumption is refused and changes nothing, or adds to the use of a key that is there.
pub consume-cases :
    (env : Env) (db : Db) (kid : String) (n : ℤ)
    → ((e : Error) × ((consume env db kid n).1 ≡ err e) × ((consume env db kid n).0 ≡ db))
      ⊎ ((exists_row (has_key_id kid) db.keys ≡ true)
          × ((consume env db kid n).0
              ≡ record db { keys = update_where (has_key_id kid) (add_used env n) db.keys })
          × ((consume env db kid n).1 ≡ ok tt))
unfolding consume update_key_row require_one_row
consume-cases env db kid n =
    elim (Bool-cases (
      env.fails (consume_quota kid)
      || exists_row (λ k. has_key_id kid k && not (used_valid (add_used env n k))) db.keys)) [
        | inl stop ↦ inl (
          wrap sql_failure,
          rw (consume, update_key_row, stop) refl,
          rw (consume, update_key_row, stop) refl,
        )
        | inr go ↦ elim (Bool-cases (exists_row (has_key_id kid) db.keys)) [
          | inl there ↦ inr (
            there,
            rw (consume, update_key_row, go) refl,
            rw (consume, update_key_row, require_one_row, go, there) refl,
          )
          | inr gone ↦ inl (
            not_found,
            rw (consume, update_key_row, require_one_row, go, gone) refl,
            rw (consume, update_key_row, go)
                (ap (λ ks. record db { keys = ks })
                  (update_where-none (has_key_id kid) (add_used env n) db.keys gone)),
          )
        ]
      ]

debited-Spent :
    (env : Env) (db : Db) (key : Key) (cost extra : ℤ) (user : User) {a : Db × Result ℤ}
    → Short key extra
    → key.overflow_to_wallet ≡ true
    → user_by_id env db key.user_id ≡ ok user
    → can_spend user cost ≡ true
    → Adjusted env db user.id (neg64 cost) "usage" (usage_ref env) "system" key.id a
    → adjust_balance env db user.id (neg64 cost) "usage" (usage_ref env) "system" key.id ≡ a
    → Spent env db key cost extra
        (elim a.1 [ err e ↦ (a.0, err (wrap e)) | ok _ ↦ (a.0, ok (cost, "wallet", pos 1)) ])
debited-Spent env db key cost extra user short over found able (refused e) same =
    wallet_refused user e short over found able (ap (λ r. r.1) same)
debited-Spent env db key cost extra user short over found able (done u {next = n} pays _ _ _ en e)
      same =
    from_wallet user u n short over found able pays en e

charge_wallet-Spent :
    (env : Env) (db : Db) (key : Key) (cost extra : ℤ)
    → Short key extra
    → key.overflow_to_wallet ≡ true
    → Spent env db key cost extra (charge_wallet env db key cost)
unfolding charge_wallet
charge_wallet-Spent env db key cost extra short over =
    elim (Result-cases (user_by_id env db key.user_id)) [
      | inl (e, q) ↦ rw (charge_wallet, q) (owner_unknown e short over q)
      | inr (user, q) ↦ elim (Bool-cases (can_spend user cost)) [
        | inl able ↦
            rw (charge_wallet, q, able)
              (debited-Spent env db key cost extra user short over q able
                (adjust_balance_cases env db user.id (neg64 cost) "usage" (usage_ref env) "system"
                  key.id)
                refl)
        | inr unable ↦ rw (charge_wallet, q, unable) (too_poor user short over q unable)
      ]
    ]

overflow-Spent :
    (env : Env) (db : Db) (key : Key) (cost extra : ℤ) (over : Bool)
    → Short key extra
    → key.overflow_to_wallet ≡ over
    → Spent env db key cost extra
        (if over then charge_wallet env db key cost else (db, ok (pos 0, "", pos 0)))
overflow-Spent env db key cost extra true short e =
    charge_wallet-Spent env db key cost extra short e
overflow-Spent env db key cost extra false short e = closed short e

-- The last switch of Charge tries its sources in this order, and spends from one only: nothing more
-- where the hold covered the use or the key is unlimited; else the units from the key's quota if that
-- has them; else the whole cost from the owner's wallet if the key overflows. It is unpaid exactly
-- where the quota is short and the key does not overflow or the owner cannot spend the cost. A paid
-- spend is reported at its full cost, an unpaid one at 0; a spend from the quota changes only that
-- key's row, one from the wallet only that wallet and the ledger; an error has its cause in the source
-- that was tried, and like an unpaid spend it changes nothing.
pub charge_extra-Spent :
    (env : Env) (db : Db) (key : Key) (cost extra : ℤ)
    → Spent env db key cost extra (charge_extra env db key cost extra)
unfolding charge_extra
charge_extra-Spent env db key cost extra = elim (Bool-cases (free_of key extra)) [
  | inl free ↦ rw (charge_extra, free) (covered free)
  | inr more ↦ elim (Bool-cases (fits key extra)) [
    | inl fit ↦ elim (consume-cases env db key.id extra) [
      | inl (e, q, same) ↦ rw (charge_extra, more, fit, q) (quota_refused e more fit q same)
      | inr (there, same, q) ↦ rw (charge_extra, more, fit, q) (from_quota more fit there same)
    ]
    | inr short ↦
        rw (charge_extra, more, short)
          (overflow-Spent env db key cost extra key.overflow_to_wallet (more, short) refl)
  ]
]
