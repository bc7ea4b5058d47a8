-- ===== src/Billing/Limits.antt =====
-- What a hold takes from a key's quota.
use manager_key_pro.Base.{
  ℕ, ◌≡◌, true, false, some, str_eq, arith, select_first, select_first-update_self, ◌<◌,
}
use manager_key_pro.Base.Int.{ℤ, pos, ◌+ℤ◌, ◌-ℤ◌, ◌≤ℤ◌, i64_half, sub64, sub64-eq}
use manager_key_pro.Store.Types.{Key, Db}
use manager_key_pro.Store.Errors.{Env}
use manager_key_pro.Store.Keys.{
  consume, update_key_row, add_used, has_key_id, has_quota, quota_remaining,
}
use manager_key_pro.Billing.Hold.{hold_quota, capped}

-- A hold of at most what remains.
capped-within :
    (hold : ℤ) (used amount : ℕ)
    → amount < i64_half
    → used < amount
    → pos used +ℤ capped hold (sub64 (pos amount) (pos used)) ≤ℤ pos amount
unfolding capped ◌+ℤ◌ ◌-ℤ◌
capped-within hold used amount small free = ground (arith, sub64-eq (pos amount) (pos used))

-- A hold on a key's quota never takes the key's use above its quota, whatever the amount asked for and
-- whichever statement fails. The key is the stored one, its use is not negative and its quota an int64;
-- keys with an unlimited quota do not get here.
pub hold_quota-within :
    (env : Env) (db : Db) (k k' : Key) (hold : ℤ) (used amount : ℕ)
    → str_eq k.quota_kind "unlimited" ≡ false
    → has_quota k ≡ true
    → k.quota_used ≡ pos used
    → k.quota_amount ≡ pos amount
    → amount < i64_half
    → select_first (has_key_id k.id) db.keys ≡ some k
    → select_first (has_key_id k.id) (hold_quota env db k hold).0.keys ≡ some k'
    → k'.quota_used ≤ℤ k'.quota_amount
unfolding hold_quota has_quota quota_remaining consume update_key_row
hold_quota-within env db k k' hold used amount limited has u a small found look =
    let free : used < amount = ground arith in
    let fits = capped-within hold used amount small free in
    let rest = sub64 (pos amount) (pos used) in
    let after =
      select_first-update_self (has_key_id k.id) (add_used env (capped hold rest)) db.keys
        (λ y t. t) found in
    ground (arith, limited, u, a, fits, after)
