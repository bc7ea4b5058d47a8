-- ===== src/Billing/RoundTrip.antt =====
-- A hold on a key's quota that is given back.
use manager_key_pro.Base.{
  ℕ, ◌+◌, ◌<◌, ◌≡◌, sym, subst, ◌∙◌, ap, false, some, List, [], ◌∷◌, inl, inr, String, str_eq,
  arith, select_first, update_where, select_first-update_self,
}
use manager_key_pro.Base.Int.{ℤ, pos, ◌+ℤ◌, ◌-ℤ◌, i64_half, sub64, sub64-eq}
use manager_key_pro.Store.Types.{Key, Db}
use manager_key_pro.Store.Errors.{Env, consume_quota}
use manager_key_pro.Store.Keys.{consume, update_key_row, add_used, has_key_id, quota_remaining}
use manager_key_pro.Store.Steps.{Result-cases}
use manager_key_pro.Billing.Hold.{hold_quota, capped, give_back, new_reservation}
use manager_key_pro.Billing.Settlement.{UsedAtLeast, consume_back}

-- After a hold of n every row of the key has used at least n.
held-UsedAtLeast :
    (env : Env) (kid : String) (n : ℕ) (ks : List Key)
    → UsedAtLeast kid 0 ks
    → UsedAtLeast kid n (update_where (has_key_id kid) (add_used env (pos n)) ks)
unfolding update_where ◌+ℤ◌
held-UsedAtLeast env kid n [] h = tt
held-UsedAtLeast env kid n (k ∷ ks) h = ground (arith, held-UsedAtLeast env kid n ks h.1)

-- What a hold of a positive amount did to the keys.
held_keys :
    (env : Env) (db : Db) (k : Key) (hold : ℤ) (n : ℕ) (source : String)
    → 0 < n
    → (hold_quota env db k hold).1 ≡ some (source, pos n)
    → (capped hold (quota_remaining k) ≡ pos n)
      × ((hold_quota env db k hold).0.keys
          ≡ update_where (has_key_id k.id) (add_used env (pos n)) db.keys)
unfolding hold_quota consume update_key_row
held_keys env db k hold n source some_held h =
    elim (Result-cases (consume env db k.id (capped hold (quota_remaining k))).1) [
      | inl (e, q) ↦ absurd (ground (arith, q))
      | inr (a, q) ↦ (ground (arith, q), ground (arith, q))
    ]

-- A hold of n is at most what remains.
capped_small :
    (hold : ℤ) (used amount n : ℕ)
    → amount < i64_half
    → used < amount
    → capped hold (sub64 (pos amount) (pos used)) ≡ pos n
    → n < i64_half
unfolding capped ◌-ℤ◌
capped_small hold used amount n small free h = ground (arith, sub64-eq (pos amount) (pos used))

-- A hold of a positive amount on a key's quota, given back by a release, leaves the key's quota use where
-- it was, whatever amount was asked for. The key is the stored one, with quota left; no row of its id has
-- used less than 0; the quota is an int64; and the statement that gives the amount back must succeed.
pub give_back-hold_quota :
    (env env' : Env) (db : Db) (k : Key) (hold : ℤ) (used amount n : ℕ) (rid uid model : String)
    → env'.fails (consume_quota k.id) ≡ false
    → str_eq k.quota_kind "unlimited" ≡ false
    → k.quota_used ≡ pos used
    → k.quota_amount ≡ pos amount
    → used < amount
    → amount < i64_half
    → UsedAtLeast k.id 0 db.keys
    → select_first (has_key_id k.id) db.keys ≡ some k
    → 0 < n
    → (hold_quota env db k hold).1 ≡ some ("key_quota", pos n)
    → let r = new_reservation env rid k.id uid model "key_quota" (pos n) in
      (k' : Key) × (select_first
          (has_key_id k.id)
          (give_back env' (hold_quota env db k hold).0 r).keys
        ≡ some k')
      × (k'.quota_used ≡ pos used)
unfolding give_back quota_remaining ◌+ℤ◌
give_back-hold_quota env env' db k hold used amount n rid uid model fine limited u a free small
      valid found positive held =
    let db' = (hold_quota env db k hold).0 in
    let (size, keys) = held_keys env db k hold n "key_quota" positive held in
    let fits : n < i64_half = capped_small hold used amount n small free (ground (arith, size)) in
    let after =
      select_first-update_self (has_key_id k.id) (add_used env (pos n)) db.keys (λ y t. t) found in
    let enough : UsedAtLeast k.id n db'.keys =
      subst (UsedAtLeast k.id n) (sym keys) (held-UsedAtLeast env k.id n db.keys valid) in
    let stored : select_first (has_key_id k.id) db'.keys ≡ some (add_used env (pos n) k) =
      ap (select_first (has_key_id k.id)) keys ∙ after in
    let (k', look, amount') =
      consume_back env' db' k.id n n (used + n) fine (omega arith) fits enough stored
        (ground (arith, u)) in
    (k', look, ground (arith, amount'))
