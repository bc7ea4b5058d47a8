-- ===== src/Billing/Settlement.antt =====
-- The accounts of a hold: what a settlement takes in all, and that a hold is given back once.
use manager_key_pro.Base.{
  ℕ, ◌-◌, ◌+◌, ◌<◌, ◌≤◌, ◌≡◌, refl, ◌∙◌, ap, true, false, some, List, [], ◌∷◌, inl, inr, String,
  str_eq, ◌+++◌, arith, Option-cases, Bool-cases, ltb, select_first, select_all, exists_row,
  select_first-update_self, select_first-test, not, ◌&&◌, All, select_first-All,
}
use manager_key_pro.Base.Int.{ℤ, pos, ◌+ℤ◌, ◌-ℤ◌, ◌≤ℤ◌, i64_half, neg64, sub64, sub64-eq}
use manager_key_pro.Store.Types.{Key, Reservation, Db}
use manager_key_pro.Store.Errors.{
  Env, consume_quota, select_oldest_open, mark_reservation, select_reservation, Result,
}
use manager_key_pro.Store.Keys.{consume, update_key_row, used_valid, add_used, has_key_id}
use manager_key_pro.Store.Users.Adjust.{Adjusted, refused, done, adjust_balance_cases}
use manager_key_pro.Billing.Hold.{
  release, give_back, mark, reserves, set_reservation_status, settle, refund_hold, at_least_zero,
  oldest, is_open_of,
}

Adjusted-reservations :
    (env : Env) (db : Db) (uid : String) (delta : ℤ) (reason ref channel key : String)
    {r : Db × Result ℤ}
    → Adjusted env db uid delta reason ref channel key r
    → r.0.reservations ≡ db.reservations
Adjusted-reservations env db uid delta reason ref channel key (refused e) = refl
Adjusted-reservations env db uid delta reason ref channel key (done u _ _ _ _ _ e) =
    ap (λ (d : Db). d.reservations) e

give_back-reservations :
    (env : Env) (db : Db) (r : Reservation) → (give_back env db r).reservations ≡ db.reservations
unfolding give_back consume update_key_row
give_back-reservations env db r = ground (
  arith,
  Adjusted-reservations env db r.user_id r.hold "refund" ("release:" +++ r.reservation_id) "system"
      r.key_id
      (adjust_balance_cases env db r.user_id r.hold "refund" ("release:" +++ r.reservation_id)
        "system" r.key_id),
)

marked :
    (env : Env) (db : Db) (rid : String) {r : Reservation}
    → env.fails (mark_reservation rid) ≡ false
    → select_first (reserves rid) db.reservations ≡ some r
    → select_first (reserves rid) (mark env db rid "released").reservations
      ≡ some (set_reservation_status "released" r)
unfolding mark
marked env db rid {r} fine found = rw fine (
    select_first-update_self (reserves rid) (set_reservation_status "released") db.reservations
      (λ y t. t) found)

-- Releasing twice: once a release had its two statements on the reservations succeed, releasing the
-- same reservation again changes nothing, so no hold is refunded twice.
pub release-once :
    (env env' : Env) (db : Db) (rid : String)
    → env.fails (select_reservation rid) ≡ false
    → env.fails (mark_reservation rid) ≡ false
    → release env' (release env db rid) rid ≡ release env db rid
unfolding release
release-once env env' db rid reads marks =
    elim (Option-cases (select_first (reserves rid) db.reservations)) [
      | inl missing ↦ ground arith
      | inr (r, found) ↦
          let again =
            marked env (give_back env db r) rid {r = r} marks (
              ap (λ rs. select_first (reserves rid) rs) (give_back-reservations env db r)
              ∙ found) in
          ground (arith, again)
    ]

-- What a settlement gives back and what is still owed, for a hold of n and a use of m.
refund_amount :
    (n m : ℕ) → n < i64_half → m < i64_half → at_least_zero (sub64 (pos n) (pos m)) ≡ pos (n - m)
unfolding at_least_zero ◌-ℤ◌
refund_amount n m hn hm = ground (arith, sub64-eq (pos n) (pos m))

-- Giving back part of what a key has used.
give_amount : (u j : ℕ) → j ≤ u → j < i64_half → pos u +ℤ neg64 (pos j) ≡ pos (u - j)
unfolding ◌+ℤ◌ ◌-ℤ◌
give_amount u j le small = ground (arith, sub64-eq (pos 0) (pos j))

-- Every row of the key has used at least n.
abbrev pub UsedAtLeast : String → ℕ → List Key → Type 0
UsedAtLeast kid n ks = All (λ k. has_key_id kid k ≡ true → pos n ≤ℤ k.quota_used) ks

-- So the CHECK on quota_used passes when at most n is given back.
check_passes :
    (env : Env) (kid : String) (n j : ℕ) (ks : List Key)
    → j ≤ n
    → j < i64_half
    → UsedAtLeast kid n ks
    → exists_row (λ k. has_key_id kid k && not (used_valid (add_used env (neg64 (pos j)) k))) ks
      ≡ false
unfolding exists_row ◌+ℤ◌ ◌-ℤ◌
check_passes env kid n j [] le small h = refl
check_passes env kid n j (k ∷ ks) le small h =
    ground (arith, sub64-eq (pos 0) (pos j), check_passes env kid n j ks le small h.1)

pub consume_back :
    (env : Env) (db : Db) (kid : String) (n j u : ℕ) {k : Key}
    → env.fails (consume_quota kid) ≡ false
    → j ≤ n
    → j < i64_half
    → UsedAtLeast kid n db.keys
    → select_first (has_key_id kid) db.keys ≡ some k
    → k.quota_used ≡ pos u
    → (k' : Key) × (select_first (has_key_id kid) (consume env db kid (neg64 (pos j))).0.keys
        ≡ some k')
      × (k'.quota_used ≡ pos (u - j))
unfolding consume update_key_row
consume_back env db kid n j u {k} fine le small enough found used =
    let valid = check_passes env kid n j db.keys le small enough in
    let after =
      select_first-update_self (has_key_id kid) (add_used env (neg64 (pos j))) db.keys (λ y t. t)
        found in
    let all =
      select_first-All (λ x. has_key_id kid x ≡ true → pos n ≤ℤ x.quota_used) (has_key_id kid)
        db.keys enough found in
    let test = select_first-test (has_key_id kid) db.keys found in
    (
      add_used env (neg64 (pos j)) k,
      ground (arith, after, valid),
      ground (arith, give_amount u j, all test),
    )

-- The key after the refund of a quota hold of n that met a use of m.
refunded :
    (env : Env) (db : Db) (kid : String) (n m u : ℕ) (r : Reservation) {k : Key}
    → env.fails (consume_quota kid) ≡ false
    → r.source ≡ "key_quota"
    → n < i64_half
    → UsedAtLeast kid n db.keys
    → select_first (has_key_id kid) db.keys ≡ some k
    → k.quota_used ≡ pos u
    → (k' : Key) × (select_first (has_key_id kid) (refund_hold env db kid r (pos (n - m))).keys
        ≡ some k')
      × (k'.quota_used ≡ pos (u - (n - m)))
unfolding refund_hold
refunded env db kid n m u r {k} fine source hn enough found used = elim (Bool-cases (ltb m n)) [
  | inl back ↦
      let (k', look, amount) =
        consume_back env db kid n (n - m) u fine (omega arith) (omega arith) enough found used in
      let not_wallet = ap (λ s. str_eq s "wallet") source in
      let is_quota = ap (λ s. str_eq s "key_quota") source in
      (k', ground (arith, not_wallet, is_quota, look), amount)
  | inr none_left ↦ (k, ground (arith, found), ground (arith, used))
]

-- Settling the oldest open hold of a key, a hold of n on its quota, against a use of m: the key's quota
-- use and what is still owed together grow by exactly m - n, so that hold, refund and later charge add
-- up to the use. The two statements must succeed, and the key's rows must have used at least the hold.
pub settle-balanced :
    (env : Env) (db : Db) (kid : String) (n m u : ℕ) {r : Reservation} {k : Key}
    → env.fails (select_oldest_open kid) ≡ false
    → env.fails (consume_quota kid) ≡ false
    → oldest (select_all (is_open_of kid) db.reservations) ≡ some r
    → r.source ≡ "key_quota"
    → r.hold ≡ pos n
    → n < i64_half
    → m < i64_half
    → n ≤ u
    → UsedAtLeast kid n db.keys
    → select_first (has_key_id kid) db.keys ≡ some k
    → k.quota_used ≡ pos u
    → let (db', owed, settled) = settle env db kid (pos m) in
      (settled ≡ true)
      × (k' : Key) × (select_first (has_key_id kid) db'.keys ≡ some k')
      × (k'.quota_used +ℤ owed +ℤ pos n ≡ pos (u + m))
unfolding settle mark ◌+ℤ◌
settle-balanced env db kid n m u {r} {k} reads fine open_hold source size hn hm le enough found
      used =
    let (k', look, amount) = refunded env db kid n m u r fine source hn enough found used in
    (
      rw (reads, open_hold) refl,
      k',
      ground (arith, open_hold, size, refund_amount n m hn hm, look),
      ground (arith, open_hold, size, refund_amount m n hm hn, amount),
    )
