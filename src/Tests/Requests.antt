-- ===== src/Tests/Requests.antt =====
-- Concrete runs of the gates, the holds and the charges.
use manager_key_pro.Base.{
  ◌≡◌, refl, true, false, some, List, [], ◌∷◌, arith, select_first, select_all, exists_row,
  update_where, is_empty, trim_space, equal_fold,
}
use manager_key_pro.Base.Int.{ℤ, pos, sub64, add64, mul64, wrap64, ◌+ℤ◌, ◌-ℤ◌, ◌*ℤ◌, ◌≤ℤ◌, leb_ℤ}
use manager_key_pro.Store.Types.{Key}
use manager_key_pro.Store.Errors.{ok, require_one_row}
use manager_key_pro.Store.Keys.{
  key_by_hash, has_quota, has_key_id, is_active, consume, quota_remaining, reset,
}
use manager_key_pro.Store.Users.{user_by_id}
use manager_key_pro.Crypto.{hash_key}
use manager_key_pro.Policy.{Decision, check_model, check_ip, check_rpm, check_user_status}
use manager_key_pro.Policy.Window.{Paced, Rising, stop, rise, limit_run, limit_run-Paced}
use manager_key_pro.Billing.Hold.{
  give_back, new_reservation, hold, hold_quota, settle, release, oldest, is_open_of, capped,
}
use manager_key_pro.Billing.Settlement.{settle-balanced, release-once, UsedAtLeast}
use manager_key_pro.Billing.RoundTrip.{give_back-hold_quota}
use manager_key_pro.Billing.Limits.{hold_quota-within}
use manager_key_pro.Billing.Charge.{charge_extra}
use manager_key_pro.Billing.Spending.{Spent, charge_extra-Spent}
use manager_key_pro.Billing.Period.{
  ensure_period, has_no_period, is_due, period_end_from, window_length,
}
use manager_key_pro.Billing.Renewal.{ensure_period-once}
use manager_key_pro.Plugin.Request.{extract_key, client_ip}
use manager_key_pro.Plugin.Hooks.{
  granted, passed, terminated, authenticate, owner_barred, is_expired, intercept_before,
}
use manager_key_pro.Plugin.Gates.{authenticate-granted, intercept_before-gates}
use manager_key_pro.Tests.Setup.{env, floats, cipher, key, held, db, pricing, headers, request}

alice_enters : (authenticate cipher env db headers []).1 ≡ granted "k1" "u1"
unfolding authenticate extract_key equal_fold trim_space key_by_hash select_first hash_key is_active
    user_by_id check_user_status
alice_enters = refl

carried : is_empty (extract_key request.headers []) ≡ false
unfolding extract_key equal_fold trim_space
carried = refl

known : key_by_hash env db (hash_key cipher (extract_key request.headers [])) ≡ ok key
unfolding extract_key key_by_hash hash_key select_first equal_fold trim_space
known = refl

stored : select_first (has_key_id "k1") db.keys ≡ some key
unfolding select_first
stored = refl

key-has_quota : has_quota key ≡ true
unfolding has_quota
key-has_quota = refl

-- Three requests within a minute and one after it, two a minute allowed.
abbrev times : List ℤ
times = pos 100000 ∷ pos 110000 ∷ pos 120000 ∷ pos 165000 ∷ []

times-Rising : Rising (pos 0) times
unfolding sub64 wrap64 ◌-ℤ◌
times-Rising = rise (ground arith) (ground arith) (
    rise (ground arith) (ground arith)
      (rise (ground arith) (ground arith) (rise (ground arith) (ground arith) stop)))

limit_run-Paced_example : Paced (pos 2) (limit_run (pos 2) times [] []).1
limit_run-Paced_example = limit_run-Paced (pos 2) times (pos 0) times-Rising

authenticate-granted_example :
    (k : Key) × (key_by_hash env db (hash_key cipher (extract_key headers [])) ≡ ok k)
    × (k.id ≡ "k1")
    × (k.user_id ≡ "u1")
    × (is_active k ≡ true)
    × (is_expired env k ≡ false)
    × (owner_barred env db k ≡ false)
    × ((authenticate cipher env db headers []).0 ≡ db)
authenticate-granted_example = authenticate-granted cipher env db headers [] "k1" "u1" alice_enters

intercept_before-gates_example :
    let (db', _, gate) = intercept_before cipher floats env pricing db (λ k. []) request in
    ((d : Decision) → gate ≡ terminated d → (db' ≡ db) × (d.allowed ≡ false))
    × (gate ≡ passed
        → ((check_model key request.requested_model request.model).allowed ≡ true)
          × ((check_ip key (client_ip request.headers)).allowed ≡ true)
          × ((check_rpm env.now (λ k. []) key).1.allowed ≡ true)
          × (db' ≡ hold floats env pricing db "r2" key.id key.user_id request.model))
intercept_before-gates_example =
    intercept_before-gates cipher floats env pricing db (λ k. []) request key carried known

key-used : UsedAtLeast "k1" 200 db.keys
key-used = ground arith

first_hold : oldest (select_all (is_open_of "k1") db.reservations) ≡ some held
unfolding oldest select_all
first_hold = refl

-- A use of 150 against the hold of 200 gives 50 back.
settle-balanced_example :
    let (db', owed, settled) = settle env db "k1" (pos 150) in
    (settled ≡ true)
    × (k' : Key) × (select_first (has_key_id "k1") db'.keys ≡ some k')
    × (k'.quota_used +ℤ owed +ℤ pos 200 ≡ pos 450)
settle-balanced_example =
    settle-balanced env db "k1" 200 150 300 refl refl first_hold refl refl (ground arith)
      (ground arith) (ground arith) key-used stored refl

release-once_example : release env (release env db "r1") "r1" ≡ release env db "r1"
release-once_example = release-once env env db "r1" refl refl

-- A hold of 5000 takes the 700 that are left.
abbrev drained : Key
drained = record key { quota_used = pos 1000; updated_at = env.now; last_used_at = env.now }

drains : select_first (has_key_id "k1") (hold_quota env db key (pos 5000)).0.keys ≡ some drained
unfolding hold_quota select_first capped quota_remaining sub64 wrap64 ◌-ℤ◌ consume exists_row ◌+ℤ◌
    require_one_row update_where
drains = refl

hold_quota-within_example : drained.quota_used ≤ℤ drained.quota_amount
hold_quota-within_example =
    hold_quota-within env db key drained (pos 5000) 300 1000 refl key-has_quota refl refl
      (ground arith) stored drains

abbrev daily : Key
daily = record key { quota_scope = "day" }

daily_fits : leb_ℤ (period_end_from env daily) env.now ≡ false
unfolding period_end_from add64 wrap64 ◌+ℤ◌ mul64 ◌*ℤ◌ window_length
daily_fits = refl

daily_renews : (ensure_period env db daily).2 ≡ ok tt
unfolding ensure_period has_no_period window_length is_due reset exists_row require_one_row
daily_renews = refl

ensure_period-once_example :
    let (db', k', _) = ensure_period env db daily in ensure_period env db' k' ≡ (db', k', ok tt)
ensure_period-once_example = ensure_period-once env db daily refl daily_fits daily_renews

-- The key has 700 left and does not overflow: a spend of 800 is not paid.
charge_extra-Spent_example :
    Spent env db key (pos 800) (pos 800) (charge_extra env db key (pos 800) (pos 800))
charge_extra-Spent_example = charge_extra-Spent env db key (pos 800) (pos 800)

-- A hold of 200, taken and given back.
holds : (hold_quota env db key (pos 200)).1 ≡ some ("key_quota", pos 200)
unfolding hold_quota select_first capped quota_remaining sub64 wrap64 ◌-ℤ◌ consume exists_row ◌+ℤ◌
    require_one_row update_where
holds = refl

key-unspent : UsedAtLeast "k1" 0 db.keys
key-unspent = ground arith

give_back-hold_quota_example :
    let r = new_reservation env "r3" "k1" "u1" "m1" "key_quota" (pos 200) in
    (k' : Key) × (select_first
        (has_key_id "k1")
        (give_back env (hold_quota env db key (pos 200)).0 r).keys
      ≡ some k')
    × (k'.quota_used ≡ pos 300)
give_back-hold_quota_example =
    give_back-hold_quota env env db key (pos 200) 300 1000 200 "r3" "u1" "m1" refl refl refl refl
      (ground arith) (ground arith) key-unspent stored (ground arith) holds
