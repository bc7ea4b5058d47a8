-- ===== src/Tests/Money.antt =====
-- Concrete runs of the wallet, the ledger and the purchases.
use manager_key_pro.Base.{
  ◌≡◌, refl, ◌≢◌, true, some, List, [], ◌∷◌, arith, select_first, select_first-All, exists_row,
  update_where, trim_space, ◌≤◌, ◌+◌,
}
use manager_key_pro.Base.Int.{ℤ, pos, negsuc, add64, sub64, wrap64, ◌+ℤ◌, ◌-ℤ◌, InRange}
use manager_key_pro.Store.Types.{User}
use manager_key_pro.Store.Errors.{ok, null_if_empty}
use manager_key_pro.Store.Users.{adjust_balance, has_id, reason_valid}
use manager_key_pro.Store.Users.Adjust.{Adjusted, adjust_balance_cases}
use manager_key_pro.Store.Users.Ledger.{
  Reconciled, AllSolvent, replay, Solvent, adjust_balance-Reconciled, adjust_balance-AllSolvent,
  adjust_balance-telegram_once,
}
use manager_key_pro.Issue.Purchase.{Bought, buy_package-Bought}
use manager_key_pro.Issue.{buy_package}
use manager_key_pro.Referral.{pay_percent}
use manager_key_pro.Referral.Tiers.{earned_by, pay_percent-once}
use manager_key_pro.Plugin.Logged.{decoded}
use manager_key_pro.Plugin.System.{
  Call, State, boots, logs_in, recharges, renews_key, requests, reports, completes, buys,
  updates_key, logs_out, run, run-Reconciled, run-Extends,
}
use manager_key_pro.Store.Settings.{default_settings}
use manager_key_pro.Store.Invariants.{Extends}
use manager_key_pro.Tests.Visitors.{primitives, config, visit, visitor}
use manager_key_pro.Tests.Setup.{
  env, floats, codec, cipher, no_tiers, alice, db, pricing, usage, request,
}

-- A debit of 120 moves the wallet to 380.
debit_moves : (adjust_balance env db "u1" (negsuc 119) "usage" "" "system" "k1").1 ≡ ok (pos 380)
unfolding adjust_balance select_first add64 wrap64 ◌+ℤ◌ ◌-ℤ◌ sub64 reason_valid exists_row
    update_where null_if_empty trim_space
debit_moves = refl

db-Reconciled : Reconciled db
unfolding replay add64 wrap64 ◌+ℤ◌
db-Reconciled = (refl, (refl, tt))

adjust_balance-Reconciled_example :
    Reconciled (adjust_balance env db "u1" (negsuc 119) "usage" "" "system" "k1").0
adjust_balance-Reconciled_example =
    adjust_balance-Reconciled env db "u1" (negsuc 119) "usage" "" "system" "k1" db-Reconciled

db-AllSolvent : AllSolvent db
db-AllSolvent i u h = select_first-All Solvent (has_id i) db.users (ground arith) h

debit_fits :
    (u : User) → select_first (has_id "u1") db.users ≡ some u → InRange (u.balance +ℤ negsuc 119)
unfolding select_first ◌+ℤ◌
debit_fits u h = ground arith

adjust_balance-AllSolvent_example :
    AllSolvent (adjust_balance env db "u1" (negsuc 119) "usage" "" "system" "k1").0
adjust_balance-AllSolvent_example =
    adjust_balance-AllSolvent env db "u1" (negsuc 119) "usage" "" "system" "k1" debit_fits
      db-AllSolvent

paid_in : (adjust_balance env db "u2" (pos 70) "recharge" "tx2" "telegram" "").1 ≡ ok (pos 70)
unfolding adjust_balance select_first add64 wrap64 ◌+ℤ◌ ◌-ℤ◌ sub64 reason_valid exists_row
    update_where null_if_empty trim_space
paid_in = refl

adjust_balance-telegram_once_example :
    let db' = (adjust_balance env db "u2" (pos 70) "recharge" "tx2" "telegram" "").0 in
    let again = adjust_balance env db' "u1" (pos 90) "recharge" "tx2" "telegram" "" in
    (again.0 ≡ db') × ((n : ℤ) → again.1 ≢ ok n)
unfolding trim_space
adjust_balance-telegram_once_example =
    adjust_balance-telegram_once env env db "u2" "u1" (pos 70) (pos 90) "recharge" "recharge" "tx2"
      "" "" (pos 70) refl paid_in

adjust_balance_cases_example :
    Adjusted env db "u1"
      (pos 5)
      "adjust"
      ""
      ""
      ""
      (adjust_balance env db "u1" (pos 5) "adjust" "" "" "")
adjust_balance_cases_example = adjust_balance_cases env db "u1" (pos 5) "adjust" "" "" ""

buy_package-Bought_example :
    Bought env db "u1" "p1" (buy_package cipher env env db [] "u1" "p1" "new_key" "")
buy_package-Bought_example = buy_package-Bought cipher env env db [] "u1" "p1" "new_key" ""

pay_percent-once_example :
    let after = (pay_percent no_tiers env db alice (pos 1000) "tx3").earnings in
    (earned_by "u2" after ≤ earned_by "u2" db.earnings + 1)
    × (earned_by "u1" after ≡ earned_by "u1" db.earnings)
pay_percent-once_example = pay_percent-once no_tiers env db alice (pos 1000) "tx3" "u2"

-- A boot, a login, a recharge that pays a referrer, a key from the administration, a request that holds
-- quota, its charge and its completion, a purchase and the edit of a key.
abbrev calls : List (Call codec primitives config floats no_tiers)
calls =
    boots env default_settings (pos 3600000)
    ∷ logs_in visit (some (record { username = "alice"; password = "alice123" }))
    ∷ recharges env "u1"
        (some (record { amount = pos 1000; reason = ""; channel = ""; ref_id = "tx4" }))
    ∷ renews_key env "k1"
        (some (record { add_quota = pos 10; extend_days = pos 30; set_expires = pos 0 }))
    ∷ requests env pricing request "{}"
    ∷ reports env pricing (decoded (usage (pos 40)))
    ∷ completes env "r2" "failed" "timeout"
    ∷ buys visit (visitor "Bearer ab12")
        (some (record { package_id = "p1"; kind = ""; renew_key_id = "" }))
    ∷ updates_key visit (visitor "Bearer ab12")
        (some (record { id = "k1"; name = "main"; overflow = some true }))
    ∷ logs_out (visitor "Bearer ab12")
    ∷ []

abbrev start : State codec primitives config floats no_tiers
start = (record { db = db; sessions = [] }, λ k. [], [])

run-Reconciled_example : Reconciled (run codec primitives config floats no_tiers calls start).0.db
run-Reconciled_example =
    run-Reconciled codec primitives config floats no_tiers calls start db-Reconciled

run-Extends_example : Extends db (run codec primitives config floats no_tiers calls start).0.db
run-Extends_example = run-Extends codec primitives config floats no_tiers calls start
