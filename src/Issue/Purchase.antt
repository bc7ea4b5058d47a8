-- ===== src/Issue/Purchase.antt =====
-- What a purchase does to the money.
use manager_key_pro.Base.{
  ℕ, ◌≡◌, refl, ◌∙◌, ap, List, Option, none, some, inl, inr, String, arith, ◌+++◌, update_where,
  select_first,
}
use manager_key_pro.Base.Int.{ℤ, neg64, add64, show_int}
use manager_key_pro.Store.Types.{User, Key, Package, Db}
use manager_key_pro.Store.Errors.{Error, Env, Result, ok, err}
use manager_key_pro.Store.Users.{has_id}
use manager_key_pro.Store.Users.Adjust.{Adjusted, refused, done, adjust_balance_cases, moved}
use manager_key_pro.Store.Keys.{key_by_id, has_key_id, renew_row}
use manager_key_pro.Store.Keys.Create.{create_key}
use manager_key_pro.Store.Packages.{package_by_id, create_order}
use manager_key_pro.Store.Steps.{Result-cases}
use manager_key_pro.Store.Invariants.{SameWallets, create_key-SameWallets}
use manager_key_pro.Crypto.{Cipher, generate_key, encrypt_key}
use manager_key_pro.Issue.{
  Spec, audit, renew_history, key_input, issue_key, renewed_expiry, renew_key, package_spec,
  sell_key, check_purchase, deliver, zeroed, buy_package,
}

audit-SameWallets :
    (env : Env) (db : Db) (actor action kid uid : String)
    → SameWallets db (audit env db actor action kid uid)
unfolding audit
audit-SameWallets env db actor action kid uid = record {
  users = ground arith;
  ledger = ground arith;
}

renew_history-SameWallets :
    (env : Env) (db : Db) (kid : String) (before : Key) (amount expires : ℤ) (actor : String)
    → SameWallets db (renew_history env db kid before amount expires actor)
unfolding renew_history
renew_history-SameWallets env db kid before amount expires actor = record {
  users = ground arith;
  ledger = ground arith;
}

create_order-SameWallets :
    (env : Env) (db : Db) (uid pid kid kind : String) (price : ℤ) (status : String)
    → SameWallets db (create_order env db uid pid kid kind price status).0
unfolding create_order
create_order-SameWallets env db uid pid kid kind price status = record {
  users = ground arith;
  ledger = ground arith;
}

SameWallets-trans : {a b c : Db} → SameWallets a b → SameWallets b c → SameWallets a c
SameWallets-trans s t = record { users = t.users ∙ s.users; ledger = t.ledger ∙ s.ledger }

same_at : (db : Db) → SameWallets db db
same_at db = record { users = refl; ledger = refl }

issue_key-SameWallets :
    (cr : Cipher) (env : Env) (db : Db) (secret : List ℕ) (uid : String) (spec : Spec)
    (actor : String)
    → SameWallets db (issue_key cr env db secret uid spec actor).0
unfolding issue_key
issue_key-SameWallets cr env db secret uid spec actor = elim (Result-cases (generate_key cr env)) [
  | inl (e, q) ↦ ground (arith, same_at db)
  | inr (plain, q) ↦ elim (Result-cases (encrypt_key cr env plain secret)) [
    | inl (e, q') ↦ ground (arith, same_at db)
    | inr ((cipher, nonce), q') ↦
        let input = key_input cr uid plain cipher nonce spec in
        let made = create_key env db input in
        let kept = create_key-SameWallets env db input in
        elim (Result-cases made.1) [
          | inl (e, r) ↦ ground (arith, same_at db, kept)
          | inr (k, r) ↦ ground (
            arith,
            same_at db,
            SameWallets-trans kept (audit-SameWallets env made.0 actor "key.create" k.id uid),
          )
        ]
  ]
]

renew_key-SameWallets :
    (env : Env) (db : Db) (uid : String) (pkg : Package) (kid : String) (k : Key)
    → SameWallets db (renew_key env db uid pkg kid k).0
unfolding renew_key
renew_key-SameWallets env db uid pkg kid k =
    let amount = add64 k.quota_amount pkg.quota_amount in
    let expires = renewed_expiry env pkg k in
    let db1 = record db {
      keys = update_where (has_key_id kid) (renew_row amount expires env.now) db.keys;
    } in
    let db2 = renew_history env db1 kid k amount expires ("user:" +++ uid) in
    let first : SameWallets db db2 =
      let h = renew_history-SameWallets env db1 kid k amount expires ("user:" +++ uid) in
      record { users = h.users; ledger = h.ledger } in
    ground (
      arith,
      same_at db,
      SameWallets-trans first
          (create_order-SameWallets env db2 uid pkg.id kid "renew" pkg.price_credit "paid"),
    )

sell_key-SameWallets :
    (cr : Cipher) (env : Env) (db : Db) (secret : List ℕ) (uid : String) (pkg : Package)
    → SameWallets db (sell_key cr env db secret uid pkg).0
unfolding sell_key
sell_key-SameWallets cr env db secret uid pkg =
    let sold = issue_key cr env db secret uid (package_spec env pkg) ("user:" +++ uid) in
    let kept =
      issue_key-SameWallets cr env db secret uid (package_spec env pkg) ("user:" +++ uid) in
    elim (Result-cases sold.1) [
      | inl (e, q) ↦ ground (arith, kept)
      | inr ((k, plain), q) ↦ ground (
        arith,
        SameWallets-trans kept
            (create_order-SameWallets env sold.0 uid pkg.id k.id "new_key" pkg.price_credit "paid"),
      )
    ]

deliver-SameWallets :
    (cr : Cipher) (env : Env) (db : Db) (secret : List ℕ) (uid : String) (pkg : Package)
    (kid : String) (renewing : Option Key)
    → SameWallets db (deliver cr env db secret uid pkg kid renewing).0
unfolding deliver
deliver-SameWallets cr env db secret uid pkg kid none =
    sell_key-SameWallets cr env db secret uid pkg
deliver-SameWallets cr env db secret uid pkg kid (some k) =
    renew_key-SameWallets env db uid pkg kid (zeroed (key_by_id env db kid) k)

-- A purchase refused before the debit changes nothing; any other debits the package's price once,
-- whether or not what follows the debit succeeds.
pub data Bought (env : Env) (db : Db) (uid pid : String)
    : Db × Result (String × String × String) → Type 0 where
  not_bought : (e : Error) → Bought env db uid pid (db, err e)
  debited :
      {r : Db × Result (String × String × String)} (pkg : Package) (buyer : User) (next : ℤ)
      → package_by_id env db pid ≡ ok pkg
      → select_first (has_id uid) db.users ≡ some buyer
      → next ≡ add64 buyer.balance (neg64 pkg.price_credit)
      → SameWallets
          (moved env db uid
            (neg64 pkg.price_credit)
            "purchase"
            ("order:" +++ pid +++ ":" +++ show_int env.now)
            "portal"
            ""
            next)
          r.0
      → Bought env db uid pid r

-- After the call of AdjustBalance.
Adjusted-Bought :
    (cr : Cipher) (env env' : Env) (db : Db) (secret : List ℕ) (uid pid kid : String)
    (pkg : Package) (renewing : Option Key) {a : Db × Result ℤ}
    → package_by_id env db pid ≡ ok pkg
    → Adjusted env db uid
        (neg64 pkg.price_credit)
        "purchase"
        ("order:" +++ pid +++ ":" +++ show_int env.now)
        "portal"
        ""
        a
    → Bought env db uid pid
        (elim a.1 [ err e ↦ (a.0, err e) | ok _ ↦ deliver cr env' a.0 secret uid pkg kid renewing ])
Adjusted-Bought cr env env' db secret uid pid kid pkg renewing found (refused e) = not_bought e
Adjusted-Bought cr env env' db secret uid pid kid pkg renewing found
      (done u {db'} {next = n} buys _ _ _ en e) =
    debited pkg u n found buys en (
      SameWallets-trans
        (record { users = ap (λ (d : Db). d.users) e; ledger = ap (λ (d : Db). d.ledger) e })
        (deliver-SameWallets cr env' db' secret uid pkg kid renewing))

-- A purchase either returns an error and leaves the database as it was, or it has written one ledger
-- row with minus the package's price, set the buyer's balance to the old one minus the price (in int64
-- arithmetic), and touched no other wallet and no other ledger row. The second case includes purchases that end in an error after the debit.
pub buy_package-Bought :
    (cr : Cipher) (env env' : Env) (db : Db) (secret : List ℕ) (uid pid kind kid : String)
    → Bought env db uid pid (buy_package cr env env' db secret uid pid kind kid)
unfolding buy_package
buy_package-Bought cr env env' db secret uid pid kind kid =
    elim (Result-cases (package_by_id env db pid)) [
      | inl (e, q) ↦ rw (buy_package, q) (not_bought _)
      | inr (pkg, q) ↦ elim (Result-cases (check_purchase env db uid kind kid)) [
        | inl (e, q') ↦ rw (buy_package, q, q') (not_bought e)
        | inr (renewing, q') ↦
            rw (buy_package, q, q')
              (Adjusted-Bought cr env env' db secret uid pid kid pkg renewing q (
                adjust_balance_cases env db uid (neg64 pkg.price_credit) "purchase"
                  ("order:" +++ pid +++ ":" +++ show_int env.now) "portal" ""))
      ]
    ]
