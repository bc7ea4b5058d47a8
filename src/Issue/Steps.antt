-- ===== src/Issue/Steps.antt =====
-- A purchase as a sequence of atomic changes of the database.
use manager_key_pro.Base.{
  ℕ, List, ◌∷◌, Option, none, some, inl, inr, String, arith, ◌+++◌, update_where,
}
use manager_key_pro.Base.Int.{ℤ, neg64, add64, show_int}
use manager_key_pro.Store.Types.{Key, Package, Order, AuditRow, HistoryRow, Db}
use manager_key_pro.Store.Errors.{Env}
use manager_key_pro.Store.Users.{adjust_balance}
use manager_key_pro.Store.Keys.{key_by_id, has_key_id, renew_row}
use manager_key_pro.Store.Keys.Create.{create_key, CreateKeyInput}
use manager_key_pro.Store.Packages.{package_by_id, create_order, new_order}
use manager_key_pro.Crypto.{Cipher, generate_key, encrypt_key}
use manager_key_pro.Store.Steps.{
  Steps, Steps-trans, here, next, noted, issued, renewed, here_at, Result-cases,
  adjust_balance-Steps,
}
use manager_key_pro.Issue.{
  Spec, audit, audit_row, renew_history, history_row, key_input, issue_key, renewed_expiry,
  renew_key, package_spec, sell_key, check_purchase, deliver, zeroed, buy_package,
}

audit_log-Steps : (db : Db) (as' : List AuditRow) → Steps db (record db { audit_log = as' })
audit_log-Steps db as' = next here (noted db.orders db.earnings as' db.quota_history)

history-Steps : (db : Db) (hs : List HistoryRow) → Steps db (record db { quota_history = hs })
history-Steps db hs = next here (noted db.orders db.earnings db.audit_log hs)

orders-Steps : (db : Db) (os : List Order) → Steps db (record db { orders = os })
orders-Steps db os = next here (noted os db.earnings db.audit_log db.quota_history)

pub audit-Steps :
    (env : Env) (db : Db) (actor action kid uid : String)
    → Steps db (audit env db actor action kid uid)
unfolding audit
audit-Steps env db actor action kid uid =
    ground
      (arith, here_at db, audit_log-Steps db (audit_row env actor action kid uid ∷ db.audit_log))

pub renew_history-Steps :
    (env : Env) (db : Db) (kid : String) (before : Key) (amount expires : ℤ) (actor : String)
    → Steps db (renew_history env db kid before amount expires actor)
unfolding renew_history
renew_history-Steps env db kid before amount expires actor = ground (
  arith,
  here_at db,
  history-Steps db (history_row env kid before amount expires actor ∷ db.quota_history),
)

create_order-Steps :
    (env : Env) (db : Db) (uid pid kid kind : String) (price : ℤ) (status : String)
    → Steps db (create_order env db uid pid kid kind price status).0
unfolding create_order
create_order-Steps env db uid pid kid kind price status =
    ground
      (arith, here_at db, orders-Steps db (new_order env uid pid kid kind price status ∷ db.orders))

create_key-Steps :
    (env : Env) (db : Db) (input : CreateKeyInput) → Steps db (create_key env db input).0
create_key-Steps env db input = next here (issued env input)

pub renew_row-Steps :
    (db : Db) (kid : String) (amount expires now : ℤ)
    → Steps db
        (record db { keys = update_where (has_key_id kid) (renew_row amount expires now) db.keys })
renew_row-Steps db kid amount expires now = next here (renewed kid amount expires now)

pub issue_key-Steps :
    (cr : Cipher) (env : Env) (db : Db) (secret : List ℕ) (uid : String) (spec : Spec)
    (actor : String)
    → Steps db (issue_key cr env db secret uid spec actor).0
unfolding issue_key
issue_key-Steps cr env db secret uid spec actor = elim (Result-cases (generate_key cr env)) [
  | inl (e, q) ↦ ground (arith, here_at db)
  | inr (plain, q) ↦ elim (Result-cases (encrypt_key cr env plain secret)) [
    | inl (e, q') ↦ ground (arith, here_at db)
    | inr ((cipher, nonce), q') ↦
        let input = key_input cr uid plain cipher nonce spec in
        let made = create_key env db input in
        let reached = create_key-Steps env db input in
        elim (Result-cases made.1) [
          | inl (e, r) ↦ ground (arith, here_at db, reached)
          | inr (k, r) ↦ ground (
            arith,
            here_at db,
            Steps-trans reached (audit-Steps env made.0 actor "key.create" k.id uid),
          )
        ]
  ]
]

renew_key-Steps :
    (env : Env) (db : Db) (uid : String) (pkg : Package) (kid : String) (k : Key)
    → Steps db (renew_key env db uid pkg kid k).0
unfolding renew_key
renew_key-Steps env db uid pkg kid k =
    let amount = add64 k.quota_amount pkg.quota_amount in
    let expires = renewed_expiry env pkg k in
    let db1 = record db {
      keys = update_where (has_key_id kid) (renew_row amount expires env.now) db.keys;
    } in
    let db2 = renew_history env db1 kid k amount expires ("user:" +++ uid) in
    ground (
      arith,
      here_at db,
      Steps-trans
          (Steps-trans (renew_row-Steps db kid amount expires env.now)
            (renew_history-Steps env db1 kid k amount expires ("user:" +++ uid)))
          (create_order-Steps env db2 uid pkg.id kid "renew" pkg.price_credit "paid"),
    )

sell_key-Steps :
    (cr : Cipher) (env : Env) (db : Db) (secret : List ℕ) (uid : String) (pkg : Package)
    → Steps db (sell_key cr env db secret uid pkg).0
unfolding sell_key
sell_key-Steps cr env db secret uid pkg =
    let sold = issue_key cr env db secret uid (package_spec env pkg) ("user:" +++ uid) in
    let reached = issue_key-Steps cr env db secret uid (package_spec env pkg) ("user:" +++ uid) in
    elim (Result-cases sold.1) [
      | inl (e, q) ↦ ground (arith, reached)
      | inr ((k, plain), q) ↦ ground (
        arith,
        Steps-trans reached
            (create_order-Steps env sold.0 uid pkg.id k.id "new_key" pkg.price_credit "paid"),
      )
    ]

deliver-Steps :
    (cr : Cipher) (env : Env) (db : Db) (secret : List ℕ) (uid : String) (pkg : Package)
    (kid : String) (renewing : Option Key)
    → Steps db (deliver cr env db secret uid pkg kid renewing).0
unfolding deliver
deliver-Steps cr env db secret uid pkg kid none = sell_key-Steps cr env db secret uid pkg
deliver-Steps cr env db secret uid pkg kid (some k) =
    renew_key-Steps env db uid pkg kid (zeroed (key_by_id env db kid) k)

-- A purchase is a sequence of changes, also one that ends in an error.
pub buy_package-Steps :
    (cr : Cipher) (env env' : Env) (db : Db) (secret : List ℕ) (uid pid kind kid : String)
    → Steps db (buy_package cr env env' db secret uid pid kind kid).0
unfolding buy_package
buy_package-Steps cr env env' db secret uid pid kind kid =
    elim (Result-cases (package_by_id env db pid)) [
      | inl (e, q) ↦ ground (arith, here_at db)
      | inr (pkg, q) ↦ elim (Result-cases (check_purchase env db uid kind kid)) [
        | inl (e, q') ↦ ground (arith, here_at db)
        | inr (renewing, q') ↦
            let ref = "order:" +++ pid +++ ":" +++ show_int env.now in
            let paid =
              adjust_balance env db uid (neg64 pkg.price_credit) "purchase" ref "portal" "" in
            let reached =
              adjust_balance-Steps env db uid (neg64 pkg.price_credit) "purchase" ref "portal" "" in
            ground (
              arith,
              reached,
              Steps-trans reached (deliver-Steps cr env' paid.0 secret uid pkg kid renewing),
            )
      ]
    ]
