-- ===== src/Store/Users/Adjust.antt =====
-- What one call of `AdjustBalance` can do: fail and change nothing, or move the wallet.
use manager_key_pro.Base.{
  ◌≡◌, refl, Bool, true, false, if◌then◌else◌, ◌&&◌, inl, inr, some, ◌∷◌, String, arith,
  select_first, update_where, exists_row, Option-cases,
}
use manager_key_pro.Base.Int.{ℤ, pos, add64, ltb_ℤ}
use manager_key_pro.Store.Types.{User, Db}
use manager_key_pro.Store.Errors.{
  Error, Result, ok, err, wrap, sql_failure, Env, run_tx, begin_tx, commit_tx, rollback_tx,
  null_if_empty,
}
use manager_key_pro.Store.Users.{
  has_id, wallet_floor, set_balance, ledger_row, adjust_tx, adjust_balance, is_telegram_ref,
  reason_valid,
}

-- The database after a move of a wallet to `next`.
abbrev pub moved : Env → Db → String → ℤ → String → String → String → String → ℤ → Db
moved env db uid delta reason ref channel key next = record db {
  users = update_where (has_id uid) (set_balance next) db.users;
  ledger = ledger_row env uid delta reason ref channel key next ∷ db.ledger;
}

-- The result of a call: an error with the database as it was, or the move, which passed the
-- balance test and the ledger's constraints.
pub data Adjusted (env : Env) (db : Db) (uid : String) (delta : ℤ) (reason ref channel key : String)
    : Db × Result ℤ → Type 0 where
  refused : (e : Error) → Adjusted env db uid delta reason ref channel key (db, err e)
  done :
      (u : User) {db' : Db} {next : ℤ}
      → select_first (has_id uid) db.users ≡ some u
      → (ltb_ℤ delta (pos 0) && ltb_ℤ (add64 u.balance delta) (wallet_floor u)) ≡ false
      → exists_row (is_telegram_ref (null_if_empty ref) (null_if_empty channel)) db.ledger ≡ false
      → reason_valid reason ≡ true
      → next ≡ add64 u.balance delta
      → db' ≡ moved env db uid delta reason ref channel key next
      → Adjusted env db uid delta reason ref channel key (db', ok next)

-- What a transaction makes of its body: nothing at all, or what the body made.
pub run_tx_keeps {ℓ κ} :
    {A : Type ℓ} (P : Db × Result A → Type κ) (env : Env) (fn : Db → Db × Result A) (db : Db)
    → ((e : Error) → P (db, err e))
    → ((db' : Db) (a : A) → fn db ≡ (db', ok a) → P (db', ok a))
    → P (run_tx env fn db)
unfolding run_tx
run_tx_keeps {A} P env fn db failed kept = start (env.fails begin_tx)
  where
    close :
        (r : Db × Result A)
        → fn db ≡ r
        → (c b : Bool)
        → P (elim r.1 [
          | ok a ↦ if c then (db, err (wrap sql_failure)) else (r.0, ok a)
          | err e ↦ if b then (db, err (wrap e)) else (db, err e)
        ])
    close (db', ok a) e true b = failed (wrap sql_failure)
    close (db', ok a) e false b = kept db' a e
    close (db', err x) e c true = failed (wrap x)
    close (db', err x) e c false = failed x

    start :
        (b : Bool)
        → P (
            if b
            then (db, err (wrap sql_failure))
            else (let (db', r) = fn db in
                elim r [
                  | ok a ↦ if env.fails commit_tx then (db, err (wrap sql_failure)) else (db', ok a)
                  | err e ↦ if env.fails rollback_tx then (db, err (wrap e)) else (db, err e)
                ]))
    start true = failed (wrap sql_failure)
    start false = close (fn db) refl (env.fails commit_tx) (env.fails rollback_tx)

-- A call of `AdjustBalance` either returns an error and leaves the whole database as it was, or
-- writes the wallet and its ledger row together.
pub adjust_balance_cases :
    (env : Env) (db : Db) (uid : String) (delta : ℤ) (reason ref channel key : String)
    → Adjusted env db uid delta reason ref channel key
        (adjust_balance env db uid delta reason ref channel key)
unfolding adjust_balance
adjust_balance_cases env db uid delta reason ref channel key =
    run_tx_keeps (Adjusted env db uid delta reason ref channel key) env
      (adjust_tx env uid delta reason ref channel key) db refused body
  where
    body :
        (db' : Db) (a : ℤ)
        → adjust_tx env uid delta reason ref channel key db ≡ (db', ok a)
        → Adjusted env db uid delta reason ref channel key (db', ok a)
    body db' a h = elim (Option-cases (select_first (has_id uid) db.users)) [
      | inl none_found ↦ absurd (ground arith)
      | inr (u, found) ↦
          done u found (ground arith) (ground arith) (ground arith) (ground arith) (ground arith)
    ]
