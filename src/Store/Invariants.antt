-- ===== src/Store/Invariants.antt =====
-- What every change of the database keeps: the wallets agree with the ledger, and the ledger
-- only grows.
use manager_key_pro.Base.{
  ◌≡◌, refl, sym, ap, ◌∙◌, subst, Bool, List, [], ◌∷◌, ◌++◌, String, arith, update_where-All, All,
}
use mathlib.Core.List.{append_assoc}
use manager_key_pro.Store.Types.{Key, LedgerRow, Db}
use manager_key_pro.Store.Errors.{Stmt, Env}
use manager_key_pro.Store.Keys.{update_key_row, consume, reset, used_valid, add_used, start_period}
use manager_key_pro.Store.Keys.Create.{create_key, CreateKeyInput}
use manager_key_pro.Store.Users.{has_id, ledger_row}
use manager_key_pro.Store.Users.Adjust.{refused, done}
use manager_key_pro.Store.Users.Ledger.{replay, Matches, Reconciled, Adjusted-Reconciled}
use manager_key_pro.Store.Steps.{
  Step, Steps, here, next, wallet, quota, period, reserved, issued, renewed, noted, used, logged,
  edited, configured, touched,
}

-- The part of the database that holds money.
pub record SameWallets (a b : Db) : Type 0 where
  pub users : b.users ≡ a.users
  pub ledger : b.ledger ≡ a.ledger

update_key_row-SameWallets :
    (env : Env) (db : Db) (stmt : Stmt) (kid : String) (f : Key → Key) (valid : Key → Bool)
    → SameWallets db (update_key_row env db stmt kid f valid).0
unfolding update_key_row
update_key_row-SameWallets env db stmt kid f valid = record {
  users = ground arith;
  ledger = ground arith;
}

pub create_key-SameWallets :
    (env : Env) (db : Db) (input : CreateKeyInput) → SameWallets db (create_key env db input).0
unfolding create_key
create_key-SameWallets env db input = record { users = ground arith; ledger = ground arith }

SameWallets-Reconciled : {a b : Db} → SameWallets a b → Reconciled a → Reconciled b
SameWallets-Reconciled {a} {b} s h =
    subst (λ us. All (Matches b.ledger) us) (sym s.users)
      (subst (λ l. All (Matches l) a.users) (sym s.ledger) h)

-- Every change keeps the wallets equal to the sums of their ledger rows.
pub Step-Reconciled : (a b : Db) → Step a b → Reconciled a → Reconciled b
unfolding consume reset
Step-Reconciled a b (wallet env uid delta reason ref channel key r c) h =
    Adjusted-Reconciled env a uid delta reason ref channel key c h
Step-Reconciled a b (quota env kid delta) h =
    SameWallets-Reconciled (update_key_row-SameWallets env a _ kid (add_used env delta) used_valid)
      h
Step-Reconciled a b (period env kid start end) h =
    SameWallets-Reconciled
      (update_key_row-SameWallets env a _ kid (start_period env start end) used_valid) h
Step-Reconciled a b (reserved rs) h = h
Step-Reconciled a b (issued env input) h =
    SameWallets-Reconciled (create_key-SameWallets env a input) h
Step-Reconciled a b (renewed kid amount expires now) h = h
Step-Reconciled a b (noted os es as' hs) h = h
Step-Reconciled a b (used row) h = h
Step-Reconciled a b (logged rows) h = h
Step-Reconciled a b (configured settings) h = h
Step-Reconciled a b (edited env stmt kid f valid) h =
    SameWallets-Reconciled (update_key_row-SameWallets env a stmt kid f valid) h
Step-Reconciled a b (touched uid f ids balances) h =
    update_where-All (Matches a.ledger) (has_id uid) f a.users
      (λ u m _. balances u ∙ m ∙ ap (λ i. replay i a.ledger) (sym (ids u))) h

-- One ledger is another with newer rows in front.
abbrev pub Extends : Db → Db → Type 0
Extends a b = (rows : List LedgerRow) × (b.ledger ≡ rows ++ a.ledger)

Step-Extends : (a b : Db) → Step a b → Extends a b
unfolding consume reset
Step-Extends a b (wallet env uid delta reason ref channel key r (refused e)) = ([], refl)
Step-Extends a b (wallet env uid delta reason ref channel key r (done u {next = n} _ _ _ _ _ e)) =
    (ledger_row env uid delta reason ref channel key n ∷ [], ap (λ (d : Db). d.ledger) e)
Step-Extends a b (quota env kid delta) =
    ([], (update_key_row-SameWallets env a _ kid (add_used env delta) used_valid).ledger)
Step-Extends a b (period env kid start end) =
    ([], (update_key_row-SameWallets env a _ kid (start_period env start end) used_valid).ledger)
Step-Extends a b (reserved rs) = ([], refl)
Step-Extends a b (issued env input) = ([], (create_key-SameWallets env a input).ledger)
Step-Extends a b (renewed kid amount expires now) = ([], refl)
Step-Extends a b (noted os es as' hs) = ([], refl)
Step-Extends a b (used row) = ([], refl)
Step-Extends a b (logged rows) = ([], refl)
Step-Extends a b (configured settings) = ([], refl)
Step-Extends a b (edited env stmt kid f valid) =
    ([], (update_key_row-SameWallets env a stmt kid f valid).ledger)
Step-Extends a b (touched uid f ids balances) = ([], refl)

-- No sequence of changes alters or drops a ledger row.
pub Steps-Extends : {a b : Db} → Steps a b → Extends a b
Steps-Extends here = ([], refl)
Steps-Extends {a} (next {db'} {db''} s step) =
    let (rows, e) = Steps-Extends s in
    let (more, e') = Step-Extends db' db'' step in
    (more ++ rows, e' ∙ ap (λ l. more ++ l) e ∙ sym (append_assoc more rows a.ledger))
