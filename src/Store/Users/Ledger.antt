-- ===== src/Store/Users/Ledger.antt =====
-- The wallets against the credit ledger.
use manager_key_pro.Base.{
  ◌≡◌, refl, ◌≢◌, sym, subst, ◌∙◌, ap, true, false, if◌then◌else◌, ◌&&◌, inl, inr, some, none, List,
  [], ◌∷◌, String, arith, select_first, update_where, exists_row, Bool-cases, All, eq_iff, str_eq,
  str_eq_refl, str_eq-eq, is_empty, trim_space,
}
use manager_key_pro.Base.Int.{ℤ, pos, add64, ltb_ℤ, ◌≤ℤ◌, ◌+ℤ◌, InRange, add64-eq, +ℤ_parts}
use manager_key_pro.Store.Types.{User, LedgerRow, Db}
use manager_key_pro.Store.Errors.{Result, ok, Env, null_if_empty}
use manager_key_pro.Store.Users.{
  has_id, wallet_floor, set_balance, ledger_row, adjust_balance, is_telegram_ref,
}
use manager_key_pro.Store.Users.Adjust.{Adjusted, refused, done, adjust_balance_cases}

-- The balance that the ledger rows of a user add up to, oldest row first.
unfoldable pub replay : String → List LedgerRow → ℤ
replay uid [] = pos 0
replay uid (row ∷ rows) =
    if str_eq row.user_id uid then add64 (replay uid rows) row.delta else replay uid rows

abbrev pub Matches : List LedgerRow → User → Type 0
Matches rows u = u.balance ≡ replay u.id rows

-- Every wallet holds what its ledger rows add up to.
abbrev pub Reconciled : Db → Type 0
Reconciled db = All (Matches db.ledger) db.users

-- A user that is found is one of the users.
select_first-Matches :
    (rows : List LedgerRow) (uid : String) (us : List User) {u : User}
    → All (Matches rows) us
    → select_first (has_id uid) us ≡ some u
    → u.balance ≡ replay uid rows
unfolding select_first
select_first-Matches rows uid [] h e = cc
select_first-Matches rows uid (x ∷ us) {u} h e =
    ground (arith, str_eq-eq x.id uid, select_first-Matches rows uid us {u = u} h.1)

-- A new row of one user, with the new balance in the wallet, keeps every user's balance right.
move-Matches :
    (uid : String) (next : ℤ) (row : LedgerRow) (rows : List LedgerRow) (us : List User)
    → row.user_id ≡ uid
    → next ≡ add64 (replay uid rows) row.delta
    → All (Matches rows) us
    → All (Matches (row ∷ rows)) (update_where (has_id uid) (set_balance next) us)
unfolding update_where replay
move-Matches uid next row rows [] o n h = tt
move-Matches uid next row rows (u ∷ us) o n h =
    ground
      (arith, eq_iff u.id uid, eq_iff row.user_id u.id, move-Matches uid next row rows us o n h.1)

pub Adjusted-Reconciled :
    (env : Env) (db : Db) (uid : String) (delta : ℤ) (reason ref channel key : String)
    {r : Db × Result ℤ}
    → Adjusted env db uid delta reason ref channel key r
    → Reconciled db
    → Reconciled r.0
Adjusted-Reconciled env db uid delta reason ref channel key (refused e) h = h
Adjusted-Reconciled env db uid delta reason ref channel key (done u {next = n} found _ _ _ en edb)
      h =
    subst Reconciled (sym edb) (
      move-Matches uid n (ledger_row env uid delta reason ref channel key n) db.ledger db.users refl
        (en ∙ ap (λ b. add64 b delta) (select_first-Matches db.ledger uid db.users h found)) h)

-- Every call of AdjustBalance, also one that fails, keeps every wallet equal to the sum of its
-- ledger rows (in int64 arithmetic).
pub adjust_balance-Reconciled :
    (env : Env) (db : Db) (uid : String) (delta : ℤ) (reason ref channel key : String)
    → Reconciled db
    → Reconciled (adjust_balance env db uid delta reason ref channel key).0
adjust_balance-Reconciled env db uid delta reason ref channel key h =
    Adjusted-Reconciled env db uid delta reason ref channel key
      (adjust_balance_cases env db uid delta reason ref channel key) h

-- A lookup after the update of a wallet.
pub select_first-set_balance :
    (uid i : String) (next : ℤ) (us : List User)
    → select_first (has_id i) (update_where (has_id uid) (set_balance next) us) ≡ (
        if str_eq uid i
        then elim (select_first (has_id i) us) [ none ↦ none | some u ↦ some (set_balance next u) ]
        else select_first (has_id i) us)
unfolding select_first update_where
select_first-set_balance uid i next [] = ground arith
select_first-set_balance uid i next (u ∷ us) =
    ground
      (arith, eq_iff u.id uid, eq_iff u.id i, eq_iff uid i, select_first-set_balance uid i next us)

-- The balance lies at or above the wallet's floor.
abbrev pub Solvent : User → Type 0
Solvent u = wallet_floor u ≤ℤ u.balance

-- Every wallet that a lookup finds is solvent.
abbrev pub AllSolvent : Db → Type 0
AllSolvent db = (i : String) (u : User) → select_first (has_id i) db.users ≡ some u → Solvent u

-- A move that passed the balance test leaves the wallet solvent.
move-Solvent :
    (u : User) (delta : ℤ)
    → InRange (u.balance +ℤ delta)
    → (ltb_ℤ delta (pos 0) && ltb_ℤ (add64 u.balance delta) (wallet_floor u)) ≡ false
    → Solvent u
    → wallet_floor u ≤ℤ add64 u.balance delta
move-Solvent u delta fits test h =
    rw (add64-eq u.balance delta fits)
      (ground (arith, +ℤ_parts u.balance delta, add64-eq u.balance delta fits))

-- In the moved wallet, and in every other.
moved-Solvent :
    (uid i : String) (us : List User) (u v : User) (next : ℤ)
    → select_first (has_id uid) us ≡ some u
    → wallet_floor u ≤ℤ next
    → ((w : User) → select_first (has_id i) us ≡ some w → Solvent w)
    → select_first (has_id i) (update_where (has_id uid) (set_balance next) us) ≡ some v
    → Solvent v
moved-Solvent uid i us u v next found above h look = elim (Bool-cases (str_eq uid i)) [
  | inl same ↦
      let e : uid ≡ i = str_eq-eq uid i same in
      subst Solvent {x = set_balance next u} {y = v}
        (ground (
          arith,
          select_first-set_balance uid i next us,
          subst (λ j. select_first (has_id j) us ≡ some u) e found,
        ))
        above
  | inr other ↦ h v (ground (arith, select_first-set_balance uid i next us))
]

Adjusted-AllSolvent :
    (env : Env) (db : Db) (uid : String) (delta : ℤ) (reason ref channel key : String)
    {r : Db × Result ℤ}
    → Adjusted env db uid delta reason ref channel key r
    → ((u : User) → select_first (has_id uid) db.users ≡ some u → InRange (u.balance +ℤ delta))
    → AllSolvent db
    → AllSolvent r.0
Adjusted-AllSolvent env db uid delta reason ref channel key (refused e) fits h = h
Adjusted-AllSolvent env db uid delta reason ref channel key
      (done u {next = n} found test _ _ en edb) fits h =
    subst AllSolvent (sym edb) λ i v look.
      moved-Solvent uid i db.users u v n found
        (rw en (move-Solvent u delta (fits u found) test (h uid u found))) (h i) look

-- No call of AdjustBalance takes a wallet below its floor (0, or minus the credit limit for a
-- postpaid wallet), provided that every wallet starts at or above its floor and that the new
-- balance fits an int64.
pub adjust_balance-AllSolvent :
    (env : Env) (db : Db) (uid : String) (delta : ℤ) (reason ref channel key : String)
    → ((u : User) → select_first (has_id uid) db.users ≡ some u → InRange (u.balance +ℤ delta))
    → AllSolvent db
    → AllSolvent (adjust_balance env db uid delta reason ref channel key).0
adjust_balance-AllSolvent env db uid delta reason ref channel key =
    Adjusted-AllSolvent env db uid delta reason ref channel key
      (adjust_balance_cases env db uid delta reason ref channel key)

-- A call of a telegram reference that the ledger has is refused.
Adjusted-once :
    (env : Env) (db : Db) (uid : String) (delta : ℤ) (reason ref key : String) {r : Db × Result ℤ}
    → exists_row (is_telegram_ref (null_if_empty ref) (null_if_empty "telegram")) db.ledger ≡ true
    → Adjusted env db uid delta reason ref "telegram" key r
    → (r.0 ≡ db) × ((n : ℤ) → r.1 ≢ ok n)
Adjusted-once env db uid delta reason ref key known (refused e) = (refl, λ n h. cc)
Adjusted-once env db uid delta reason ref key known (done u _ _ new _ _ _) = absurd (ground arith)

-- After a successful call the ledger has its telegram reference.
Adjusted-recorded :
    (env : Env) (db : Db) (uid : String) (delta : ℤ) (reason ref key : String) {r : Db × Result ℤ}
    (next : ℤ)
    → is_empty (trim_space ref) ≡ false
    → Adjusted env db uid delta reason ref "telegram" key r
    → r.1 ≡ ok next
    → exists_row (is_telegram_ref (null_if_empty ref) (null_if_empty "telegram")) r.0.ledger ≡ true
unfolding exists_row null_if_empty trim_space
Adjusted-recorded env db uid delta reason ref key next given (refused e) h = absurd (ground arith)
Adjusted-recorded env db uid delta reason ref key next given (done u {next = n} _ _ _ _ _ edb) h =
    rw edb (rw given (ground (arith, str_eq_refl ref)))

-- A recharge by the Telegram webhook with a transaction id that is not blank cannot be applied twice: once a call with
-- that reference has succeeded, any later call with it on the resulting database, whatever its user
-- and amount, returns an error and leaves the database as it is.
pub adjust_balance-telegram_once :
    (env env' : Env) (db : Db) (uid uid' : String) (delta delta' : ℤ)
    (reason reason' ref key key' : String) (next : ℤ)
    → is_empty (trim_space ref) ≡ false
    → (adjust_balance env db uid delta reason ref "telegram" key).1 ≡ ok next
    → let db' = (adjust_balance env db uid delta reason ref "telegram" key).0 in
      let again = adjust_balance env' db' uid' delta' reason' ref "telegram" key' in
      (again.0 ≡ db') × ((n : ℤ) → again.1 ≢ ok n)
adjust_balance-telegram_once env env' db uid uid' delta delta' reason reason' ref key key' next r
      h =
    Adjusted-once env' _ uid' delta' reason' ref key'
      (Adjusted-recorded env db uid delta reason ref key next r
        (adjust_balance_cases env db uid delta reason ref "telegram" key) h)
      (adjust_balance_cases env' _ uid' delta' reason' ref "telegram" key')
