-- ===== src/Store/Steps.antt =====
-- The atomic changes that the operations make to the database, and sequences of them.
use manager_key_pro.Base.{◌≡◌, refl, ◌⊎◌, inl, inr, List, ◌∷◌, String, Bool, update_where}
use manager_key_pro.Base.Int.{ℤ}
use manager_key_pro.Store.Types.{
  User, Key, Reservation, UsageRow, Order, Earning, AuditRow, HistoryRow, LogRow, Db,
}
use manager_key_pro.Store.Errors.{Error, Result, ok, err, Stmt, Env}
use manager_key_pro.Store.Keys.{update_key_row, consume, reset, renew_row, has_key_id}
use manager_key_pro.Store.Keys.Create.{CreateKeyInput, create_key}
use manager_key_pro.Store.Users.{has_id, adjust_balance}
use manager_key_pro.Store.Users.Adjust.{Adjusted, adjust_balance_cases}

-- One change: a wallet move with its ledger row, an update of a key's quota, a new key, an edit
-- of a key, a change of a user that leaves the wallet alone, new settings, or new rows of the tables that hold
-- neither.
pub data Step (db : Db) : Db → Type 0 where
  wallet :
      (env : Env) (uid : String) (delta : ℤ) (reason ref channel key : String) {db' : Db}
      (r : Result ℤ)
      → Adjusted env db uid delta reason ref channel key (db', r)
      → Step db db'
  quota : (env : Env) (kid : String) (delta : ℤ) → Step db (consume env db kid delta).0
  period : (env : Env) (kid : String) (start end : ℤ) → Step db (reset env db kid start end).0
  reserved : (rs : List Reservation) → Step db (record db { reservations = rs })
  issued : (env : Env) (input : CreateKeyInput) → Step db (create_key env db input).0
  renewed :
      (kid : String) (amount expires now : ℤ)
      → Step db (record db {
        keys = update_where (has_key_id kid) (renew_row amount expires now) db.keys;
      })
  noted :
      (os : List Order) (es : List Earning) (as' : List AuditRow) (hs : List HistoryRow)
      → Step db (record db { orders = os; earnings = es; audit_log = as'; quota_history = hs })
  used : (row : UsageRow) → Step db (record db { usage_records = row ∷ db.usage_records })
  logged : (rows : List LogRow) → Step db (record db { request_logs = rows })
  configured : (settings : List (String × String)) → Step db (record db { settings = settings })
  edited :
      (env : Env) (stmt : Stmt) (kid : String) (f : Key → Key) (valid : Key → Bool)
      → Step db (update_key_row env db stmt kid f valid).0
  touched :
      (uid : String) (f : User → User)
      → ((u : User) → (f u).id ≡ u.id)
      → ((u : User) → (f u).balance ≡ u.balance)
      → Step db (record db { users = update_where (has_id uid) f db.users })

pub data Steps (db : Db) : Db → Type 0 where
  here : Steps db db
  next : {db' db'' : Db} → Steps db db' → Step db' db'' → Steps db db''

pub Steps-trans : {a b c : Db} → Steps a b → Steps b c → Steps a c
Steps-trans s here = s
Steps-trans s (next t step) = next (Steps-trans s t) step

-- A property that every change keeps holds after any sequence of changes.
pub Steps-keep {κ} :
    (P : Db → Type κ) → ((a b : Db) → Step a b → P a → P b) → {a b : Db} → Steps a b → P a → P b
Steps-keep P keep here p = p
Steps-keep P keep (next s step) p = keep _ _ step (Steps-keep P keep s p)

pub Result-cases {ℓ} :
    {A : Type ℓ} (r : Result A) → ((e : Error) × (r ≡ err e)) ⊎ ((a : A) × (r ≡ ok a))
Result-cases (err e) = inl (e, refl)
Result-cases (ok a) = inr (a, refl)

pub here_at : (db : Db) → Steps db db
here_at db = here

pub adjust_balance-Steps :
    (env : Env) (db : Db) (uid : String) (delta : ℤ) (reason ref channel key : String)
    → Steps db (adjust_balance env db uid delta reason ref channel key).0
adjust_balance-Steps env db uid delta reason ref channel key = next here (
    wallet env uid delta reason ref channel key
      (adjust_balance env db uid delta reason ref channel key).1
      (adjust_balance_cases env db uid delta reason ref channel key))

pub consume-Steps :
    (env : Env) (db : Db) (kid : String) (delta : ℤ) → Steps db (consume env db kid delta).0
consume-Steps env db kid delta = next here (quota env kid delta)

pub used-Steps :
    (db : Db) (row : UsageRow) → Steps db (record db { usage_records = row ∷ db.usage_records })
used-Steps db row = next here (used row)

pub reset-Steps :
    (env : Env) (db : Db) (kid : String) (start end : ℤ) → Steps db (reset env db kid start end).0
reset-Steps env db kid start end = next here (period env kid start end)

pub reserved-Steps : (db : Db) (rs : List Reservation) → Steps db (record db { reservations = rs })
reserved-Steps db rs = next here (reserved rs)

pub logged-Steps : (db : Db) (rows : List LogRow) → Steps db (record db { request_logs = rows })
logged-Steps db rows = next here (logged rows)
