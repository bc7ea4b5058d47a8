-- ===== src/Scheduler/Replace.antt =====
-- What replacing a key's bindings stores.
use manager_key_pro.Base.{
  ◌≡◌, refl, sym, ◌∙◌, ap, Bool, true, false, List, [], ◌∷◌, ◌++◌, String, str_eq, arith, inl, inr,
  select_all, delete_where, if◌then◌else◌, ◌&&◌, str_eq_refl, trim_space, Bool-cases, exists_row,
  All, is_empty, subst,
}
use mathlib.Core.List.{append_assoc}
use manager_key_pro.Base.Int.{ℤ, pos, add64, ltb_ℤ, leb_ℤ}
use manager_key_pro.Store.Types.{Key, Binding, Db}
use manager_key_pro.Store.Errors.{
  Error, message, Result, ok, err, Env, run_tx, delete_bindings, insert_binding,
}
use manager_key_pro.Store.Keys.{key_by_id}
use manager_key_pro.Store.Users.Adjust.{run_tx_keeps}
use manager_key_pro.Store.Steps.{Result-cases}
use manager_key_pro.Scheduler.Bindings.{
  binds, check_shares, stored_binding, insert_bindings, replace_bindings, set_bindings, has_any,
  same_binding,
}
use manager_key_pro.Scheduler.Others.{bound, select_all-append, append_nil, replace_bindings-others}

-- The row that is stored of a binding: under its own id, of the key, its reference trimmed, a share of 0
-- (or less) as 100, and all else as it was given.
pub record Stores (kid : String) (id : ℤ) (given row : Binding) : Type 0 where
  pub id_of : row.id ≡ id
  pub key_of : row.key_id ≡ kid
  pub account : row.account_ref ≡ trim_space given.account_ref
  pub type_of : row.account_type ≡ given.account_type
  pub share :
      row.share_percent
      ≡ (if leb_ℤ given.share_percent (pos 0) then pos 100 else given.share_percent)
  pub rank : row.priority ≡ given.priority
  pub status : row.enabled ≡ given.enabled

-- One row for each binding, in their order, with consecutive ids.
pub data Stored (kid : String) : ℤ → List Binding → List Binding → Type 0 where
  no_rows : (id : ℤ) → Stored kid id [] []
  row_for :
      {id : ℤ} {given row : Binding} {bs rows : List Binding}
      → Stores kid id given row
      → Stored kid (add64 id (pos 1)) bs rows
      → Stored kid id (given ∷ bs) (row ∷ rows)

-- A share from 0 to 100, for a reference that is not blank.
abbrev pub Acceptable : Binding → Type 0
Acceptable b =
    (ltb_ℤ b.share_percent (pos 0) ≡ false)
    × (ltb_ℤ (pos 100) b.share_percent ≡ false)
    × (is_empty (trim_space b.account_ref) ≡ false)

-- The sum of the shares as given, in int64.
unfoldable pub shares_total : ℤ → List Binding → ℤ
shares_total total [] = total
shares_total total (b ∷ bs) = shares_total (add64 total b.share_percent) bs

-- The result of SetBindings: an error, with the database as it was; or, for an existing key and
-- acceptable shares of at most 100 in all, the table of bindings without the old rows of the key and with one new row for
-- each binding behind the rows of the other keys, which stay. No other table changes.
pub data Replaced (env : Env) (db : Db) (id : ℤ) (kid : String) (bs : List Binding)
    : Db × Result (Unit {0}) → Type 0 where
  rejected : (e : Error) → Replaced env db id kid bs (db, err e)
  replaced :
      {db' : Db} (key : Key) (rows : List Binding)
      → key_by_id env db kid ≡ ok key
      → All Acceptable bs
      → ltb_ℤ (pos 100) (shares_total (pos 0) bs) ≡ false
      → Stored kid id bs rows
      → bound kid db' ≡ rows
      → ((i : String) → str_eq kid i ≡ false → bound i db' ≡ bound i db)
      → db' ≡ record db { bindings = db'.bindings }
      → Replaced env db id kid bs (db', ok tt)

-- The rows that the inserts store.
stored_rows : String → ℤ → List Binding → List Binding
stored_rows kid id [] = []
stored_rows kid id (b ∷ bs) = stored_binding kid id b ∷ stored_rows kid (add64 id (pos 1)) bs

stored_rows-Stored :
    (kid : String) (id : ℤ) (bs : List Binding) → Stored kid id bs (stored_rows kid id bs)
unfolding stored_rows stored_binding
stored_rows-Stored kid id [] = no_rows id
stored_rows-Stored kid id (b ∷ bs) =
    let here : Stores kid id b (stored_binding kid id b) = record {
      id_of = refl;
      key_of = refl;
      account = refl;
      type_of = refl;
      share = refl;
      rank = refl;
      status = refl;
    } in
    row_for here (stored_rows-Stored kid (add64 id (pos 1)) bs)

check_shares-ok :
    (bs : List Binding) (start total : ℤ)
    → check_shares bs start ≡ ok total
    → All Acceptable bs × (total ≡ shares_total start bs)
unfolding check_shares shares_total
check_shares-ok [] start total h = (tt, ground (arith, h))
check_shares-ok (b ∷ bs) start total h =
    let rest = check_shares-ok bs (add64 start b.share_percent) total in ground (arith, h, rest)

within_all :
    (bs : List Binding)
    → (has_any bs && ltb_ℤ (pos 100) (shares_total (pos 0) bs)) ≡ false
    → ltb_ℤ (pos 100) (shares_total (pos 0) bs) ≡ false
unfolding shares_total
within_all [] h = refl
within_all (b ∷ bs) h = h

-- Inserts that all succeed have put their rows behind the ones that were there.
insert_bindings-ok :
    (env : Env) (kid : String) (id : ℤ) (bs : List Binding) (db db' : Db)
    → insert_bindings env kid id bs db ≡ (db', ok tt)
    → db' ≡ record db { bindings = db.bindings ++ stored_rows kid id bs }
unfolding insert_bindings stored_rows
insert_bindings-ok env kid id [] db db' h =
    sym (ap (λ r. r.0) h) ∙ ap (λ bs. record db { bindings = bs }) (sym (append_nil db.bindings))
insert_bindings-ok env kid id (b ∷ bs) db db' h =
    let row = stored_binding kid id b in
    let db1 = record db { bindings = db.bindings ++ (row ∷ []) } in
    let rest = insert_bindings env kid (add64 id (pos 1)) bs db1 in
    elim (Bool-cases (env.fails (insert_binding row.account_ref))) [
      | inl e ↦ absurd (ground (arith, e, h))
      | inr e ↦ elim (Bool-cases (exists_row (same_binding row) db.bindings)) [
        | inl x ↦ absurd (ground (arith, e, x, h))
        | inr x ↦
            let inserted : rest ≡ (db', ok tt) = ground (arith, e, x, h) in
            insert_bindings-ok env kid (add64 id (pos 1)) bs db1 db' inserted
            ∙ ap (λ all. record db { bindings = all })
                (append_assoc db.bindings (row ∷ []) (stored_rows kid (add64 id (pos 1)) bs))
      ]
    ]

select_all-stored :
    (kid : String) (id : ℤ) (bs : List Binding)
    → select_all (binds kid) (stored_rows kid id bs) ≡ stored_rows kid id bs
unfolding select_all stored_rows stored_binding
select_all-stored kid id [] = refl
select_all-stored kid id (b ∷ bs) =
    ground (arith, str_eq_refl kid, select_all-stored kid (add64 id (pos 1)) bs)

select_all-deleted :
    (kid : String) (bs : List Binding) → select_all (binds kid) (delete_where (binds kid) bs) ≡ []
unfolding select_all delete_where
select_all-deleted kid [] = refl
select_all-deleted kid (b ∷ bs) = ground (arith, select_all-deleted kid bs)

replace_bindings-ok :
    (env : Env) (kid : String) (id : ℤ) (bs : List Binding) (db db' : Db)
    → replace_bindings env kid id bs db ≡ (db', ok tt)
    → db' ≡ record db { bindings = delete_where (binds kid) db.bindings ++ stored_rows kid id bs }
unfolding replace_bindings
replace_bindings-ok env kid id bs db db' h = elim (Bool-cases (env.fails (delete_bindings kid))) [
  | inl e ↦ absurd (ground (arith, e, h))
  | inr e ↦
      insert_bindings-ok env kid id bs
        (record db { bindings = delete_where (binds kid) db.bindings }) db' (ground (arith, e, h))
]

Replaced-rows :
    (env : Env) (db : Db) (id : ℤ) (kid : String) (bs : List Binding) (key : Key) (total : ℤ)
    → key_by_id env db kid ≡ ok key
    → check_shares bs (pos 0) ≡ ok total
    → (has_any bs && ltb_ℤ (pos 100) total) ≡ false
    → (db' : Db) (a : Unit {0}) → replace_bindings env kid id bs db ≡ (db', ok a)
    → Replaced env db id kid bs (db', ok a)
Replaced-rows env db id kid bs key total found shares within db' a h =
    let rows = stored_rows kid id bs in
    let made = replace_bindings-ok env kid id bs db db' h in
    let own =
      ap (bound kid) made
      ∙ select_all-append (binds kid) (delete_where (binds kid) db.bindings) rows
      ∙ ap (λ l. l ++ select_all (binds kid) rows) (select_all-deleted kid db.bindings)
      ∙ select_all-stored kid id bs in
    let (accepted, sum) = check_shares-ok bs (pos 0) total shares in
    let small = within_all bs (subst (λ t. (has_any bs && ltb_ℤ (pos 100) t) ≡ false) sum within) in
    replaced key rows found accepted small (stored_rows-Stored kid id bs) own
      (λ i other. ap (λ r. bound i r.0) (sym h) ∙ replace_bindings-others env kid i id bs db other)
      (made ∙ ap (λ (d : Db). record db { bindings = d.bindings }) (sym made))

checked_total :
    (env : Env) (db : Db) (id : ℤ) (kid : String) (bs : List Binding) (key : Key) (total : ℤ)
    (exceeded : Bool)
    → key_by_id env db kid ≡ ok key
    → check_shares bs (pos 0) ≡ ok total
    → (has_any bs && ltb_ℤ (pos 100) total) ≡ exceeded
    → Replaced env db id kid bs (
        if exceeded
        then (db, err (message "total share_percent exceeds 100"))
        else run_tx env (replace_bindings env kid id bs) db)
checked_total env db id kid bs key total true found shares e = rejected _
checked_total env db id kid bs key total false found shares e =
    run_tx_keeps (Replaced env db id kid bs) env (replace_bindings env kid id bs) db rejected
      (Replaced-rows env db id kid bs key total found shares e)

-- Replacing a key's bindings is all or nothing. An error leaves the whole database as it was. A success
-- has found the key, accepted every share and a total of at most 100, and left as the key's bindings
-- exactly one row for each given binding, in their order, with consecutive ids, references trimmed, a
-- share of 0 stored as 100, and all else as given; the bindings of other keys and all other tables are
-- as they were.
pub set_bindings-Replaced :
    (env : Env) (db : Db) (id : ℤ) (kid : String) (bs : List Binding)
    → Replaced env db id kid bs (set_bindings env db id kid bs)
unfolding set_bindings
set_bindings-Replaced env db id kid bs = elim (Result-cases (key_by_id env db kid)) [
  | inl (e, q) ↦ rw (set_bindings, q) (rejected e)
  | inr (k, q) ↦ elim (Result-cases (check_shares bs (pos 0))) [
    | inl (e, q') ↦ rw (set_bindings, q, q') (rejected e)
    | inr (total, q') ↦
        rw (set_bindings, q, q')
          (checked_total env db id kid bs k total (has_any bs && ltb_ℤ (pos 100) total) q q' refl)
  ]
]
