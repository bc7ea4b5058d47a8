-- ===== src/Scheduler/Accepted.antt =====
-- When a key's bindings are replaced.
use manager_key_pro.Base.{
  ◌≡◌, refl, Bool, false, ◌&&◌, List, [], ◌∷◌, ◌++◌, String, str_eq, arith, trim_space, All,
  exists_row, delete_where,
}
use manager_key_pro.Base.Int.{ℤ, pos, add64, ltb_ℤ}
use manager_key_pro.Store.Types.{Key, Binding, Db}
use manager_key_pro.Store.Errors.{
  Stmt, Env, ok, run_tx, begin_tx, commit_tx, delete_bindings, insert_binding,
}
use manager_key_pro.Store.Keys.{key_by_id}
use manager_key_pro.Scheduler.Bindings.{
  binds, check_shares, stored_binding, insert_bindings, replace_bindings, set_bindings,
}
use manager_key_pro.Scheduler.Replace.{Acceptable, shares_total}

-- A binding of the key for the account of `b`.
abbrev takes : String → Binding → Binding → Bool
takes kid b row = str_eq row.key_id kid && str_eq row.account_ref (trim_space b.account_ref)

abbrev Apart : Binding → Binding → Type 0
Apart b c = str_eq (trim_space b.account_ref) (trim_space c.account_ref) ≡ false

-- No two bindings are for the same account.
abbrev pub Distinct : List Binding → Type 0
Distinct [] = Unit
Distinct (b ∷ bs) = All (Apart b) bs × Distinct bs

-- No row of the table is for the key and the account of one of the bindings.
abbrev Free : String → List Binding → List Binding → Type 0
Free kid rows bs = All (λ b. exists_row (takes kid b) rows ≡ false) bs

exists_row-append :
    (p : Binding → Bool) (xs ys : List Binding)
    → exists_row p xs ≡ false
    → exists_row p ys ≡ false
    → exists_row p (xs ++ ys) ≡ false
unfolding exists_row
exists_row-append p [] ys h h' = h'
exists_row-append p (x ∷ xs) ys h h' = ground (arith, h, h', exists_row-append p xs ys)

-- A stored row leaves the accounts of the others free.
Free-stored :
    (kid : String) (id : ℤ) (b : Binding) (rows bs : List Binding)
    → All (Apart b) bs
    → Free kid rows bs
    → Free kid (rows ++ (stored_binding kid id b ∷ [])) bs
unfolding stored_binding exists_row
Free-stored kid id b rows [] apart free = tt
Free-stored kid id b rows (c ∷ bs) apart free = (
  exists_row-append (takes kid c) rows (stored_binding kid id b ∷ []) free.0
      (ground (arith, apart.0)),
  Free-stored kid id b rows bs apart.1 free.1,
)

insert_bindings-succeeds :
    (env : Env) (kid : String) (id : ℤ) (bs : List Binding) (db : Db)
    → ((s : Stmt) → env.fails s ≡ false)
    → Distinct bs
    → Free kid db.bindings bs
    → (insert_bindings env kid id bs db).1 ≡ ok tt
unfolding insert_bindings stored_binding
insert_bindings-succeeds env kid id [] db sound distinct free = refl
insert_bindings-succeeds env kid id (b ∷ bs) db sound distinct free =
    let row = stored_binding kid id b in
    let db1 = record db { bindings = db.bindings ++ (row ∷ []) } in
    let rest =
      insert_bindings-succeeds env kid (add64 id (pos 1)) bs db1 sound distinct.1
        (Free-stored kid id b db.bindings bs distinct.0 free.1) in
    ground (arith, sound (insert_binding row.account_ref), free.0, rest)

deleted_free :
    (kid : String) (b : Binding) (rows : List Binding)
    → exists_row (takes kid b) (delete_where (binds kid) rows) ≡ false
unfolding exists_row delete_where
deleted_free kid b [] = refl
deleted_free kid b (row ∷ rows) = ground (arith, deleted_free kid b rows)

all-Free : (kid : String) (rows bs : List Binding) → Free kid (delete_where (binds kid) rows) bs
all-Free kid rows [] = tt
all-Free kid rows (b ∷ bs) = (deleted_free kid b rows, all-Free kid rows bs)

check_shares-accepts :
    (bs : List Binding) (start : ℤ)
    → All Acceptable bs
    → check_shares bs start ≡ ok (shares_total start bs)
unfolding check_shares shares_total
check_shares-accepts [] start h = refl
check_shares-accepts (b ∷ bs) start h =
    ground (arith, h, check_shares-accepts bs (add64 start b.share_percent) h.1)

-- A replacement of a key's bindings succeeds where the key is found, every share is from 0 to 100 with
-- a reference that is not blank, the shares add up to at most 100 in int64, no two trimmed references
-- are equal, and the driver fails no statement.
pub set_bindings-accepted :
    (env : Env) (db : Db) (id : ℤ) (kid : String) (bs : List Binding) (key : Key)
    → ((s : Stmt) → env.fails s ≡ false)
    → key_by_id env db kid ≡ ok key
    → All Acceptable bs
    → ltb_ℤ (pos 100) (shares_total (pos 0) bs) ≡ false
    → Distinct bs
    → (set_bindings env db id kid bs).1 ≡ ok tt
unfolding set_bindings replace_bindings run_tx
set_bindings-accepted env db id kid bs key sound found shares within distinct =
    let accepted = check_shares-accepts bs (pos 0) shares in
    let cleared = record db { bindings = delete_where (binds kid) db.bindings } in
    let inserted =
      insert_bindings-succeeds env kid id bs cleared sound distinct (all-Free kid db.bindings bs) in
    ground (
      arith,
      found,
      accepted,
      within,
      inserted,
      sound (delete_bindings kid),
      sound begin_tx,
      sound commit_tx,
    )
