-- ===== src/Scheduler/Others.antt =====
-- What replacing a key's bindings leaves to other keys.
use manager_key_pro.Base.{
  ◌≡◌, refl, ◌∙◌, ap, Bool, false, List, [], ◌∷◌, ◌++◌, String, str_eq, eq_iff, arith, select_all,
  delete_where,
}
use manager_key_pro.Base.Int.{ℤ, pos, add64}
use manager_key_pro.Store.Types.{Binding, Db}
use manager_key_pro.Store.Errors.{Env}
use manager_key_pro.Scheduler.Bindings.{binds, stored_binding, insert_bindings, replace_bindings}

-- The bindings of a key, unsorted.
abbrev pub bound : String → Db → List Binding
bound i db = select_all (binds i) db.bindings

pub select_all-append :
    (p : Binding → Bool) (xs ys : List Binding)
    → select_all p (xs ++ ys) ≡ select_all p xs ++ select_all p ys
unfolding select_all
select_all-append p [] ys = refl
select_all-append p (x ∷ xs) ys = ground (arith, select_all-append p xs ys)

pub append_nil : (xs : List Binding) → xs ++ [] ≡ xs
append_nil [] = refl
append_nil (x ∷ xs) = ap (λ ys. x ∷ ys) (append_nil xs)

-- A row of another key is not selected.
other_row :
    (kid i : String) (id : ℤ) (b : Binding) (bs : List Binding)
    → str_eq kid i ≡ false
    → select_all (binds i) (bs ++ (stored_binding kid id b ∷ [])) ≡ select_all (binds i) bs
unfolding select_all stored_binding
other_row kid i id b bs other =
    select_all-append (binds i) bs (stored_binding kid id b ∷ [])
    ∙ rw other (append_nil (select_all (binds i) bs))

insert_bindings-others :
    (env : Env) (kid i : String) (id : ℤ) (bs : List Binding) (db : Db)
    → str_eq kid i ≡ false
    → bound i (insert_bindings env kid id bs db).0 ≡ bound i db
unfolding insert_bindings
insert_bindings-others env kid i id [] db other = refl
insert_bindings-others env kid i id (b ∷ bs) db other =
    let db' = record db { bindings = db.bindings ++ (stored_binding kid id b ∷ []) } in
    ground (
      arith,
      insert_bindings-others env kid i (add64 id (pos 1)) bs db' other,
      other_row kid i id b db.bindings other,
    )

deleted_others :
    (kid i : String) (bs : List Binding)
    → str_eq kid i ≡ false
    → select_all (binds i) (delete_where (binds kid) bs) ≡ select_all (binds i) bs
unfolding select_all delete_where
deleted_others kid i [] other = refl
deleted_others kid i (b ∷ bs) other =
    ground
      (arith, eq_iff b.key_id kid, eq_iff b.key_id i, eq_iff kid i, deleted_others kid i bs other)

pub replace_bindings-others :
    (env : Env) (kid i : String) (id : ℤ) (bs : List Binding) (db : Db)
    → str_eq kid i ≡ false
    → bound i (replace_bindings env kid id bs db).0 ≡ bound i db
unfolding replace_bindings
replace_bindings-others env kid i id bs db other = ground (
  arith,
  deleted_others kid i db.bindings other,
  insert_bindings-others env kid i id bs
      (record db { bindings = delete_where (binds kid) db.bindings }) other,
)
