-- ===== src/Scheduler/Bindings.antt =====
-- `ListBindings` and `SetBindings`.
use manager_key_pro.Base.{
  Bool, true, false, not, ◌&&◌, ◌||◌, List, [], ◌∷◌, ◌++◌, String, str_eq, is_empty, trim_space,
  if◌then◌else◌, select_all, exists_row, delete_where,
}
use manager_key_pro.Base.Int.{ℤ, pos, add64, ltb_ℤ, leb_ℤ}
use manager_key_pro.Store.Types.{Binding, Db}
use manager_key_pro.Store.Errors.{
  message, sql_failure, sql_unique, Result, ok, err, Env, select_bindings, delete_bindings,
  insert_binding, run_tx,
}
use manager_key_pro.Store.Keys.{key_by_id}

-- `ORDER BY enabled DESC, priority ASC, id ASC`: may `a` stand before `b`?
unfoldable pub binding_before : Binding → Binding → Bool
binding_before a b =
    if a.enabled && not b.enabled
    then true
    else if b.enabled && not a.enabled
    then false
    else if ltb_ℤ a.priority b.priority
    then true
    else if ltb_ℤ b.priority a.priority
    then false
    else leb_ℤ a.id b.id

insert_sorted : Binding → List Binding → List Binding
insert_sorted b [] = b ∷ []
insert_sorted b (c ∷ cs) =
    let rest = insert_sorted b cs in if binding_before b c then b ∷ c ∷ cs else c ∷ rest

unfoldable pub sort_bindings : List Binding → List Binding
unfolding insert_sorted
sort_bindings [] = []
sort_bindings (b ∷ bs) = insert_sorted b (sort_bindings bs)

abbrev pub binds : String → Binding → Bool
binds kid b = str_eq b.key_id kid

-- `ListBindings`
unfoldable pub list_bindings : Env → Db → String → Result (List Binding)
unfolding sort_bindings
list_bindings env db kid =
    if env.fails (select_bindings kid)
    then err sql_failure
    else ok (sort_bindings (select_all (binds kid) db.bindings))

-- The loop over the new bindings: the first refusal, or the total share.
unfoldable pub check_shares : List Binding → ℤ → Result ℤ
check_shares [] total = ok total
check_shares (b ∷ bs) total =
    let rest = check_shares bs (add64 total b.share_percent) in
    if ltb_ℤ b.share_percent (pos 0) || ltb_ℤ (pos 100) b.share_percent
    then err (message "share_percent must be 0-100")
    else if is_empty (trim_space b.account_ref)
    then err (message "account_ref is required")
    else rest

-- The row that is stored for a binding: its reference trimmed, and a share of 0 read as 100.
unfoldable pub stored_binding : String → ℤ → Binding → Binding
stored_binding kid id b = record b {
  id = id;
  key_id = kid;
  account_ref = trim_space b.account_ref;
  share_percent = if leb_ℤ b.share_percent (pos 0) then pos 100 else b.share_percent;
}

-- `UNIQUE(key_id, account_ref)`
abbrev pub same_binding : Binding → Binding → Bool
same_binding n b = str_eq b.key_id n.key_id && str_eq b.account_ref n.account_ref

-- The inserts of `SetBindings`, with consecutive ids.
unfoldable pub insert_bindings : Env → String → ℤ → List Binding → Db → Db × Result (Unit {0})
unfolding stored_binding
insert_bindings env kid id [] db = (db, ok tt)
insert_bindings env kid id (b ∷ bs) db =
    let row = stored_binding kid id b in
    let rest =
      insert_bindings env kid (add64 id (pos 1)) bs
        (record db { bindings = db.bindings ++ (row ∷ []) }) in
    if env.fails (insert_binding row.account_ref)
    then (db, err sql_failure)
    else if exists_row (same_binding row) db.bindings
    then (db, err sql_unique)
    else rest

-- The function that `SetBindings` runs in a transaction.
unfoldable pub replace_bindings : Env → String → ℤ → List Binding → Db → Db × Result (Unit {0})
replace_bindings env kid id bs db =
    if env.fails (delete_bindings kid)
    then (db, err sql_failure)
    else insert_bindings env kid id bs
        (record db { bindings = delete_where (binds kid) db.bindings })

abbrev pub has_any : List Binding → Bool
has_any [] = false
has_any (_ ∷ _) = true

-- `SetBindings`; `id` is the table's next AUTOINCREMENT value.
unfoldable pub set_bindings : Env → Db → ℤ → String → List Binding → Db × Result (Unit {0})
set_bindings env db id kid bs = elim (key_by_id env db kid) [
  | err e ↦ (db, err e)
  | ok _ ↦ elim (check_shares bs (pos 0)) [
    | err e ↦ (db, err e)
    | ok total ↦
        if has_any bs && ltb_ℤ (pos 100) total
        then (db, err (message "total share_percent exceeds 100"))
        else run_tx env (replace_bindings env kid id bs) db
  ]
]
