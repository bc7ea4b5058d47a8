-- ===== src/Store/Packages.antt =====
-- internal/store/packages_orders.go: the catalogue of packages and the orders.
use manager_key_pro.Base.{
  Bool, not, ◌&&◌, ◌||◌, none, some, List, ◌∷◌, String, str_eq, is_empty, trim_space, if◌then◌else◌,
  select_first, exists_row, update_where, delete_where,
}
use manager_key_pro.Base.Int.{ℤ, pos, negsuc, leb_ℤ}
use manager_key_pro.Store.Types.{Package, Order, Db}
use manager_key_pro.Store.Errors.{
  not_found, duplicate, sql_failure, message, wrap, Result, ok, err, null_if_empty, coalesce, Env,
  select_package, insert_package, update_package, delete_package, insert_order, require_one_row,
}
use manager_key_pro.Store.Keys.Create.{kind_valid, is_cyclic, null_window_hours, or_default}

abbrev pub has_package_id : String → Package → Bool
has_package_id pid p = str_eq p.id pid

-- `PackagesRepo.ByID`
unfoldable pub package_by_id : Env → Db → String → Result Package
package_by_id env db pid =
    if env.fails (select_package pid)
    then err (wrap sql_failure)
    else (elim (select_first (has_package_id pid) db.packages) [
      | none ↦ err not_found
      | some p ↦ ok p
    ])

-- `CreatePackageInput`
pub record CreatePackageInput : Type 0 where
  pub name : String
  pub description : String
  pub quota_kind : String
  pub quota_scope : String
  pub quota_amount : ℤ
  pub plan_type : String
  pub window_hours : ℤ
  pub duration_days : ℤ
  pub price_credit : ℤ
  pub models : List String
  pub rpm : ℤ
  pub visible : Bool

-- The CHECKs of packages.
abbrev pub package_valid : Package → Bool
package_valid p =
    kind_valid p.quota_kind
    && (str_eq p.quota_scope "lifetime" || is_cyclic p.quota_scope)
    && leb_ℤ (pos 0) p.quota_amount
    && leb_ℤ (pos 0) p.price_credit

-- The row that `Create` inserts, after its defaults.
unfoldable pub new_package : Env → String → CreatePackageInput → Package
new_package env name input =
    let scope = or_default input.quota_scope "lifetime" in
    record {
      id = env.new_id "pkg";
      name = name;
      description = coalesce (null_if_empty input.description);
      quota_kind = or_default input.quota_kind "token";
      quota_scope = scope;
      quota_amount = input.quota_amount;
      plan_type = or_default input.plan_type (if is_cyclic scope then "windowed" else "lifetime");
      window_hours = null_window_hours input.window_hours;
      duration_days =
          if leb_ℤ input.duration_days (pos 0) && leb_ℤ (pos 0) input.duration_days
          then negsuc 0
          else input.duration_days;
      price_credit = input.price_credit;
      allowed_models = input.models;
      rpm = if leb_ℤ input.rpm (pos 0) then pos 60 else input.rpm;
      visible = input.visible;
      created_at = env.now;
    }

-- `PackagesRepo.Create`
unfoldable pub create_package : Env → Db → CreatePackageInput → Db × Result Package
unfolding new_package
create_package env db input =
    let name = trim_space input.name in
    if is_empty name
    then (db, err (message "name is required"))
    else if leb_ℤ input.quota_amount (pos 0)
    then (db, err (message "quota_amount must be > 0"))
    else (let p = new_package env name input in
        if env.fails (insert_package p.id) || not (package_valid p)
        then (db, err (wrap sql_failure))
        else if exists_row (has_package_id p.id) db.packages
        then (db, err duplicate)
        else (let db' = record db { packages = p ∷ db.packages } in
            (db', package_by_id env db' p.id)))

abbrev pub edit_package : CreatePackageInput → Package → Package
edit_package input p = record p {
  name = input.name;
  description = coalesce (null_if_empty input.description);
  quota_kind = input.quota_kind;
  quota_scope = input.quota_scope;
  quota_amount = input.quota_amount;
  plan_type = input.plan_type;
  window_hours = null_window_hours input.window_hours;
  duration_days = input.duration_days;
  price_credit = input.price_credit;
  allowed_models = input.models;
  rpm = input.rpm;
  visible = input.visible;
}

-- `PackagesRepo.Update`
unfoldable pub edit : Env → Db → String → CreatePackageInput → Db × Result Package
edit env db pid input =
    if env.fails (update_package pid)
      || exists_row (λ p. has_package_id pid p && not (package_valid (edit_package input p)))
          db.packages
    then (db, err (wrap sql_failure))
    else (let db' = record db {
      packages = update_where (has_package_id pid) (edit_package input) db.packages;
    } in
        (db', package_by_id env db' pid))

-- `PackagesRepo.Delete`; a key or an order that names the package stops it (foreign keys).
unfoldable pub remove_package : Env → Db → String → Db × Result (Unit {0})
remove_package env db pid =
    if env.fails (delete_package pid)
      || (exists_row (has_package_id pid) db.packages
          && (exists_row (λ k. str_eq k.package_id pid) db.keys
              || exists_row (λ o. str_eq o.package_id pid) db.orders))
    then (db, err (wrap sql_failure))
    else (
      record db { packages = delete_where (has_package_id pid) db.packages },
      require_one_row (exists_row (has_package_id pid) db.packages),
    )

abbrev pub new_order : Env → String → String → String → String → ℤ → String → Order
new_order env uid pid kid kind price status = record {
  id = env.new_id "ord";
  user_id = uid;
  package_id = pid;
  key_id = null_if_empty kid;
  kind = kind;
  price_credit = price;
  status = status;
  created_at = env.now;
}

-- `OrdersRepo.Create`, with the foreign keys and CHECKs of orders.
unfoldable pub create_order :
    Env → Db → String → String → String → String → ℤ → String → Db × Result Order
create_order env db uid pid kid kind price status =
    let o = new_order env uid pid kid kind price status in
    if env.fails (insert_order o.id)
      || exists_row (λ q. str_eq q.id o.id) db.orders
      || not (exists_row (λ u. str_eq u.id uid) db.users)
      || not (exists_row (has_package_id pid) db.packages)
      || not (is_empty (coalesce o.key_id) || exists_row (λ k. str_eq k.id kid) db.keys)
      || not (str_eq kind "new_key" || str_eq kind "renew")
      || not (str_eq status "paid" || str_eq status "failed" || str_eq status "refunded")
    then (db, err (wrap sql_failure))
    else (record db { orders = o ∷ db.orders }, ok o)
