-- ===== src/Management/Catalogue.antt =====
-- internal/plugin/management.go: the packages and the prices.
use manager_key_pro.Base.{Bool, true, Option, none, some, List, String, is_empty, if◌then◌else◌}
use manager_key_pro.Base.Int.{ℤ}
use manager_key_pro.Store.Types.{Db}
use manager_key_pro.Store.Errors.{ok, err, Env}
use manager_key_pro.Store.Packages.{CreatePackageInput, create_package, edit, remove_package}
use manager_key_pro.Billing.Pricing.{Floats, Price, update_price}
use manager_key_pro.Issue.{audit}
use manager_key_pro.Management.{Answer, refused, failed, done, saved_package, lookup_error}

-- `packageBody`
pub record PackageBody : Type 0 where
  pub id : String
  pub name : String
  pub description : String
  pub quota_kind : String
  pub quota_scope : String
  pub quota_amount : ℤ
  pub plan_type : String
  pub window_hours : ℤ
  pub duration_days : ℤ
  pub price_credit : ℤ
  pub models : List String
  pub rpm : ℤ
  pub visible : Option Bool

-- `toInput`: a package is visible unless the body says no.
unfoldable pub to_input : PackageBody → CreatePackageInput
to_input b = record {
  name = b.name;
  description = b.description;
  quota_kind = b.quota_kind;
  quota_scope = b.quota_scope;
  quota_amount = b.quota_amount;
  plan_type = b.plan_type;
  window_hours = b.window_hours;
  duration_days = b.duration_days;
  price_credit = b.price_credit;
  models = b.models;
  rpm = b.rpm;
  visible = elim b.visible [ none ↦ true | some v ↦ v ];
}

-- `mgmtCreatePackage`
unfoldable pub create_package_for : Env → Db → Option PackageBody → Db × Answer
unfolding to_input
create_package_for env db none = (db, refused 400 "invalid body")
create_package_for env db (some body) =
    let (db', r) = create_package env db (to_input body) in
    elim r [
      | err e ↦ (db', failed 400 e)
      | ok p ↦ (audit env db' "admin" "package.create" "" "", saved_package 201 p)
    ]

-- `mgmtUpdatePackage`
unfoldable pub update_package_for : Env → Db → Option PackageBody → Db × Answer
unfolding to_input
update_package_for env db none = (db, refused 400 "invalid body")
update_package_for env db (some body) =
    if is_empty body.id
    then (db, refused 400 "id required")
    else (let (db', r) = edit env db body.id (to_input body) in
        elim r [
          | err e ↦ (db', lookup_error "package not found" e)
          | ok p ↦ (db', saved_package 200 p)
        ])

-- `mgmtDeletePackage`
unfoldable pub delete_package_for : Env → Db → String → Db × Answer
delete_package_for env db pid =
    let (db', r) = remove_package env db pid in
    elim r [ err e ↦ (db', lookup_error "package not found" e) | ok _ ↦ (db', done pid "deleted") ]

module _ (fl : Floats) where
  -- `mgmtPutPricing`: the table of prices beside the database.
  unfoldable pub put_pricing :
      Env → Db → List (Price fl.F) → Option (Price fl.F) → Db × List (Price fl.F) × Answer
  put_pricing env db table none = (db, table, refused 400 "invalid body")
  put_pricing env db table (some p) =
      if is_empty p.model
      then (db, table, refused 400 "model required")
      else (let (table', r) = update_price fl env table p in
          elim r [
            | err e ↦ (db, table', failed 500 e)
            | ok _ ↦ (audit env db "admin" "pricing.update" "" "", table', done p.model "updated")
          ])
