-- ===== src/Store/Settings/Lookup.antt =====
-- What the settings read after a write.
use manager_key_pro.Base.{
  ◌≡◌, refl, true, false, some, List, [], ◌∷◌, String, str_eq, str_eq-eq, str_eq_refl, eq_iff,
  subst, Bool-cases, arith, inl, inr, select_first, exists_row, update_where, if◌then◌else◌,
}
use manager_key_pro.Store.Types.{Db}
use manager_key_pro.Store.Errors.{Env, insert_setting, select_setting}
use manager_key_pro.Store.Settings.{
  has_setting, get_setting, set_setting, insert_missing, init_defaults,
}

update_other :
    (key value i : String) (table : List (String × String))
    → str_eq key i ≡ false
    → select_first (has_setting i) (update_where (has_setting key) (λ r. (r.0, value)) table)
      ≡ select_first (has_setting i) table
unfolding select_first update_where
update_other key value i [] other = refl
update_other key value i ((k, v) ∷ table) other =
    ground (arith, eq_iff k key, eq_iff k i, eq_iff key i, update_other key value i table other)

update_known :
    (key value : String) (table : List (String × String))
    → exists_row (has_setting key) table ≡ true
    → select_first (has_setting key) (update_where (has_setting key) (λ r. (r.0, value)) table)
      ≡ some (key, value)
unfolding select_first update_where exists_row
update_known key value [] known = absurd (ground arith)
update_known key value ((k, v) ∷ table) known =
    ground (arith, eq_iff k key, update_known key value table)

upsert_self :
    (key value : String) (table : List (String × String))
    → select_first (has_setting key) (
        if exists_row (has_setting key) table
        then update_where (has_setting key) (λ r. (r.0, value)) table
        else (key, value) ∷ table)
      ≡ (if str_eq key key then some (key, value) else select_first (has_setting key) table)
unfolding select_first
upsert_self key value table = ground (arith, str_eq_refl key, update_known key value table)

upsert_other :
    (key value i : String) (table : List (String × String))
    → str_eq key i ≡ false
    → select_first (has_setting i) (
        if exists_row (has_setting key) table
        then update_where (has_setting key) (λ r. (r.0, value)) table
        else (key, value) ∷ table)
      ≡ (if str_eq key i then some (i, value) else select_first (has_setting i) table)
unfolding select_first
upsert_other key value i table other = ground (arith, other, update_other key value i table other)

-- The upsert of a table.
upsert_lookup :
    (key value i : String) (table : List (String × String))
    → select_first (has_setting i) (
        if exists_row (has_setting key) table
        then update_where (has_setting key) (λ r. (r.0, value)) table
        else (key, value) ∷ table)
      ≡ (if str_eq key i then some (i, value) else select_first (has_setting i) table)
upsert_lookup key value i table = elim (Bool-cases (str_eq key i)) [
  | inl same ↦
      subst
        (λ j.
          select_first (has_setting j) (
            if exists_row (has_setting key) table
            then update_where (has_setting key) (λ r. (r.0, value)) table
            else (key, value) ∷ table)
          ≡ (if str_eq key j then some (j, value) else select_first (has_setting j) table))
        (str_eq-eq key i same) (upsert_self key value table)
  | inr other ↦ upsert_other key value i table other
]

-- Where the two statements succeed, Get after Set returns the new value for the setting and what it
-- returned before for every other one.
pub get_setting-set_setting :
    (env : Env) (db : Db) (key value i : String)
    → env.fails (insert_setting key) ≡ false
    → env.fails (select_setting i) ≡ false
    → get_setting env (set_setting env db key value).0 i
      ≡ (if str_eq key i then value else get_setting env db i)
unfolding get_setting set_setting
get_setting-set_setting env db key value i writes reads =
    ground (arith, upsert_lookup key value i db.settings)

kept_setting :
    (order table : List (String × String)) (i : String)
    → exists_row (has_setting i) table ≡ true
    → select_first (has_setting i) (insert_missing order table) ≡ select_first (has_setting i) table
unfolding insert_missing select_first exists_row
kept_setting [] table i known = refl
kept_setting ((k, v) ∷ order) table i known =
    ground (arith, eq_iff k i, kept_setting order table i, kept_setting order ((k, v) ∷ table) i)

-- InitDefaults never changes a setting that is there, in whatever order it meets the defaults.
pub init_defaults-keeps :
    (env : Env) (db : Db) (order : List (String × String)) (i : String)
    → exists_row (has_setting i) db.settings ≡ true
    → get_setting env (init_defaults env db order).0 i ≡ get_setting env db i
unfolding init_defaults get_setting
init_defaults-keeps env db order i known = ground (arith, kept_setting order db.settings i known)
