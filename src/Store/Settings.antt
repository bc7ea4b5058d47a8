-- ===== src/Store/Settings.antt =====
-- internal/store/settings_store.go: the settings table, read as texts and numbers.
pub mod Lookup
use Prim.Native.Char.{Char, code}
use Prim.Native.Nat.{◌-◌, ◌*◌, ◌+◌}
use manager_key_pro.Base.{
  ℕ, Bool, true, false, ◌&&◌, Option, none, some, List, [], ◌∷◌, String, str_eq, is_empty,
  trim_space, if◌then◌else◌, select_first, exists_row, update_where, leb, ltb, ◌==◌,
}
use manager_key_pro.Base.Int.{ℤ, pos, sub_ℕ, i64_half, show_int}
use manager_key_pro.Store.Types.{Db}
use manager_key_pro.Store.Errors.{
  sql_failure, wrap, Result, ok, err, Env, select_setting, insert_setting, begin_tx, commit_tx,
}

abbrev pub has_setting : String → String × String → Bool
has_setting key row = str_eq row.0 key

-- `Get`: "" where the row or the query fails.
unfoldable pub get_setting : Env → Db → String → String
get_setting env db key =
    if env.fails (select_setting key)
    then ""
    else (elim (select_first (has_setting key) db.settings) [ none ↦ "" | some (_, v) ↦ v ])

-- The number that decimal digits stand for; `none` where the text has another character or no digit.
parse_digits : ℕ → String → Option ℕ
parse_digits acc String.[] = some acc
parse_digits acc (String.◌∷◌ c s) =
    let rest = parse_digits (acc * 10 + (code c - 48)) s in
    if leb 48 (code c) && leb (code c) 57 then rest else none

digits_of : String → Option ℕ
digits_of s = if is_empty s then none else parse_digits 0 s

non_negative : Option ℕ → Option ℤ
non_negative none = none
non_negative (some n) = if ltb n i64_half then some (pos n) else none

negated : Option ℕ → Option ℤ
negated none = none
negated (some n) = if leb n i64_half then some (sub_ℕ 0 n) else none

-- `strconv.ParseInt(v, 10, 64)`
unfoldable pub parse_int : String → Option ℤ
unfolding digits_of parse_digits non_negative negated
parse_int String.[] = none
parse_int (String.◌∷◌ c s) =
    if code c == 43
    then non_negative (digits_of s)
    else if code c == 45
    then negated (digits_of s)
    else non_negative (digits_of (String.◌∷◌ c s))

-- `GetInt`
unfoldable pub get_int : Env → Db → String → ℤ → ℤ
unfolding get_setting
get_int env db key def =
    let v = trim_space (get_setting env db key) in
    if is_empty v then def else elim (parse_int v) [ none ↦ def | some n ↦ n ]

-- `GetJSON`; `decode` is json.Unmarshal into the caller's type.
unfoldable pub get_json {ℓ} : {A : Type ℓ} → (String → Option A) → Env → Db → String → Option A
unfolding get_setting
get_json decode env db key =
    let v = trim_space (get_setting env db key) in if is_empty v then none else decode v

-- `Set`: an upsert.
unfoldable pub set_setting : Env → Db → String → String → Db × Result (Unit {0})
set_setting env db key value =
    if env.fails (insert_setting key) then (db, err (wrap sql_failure)) else (
      record db {
        settings =
            if exists_row (has_setting key) db.settings
            then update_where (has_setting key) (λ r. (r.0, value)) db.settings
            else (key, value) ∷ db.settings;
      },
      ok tt,
    )

-- `SetInt`
unfoldable pub set_int : Env → Db → String → ℤ → Db × Result (Unit {0})
unfolding set_setting
set_int env db key v = set_setting env db key (show_int v)

-- The defaults of `InitDefaults`.
abbrev pub default_settings : List (String × String)
default_settings =
    ("fx_mode", "manual")
    ∷ ("vnd_per_usd", "25000")
    ∷ ("referral_mode", "percent")
    ∷ ("referral_tiers", "[10,3,1]")
    ∷ ("referral_fixed_credit", "1000000")
    ∷ ("referral_qualify_recharge", "10000000")
    ∷ ("log_mode_global", "standard")
    ∷ ("full_log_retention_hours", "24")
    ∷ ("backup_dir", "")
    ∷ ("backup_warn_days", "7")
    ∷ []

-- `INSERT OR IGNORE` of each default, in the order of the range over the map.
unfoldable pub insert_missing :
    List (String × String) → List (String × String) → List (String × String)
insert_missing [] table = table
insert_missing ((k, v) ∷ ds) table =
    insert_missing ds (if exists_row (has_setting k) table then table else (k, v) ∷ table)

-- A default fails.
any_fails : Env → List (String × String) → Bool
any_fails env [] = false
any_fails env ((k, _) ∷ ds) = elim (env.fails (insert_setting k)) [
  | true ↦ true
  | false ↦ any_fails env ds
]

-- `InitDefaults`, in one transaction; `order` is the order of the range over the map of defaults.
unfoldable pub init_defaults : Env → Db → List (String × String) → Db × Result (Unit {0})
unfolding any_fails
init_defaults env db order =
    if env.fails begin_tx
    then (db, err (wrap sql_failure))
    else if any_fails env order
    then (db, err (wrap sql_failure))
    else if env.fails commit_tx
    then (db, err sql_failure)
    else (record db { settings = insert_missing order db.settings }, ok tt)
