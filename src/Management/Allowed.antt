-- ===== src/Management/Allowed.antt =====
-- The settings that the administration cannot write.
use manager_key_pro.Base.{
  ◌≡◌, refl, sym, ◌∙◌, ap, true, false, some, inl, inr, List, [], ◌∷◌, String, str_eq, str_eq-eq,
  arith, Bool-cases, Option-cases, if◌then◌else◌,
}
use manager_key_pro.Store.Types.{Db}
use manager_key_pro.Store.Errors.{Env, select_setting, insert_setting}
use manager_key_pro.Store.Steps.{Result-cases}
use manager_key_pro.Store.Settings.{get_setting, set_setting}
use manager_key_pro.Store.Settings.Lookup.{get_setting-set_setting}
use manager_key_pro.Issue.{audit}
use manager_key_pro.Management.Config.{is_allowed, put_allowed, put_settings}

-- A write to another setting leaves a setting as it reads.
set_setting-other :
    (env : Env) (db : Db) (key value i : String)
    → str_eq key i ≡ false
    → env.fails (select_setting i) ≡ false
    → get_setting env (set_setting env db key value).0 i ≡ get_setting env db i
unfolding set_setting
set_setting-other env db key value i other reads =
    elim (Bool-cases (env.fails (insert_setting key))) [
      | inl e ↦ rw (set_setting, e) refl
      | inr e ↦
          get_setting-set_setting env db key value i e reads
          ∙ ap (λ b. if b then value else get_setting env db i) other
    ]

true_is_false : true ≡ false → ⊥
true_is_false h = cc

other_setting :
    (k key : String) → is_allowed k ≡ true → is_allowed key ≡ false → str_eq k key ≡ false
other_setting k key open_k shut = elim (Bool-cases (str_eq k key)) [
  | inr e ↦ e
  | inl e ↦ elim (true_is_false (sym open_k ∙ ap is_allowed (str_eq-eq k key e) ∙ shut)) [ ]
]

put_allowed-keeps :
    (env : Env) (key : String) (kvs : List (String × String)) (db : Db)
    → is_allowed key ≡ false
    → env.fails (select_setting key) ≡ false
    → get_setting env (put_allowed env kvs db).0 key ≡ get_setting env db key
unfolding put_allowed
put_allowed-keeps env key [] db h reads = refl
put_allowed-keeps env key ((k, v) ∷ kvs) db h reads = elim (Bool-cases (is_allowed k)) [
  | inr e ↦ rw (put_allowed, e) (put_allowed-keeps env key kvs db h reads)
  | inl e ↦
      let other : str_eq k key ≡ false = other_setting k key e h in
      let kept = set_setting-other env db k v key other reads in
      let db' = (set_setting env db k v).0 in
      elim (Result-cases (set_setting env db k v).1) [
        | inl (x, q) ↦ rw (put_allowed, e, q) kept
        | inr (x, q) ↦ rw (put_allowed, e, q) (put_allowed-keeps env key kvs db' h reads ∙ kept)
      ]
]

audit-settings :
    (env : Env) (db : Db) (actor action kid uid key : String)
    → get_setting env (audit env db actor action kid uid) key ≡ get_setting env db key
unfolding audit get_setting
audit-settings env db actor action kid uid key = ground arith

-- An update of the settings leaves a setting that is not among the allowed names as it was,
-- whatever the body asks for, in whatever order its entries come and whichever statements fail,
-- where the lookup of that setting does not.
pub put_settings-keeps :
    (env : Env) (key : String) (kvs : List (String × String)) (db : Db)
    → is_allowed key ≡ false
    → env.fails (select_setting key) ≡ false
    → get_setting env (put_settings env db (some kvs)).0 key ≡ get_setting env db key
unfolding put_settings
put_settings-keeps env key kvs db h reads =
    let kept = put_allowed-keeps env key kvs db h reads in
    let db' = (put_allowed env kvs db).0 in
    elim (Option-cases (put_allowed env kvs db).1) [
      | inr (a, q) ↦ rw (put_settings, q) kept
      | inl q ↦
          rw (put_settings, q) (audit-settings env db' "admin" "settings.update" "" "" key ∙ kept)
    ]
