-- ===== src/Management/Config.antt =====
-- internal/plugin/management.go: the settings that the administration changes.
use manager_key_pro.Base.{
  Bool, true, false, not, ◌&&◌, Option, none, some, List, [], ◌∷◌, String, is_empty, str_eq,
  if◌then◌else◌, exists_row,
}
use manager_key_pro.Base.Int.{ℤ, pos, ltb_ℤ}
use manager_key_pro.Store.Types.{Db}
use manager_key_pro.Store.Errors.{sql_failure, wrap, ok, err, Env, select_rows}
use manager_key_pro.Store.Keys.{set_log_mode}
use manager_key_pro.Store.Settings.{
  set_setting, set_int, get_setting, has_setting, default_settings,
}
use manager_key_pro.Issue.{audit}
use manager_key_pro.Management.{Answer, refused, failed, shown_settings, and_then, attempt}

-- A setting that is written where a test of its new value passes.
unfoldable pub set_if : Bool → (Db → Db × Option Answer) → Db → Db × Option Answer
set_if true f db = f db
set_if false f db = (db, none)

-- A setting with two values.
unfoldable pub set_choice :
    Env → String → String → String → String → String → Db → Db × Option Answer
set_choice env key a b text value db =
    if not (str_eq value a) && not (str_eq value b)
    then (db, some (refused 400 text))
    else attempt 500 (set_setting env db key value)

-- The answer at the end of a handler.
unfoldable pub finish : Db × Option Answer → (Db → Answer) → Db × Answer
finish (db, none) show = (db, show db)
finish (db, some a) show = (db, a)

-- `mgmtGetFX`
unfoldable pub get_fx : Env → Db → Answer
get_fx env db = shown_settings (
    ("fx_mode", get_setting env db "fx_mode")
    ∷ ("vnd_per_usd", get_setting env db "vnd_per_usd")
    ∷ [])

-- `mgmtPutFX`: the mode and the rate.
unfoldable pub put_fx : Env → Db → Option (String × String) → Db × Answer
unfolding set_if set_choice finish and_then attempt get_fx
put_fx env db none = (db, refused 400 "invalid body")
put_fx env db (some (mode, rate)) =
    let s1 =
      set_if (not (is_empty mode))
        (set_choice env "fx_mode" "manual" "auto" "fx_mode must be manual or auto" mode) db in
    let s2 =
      and_then s1
        (set_if (not (is_empty rate)) (λ d. attempt 500 (set_setting env d "vnd_per_usd" rate))) in
    finish s2 (get_fx env)

-- The body of `mgmtPutReferralConfig`; `tiers` is the JSON of the list, or none for an empty list.
pub record ReferralBody : Type 0 where
  pub mode : String
  pub tiers : Option String
  pub fixed : ℤ
  pub qualify : ℤ

-- `mgmtGetReferralConfig`, with the settings as they are stored.
unfoldable pub get_referral : Env → Db → Answer
get_referral env db = shown_settings (
    ("mode", get_setting env db "referral_mode")
    ∷ ("tiers", get_setting env db "referral_tiers")
    ∷ ("fixed_credit", get_setting env db "referral_fixed_credit")
    ∷ ("qualify", get_setting env db "referral_qualify_recharge")
    ∷ [])

unfoldable pub set_positive : Env → String → ℤ → Db → Db × Option Answer
set_positive env key n db =
    if ltb_ℤ (pos 0) n then attempt 500 (set_int env db key n) else (db, none)

-- `mgmtPutReferralConfig`
unfoldable pub put_referral : Env → Db → Option ReferralBody → Db × Answer
unfolding set_if set_choice finish and_then attempt set_positive get_referral
put_referral env db none = (db, refused 400 "invalid body")
put_referral env db (some body) =
    let s1 =
      set_if (not (is_empty body.mode))
        (set_choice env "referral_mode" "percent" "fixed" "mode must be percent or fixed" body.mode)
        db in
    let s2 = and_then s1 (λ d. elim body.tiers [
      | none ↦ (d, none)
      | some t ↦ attempt 500 (set_setting env d "referral_tiers" t)
    ]) in
    let s3 = and_then s2 (set_positive env "referral_fixed_credit" body.fixed) in
    let s4 = and_then s3 (set_positive env "referral_qualify_recharge" body.qualify) in
    finish s4 (get_referral env)

-- The body of `mgmtPutLogsConfig`.
pub record LogsBody : Type 0 where
  pub mode : String
  pub full_retention : ℤ
  pub key_id : String
  pub key_mode : String

unfoldable pub key_mode_step : Env → LogsBody → Db → Db × Option Answer
key_mode_step env body db =
    let (db', r) = set_log_mode env db body.key_id body.key_mode in
    elim r [
      | err e ↦ (db', some (failed 400 e))
      | ok _ ↦ (audit env db' "admin" "log.mode" body.key_id "", none)
    ]

unfoldable pub global_mode_step : Env → String → Db → Db × Option Answer
global_mode_step env mode db =
    if not (str_eq mode "full") && not (str_eq mode "standard") && not (str_eq mode "error_only")
    then (db, some (refused 400 "invalid mode"))
    else (let (db', r) = set_setting env db "log_mode_global" mode in
        elim r [
          | err e ↦ (db', some (failed 500 e))
          | ok _ ↦ (
            if str_eq mode "full" then audit env db' "admin" "log.mode.global" "" "" else db',
            none,
          )
        ])

-- `mgmtPutLogsConfig`
unfoldable pub put_logs : Env → Db → Option LogsBody → Db × Answer
unfolding set_if finish and_then key_mode_step global_mode_step set_positive
put_logs env db none = (db, refused 400 "invalid body")
put_logs env db (some body) =
    let s1 = set_if (not (is_empty body.key_id)) (key_mode_step env body) db in
    let s2 = and_then s1 (set_if (not (is_empty body.mode)) (global_mode_step env body.mode)) in
    let s3 = and_then s2 (set_positive env "full_log_retention_hours" body.full_retention) in
    finish s3 (λ d. shown_settings (
      ("global_mode", get_setting env d "log_mode_global")
      ∷ ("full_retention_hours", get_setting env d "full_log_retention_hours")
      ∷ []))

-- The settings that `mgmtPutSettings` may write: those that have a default.
unfoldable pub is_allowed : String → Bool
is_allowed key = exists_row (has_setting key) default_settings

-- The loop over the body, in the order of the range over the map, up to the first error.
unfoldable pub put_allowed : Env → List (String × String) → Db → Db × Option Answer
unfolding is_allowed attempt
put_allowed env [] db = (db, none)
put_allowed env ((k, v) ∷ kvs) db = elim (is_allowed k) [
  | false ↦ put_allowed env kvs db
  | true ↦
      let (db', r) = set_setting env db k v in
      elim r [ ok _ ↦ put_allowed env kvs db' | err e ↦ (db', some (failed 500 e)) ]
]

-- `mgmtGetSettings`
unfoldable pub get_settings : Env → Db → Answer
get_settings env db =
    if env.fails (select_rows "settings" "")
    then failed 500 (wrap sql_failure)
    else shown_settings db.settings

-- `mgmtPutSettings`
unfoldable pub put_settings : Env → Db → Option (List (String × String)) → Db × Answer
unfolding put_allowed get_settings
put_settings env db none = (db, refused 400 "invalid body")
put_settings env db (some kvs) =
    let (db', answer) = put_allowed env kvs db in
    elim answer [
      | some a ↦ (db', a)
      | none ↦
          let db'' = audit env db' "admin" "settings.update" "" "" in (db'', get_settings env db'')
    ]
