-- ===== src/Tests/Catalogue.antt =====
-- Concrete runs of the keys, the settings, the prices and the scheduler.
use manager_key_pro.Base.{
  ◌≡◌, refl, true, false, [], ◌∷◌, arith, str_eq, select_first, exists_row, if◌then◌else◌,
  trim_space,
}
use manager_key_pro.Base.Int.{pos, add64, wrap64, ◌+ℤ◌}
use manager_key_pro.Store.Errors.{ok, null_if_empty}
use manager_key_pro.Store.Keys.{key_by_hash, is_active, key_by_id}
use manager_key_pro.Store.Keys.Create.{create_key, CreateKeyInput, key_conflict, new_key}
use manager_key_pro.Store.NewKeys.{create_key-found}
use manager_key_pro.Store.Settings.{
  get_setting, set_setting, init_defaults, default_settings, has_setting,
}
use manager_key_pro.Store.Settings.Lookup.{get_setting-set_setting, init_defaults-keeps}
use manager_key_pro.Billing.Pricing.{update_price, Pricing}
use manager_key_pro.Scheduler.Bindings.{set_bindings}
use manager_key_pro.Scheduler.Accepted.{set_bindings-accepted}
use manager_key_pro.Scheduler.Replace.{shares_total, Replaced, set_bindings-Replaced}
use manager_key_pro.Scheduler.Pick.{pick_eligible, picked, Cursors}
use manager_key_pro.Scheduler.Weights.{weighted, pick_eligible-weighted}
use manager_key_pro.Tests.Setup.{env, key, floats, binding, db, price}

abbrev input : CreateKeyInput
input = record {
  user_id = "u1";
  key_hash = "hash of sk-2";
  key_cipher = [];
  key_nonce = [];
  prefix = "sk-2";
  name = "second";
  quota_kind = "token";
  quota_scope = "day";
  quota_amount = pos 50;
  plan_type = "";
  window_hours = pos 0;
  expires_at = pos 0;
  package_id = "";
  allowed_models = [];
  allowed_providers = [];
  ip_allowlist = [];
  rpm = pos 0;
}

made : (create_key env db input).1 ≡ ok (new_key env input)
unfolding create_key exists_row null_if_empty trim_space key_by_id select_first
made = refl

create_key-found_example :
    let db' = (create_key env db input).0 in
    (key_by_hash env db' "hash of sk-2" ≡ ok (new_key env input))
    × (is_active (new_key env input) ≡ true)
    × ((new_key env input).quota_used ≡ pos 0)
    × (db'.keys ≡ new_key env input ∷ db.keys)
    × (exists_row (key_conflict (new_key env input)) db.keys ≡ false)
create_key-found_example = create_key-found env env db input (new_key env input) made refl

get_setting-set_setting_example :
    get_setting env (set_setting env db "referral_mode" "fixed").0 "referral_mode" ≡ (
      if str_eq "referral_mode" "referral_mode"
      then "fixed"
      else get_setting env db "referral_mode")
get_setting-set_setting_example =
    get_setting-set_setting env db "referral_mode" "fixed" "referral_mode" refl refl

mode_set : exists_row (has_setting "referral_tiers") db.settings ≡ true
unfolding exists_row
mode_set = refl

init_defaults-keeps_example :
    get_setting env (init_defaults env db default_settings).0 "referral_tiers"
    ≡ get_setting env db "referral_tiers"
init_defaults-keeps_example = init_defaults-keeps env db default_settings "referral_tiers" mode_set

abbrev repriced : Pricing floats
repriced = record { table = (update_price floats env [] price).0; range = [] }

-- Two accounts of shares 70 and 30 in place of none.
set_bindings-Replaced_example :
    Replaced env db (pos 2) "k1" (binding "k1" "a" (pos 70) ∷ binding "k1" "b" (pos 30) ∷ []) (
      set_bindings env db (pos 2) "k1" (binding "k1" "a" (pos 70) ∷ binding "k1" "b" (pos 30) ∷ []))
set_bindings-Replaced_example =
    set_bindings-Replaced env db (pos 2) "k1"
      (binding "k1" "a" (pos 70) ∷ binding "k1" "b" (pos 30) ∷ [])

set_bindings-accepted_example :
    (set_bindings env db
      (pos 2)
      "k1"
      (binding "k1" "a" (pos 70) ∷ binding "k1" "b" (pos 30) ∷ [])).1
    ≡ ok tt
unfolding key_by_id select_first trim_space shares_total add64 wrap64 ◌+ℤ◌
set_bindings-accepted_example =
    set_bindings-accepted env db (pos 2) "k1"
      (binding "k1" "a" (pos 70) ∷ binding "k1" "b" (pos 30) ∷ []) key (λ s. refl) refl
      ((refl, refl, refl), ((refl, refl, refl), tt)) refl ((refl, tt), (tt, tt))

-- The cursor 185 falls on the slot 85, in the second account's stretch.
abbrev cursors : Cursors
cursors i = pos 185

pick_eligible-weighted_example :
    (pick_eligible cursors "k1" (weighted (("a", 70) ∷ ("b", 30) ∷ []))).1 ≡ picked "b"
pick_eligible-weighted_example =
    pick_eligible-weighted cursors "k1" 185 ("a", 70) ("b", 30) [] (("a", 70) ∷ []) "b" 30 [] refl
      refl (ground arith) (ground arith) (ground arith)
