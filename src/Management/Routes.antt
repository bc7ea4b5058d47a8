-- ===== src/Management/Routes.antt =====
-- internal/plugin/management.go: the dispatch of the administration's requests.
use manager_key_pro.Base.{
  Bool, ◌&&◌, Option, none, some, List, [], ◌∷◌, String, is_empty, str_eq, to_upper, has_prefix,
  if◌then◌else◌, select_first,
}
use manager_key_pro.Plugin.Request.{trim_prefix}

-- The handlers.
pub data Route : Type 0 where
  list_keys_route create_key_route get_key_route delete_key_route reveal_key_route : Route
  renew_key_route switch_quota_route update_key_route list_bindings_route : Route
  set_bindings_route list_users_route create_user_route get_user_route recharge_route : Route
  user_ledger_route set_user_status_route update_user_route reset_password_route : Route
  list_packages_route create_package_route update_package_route delete_package_route : Route
  list_orders_route list_usage_route stats_route list_pricing_route put_pricing_route : Route
  get_fx_route put_fx_route get_referral_config_route put_referral_config_route : Route
  referral_report_route list_logs_route log_detail_route put_logs_config_route : Route
  list_audit_route backup_route restore_route get_settings_route put_settings_route : Route

-- The cases of the switch, in their order.
abbrev pub routes : List ((String × String) × Route)
routes =
    (("GET", "/keys"), list_keys_route)
    ∷ (("POST", "/keys"), create_key_route)
    ∷ (("GET", "/keys/detail"), get_key_route)
    ∷ (("DELETE", "/keys"), delete_key_route)
    ∷ (("POST", "/keys/reveal"), reveal_key_route)
    ∷ (("POST", "/keys/renew"), renew_key_route)
    ∷ (("POST", "/keys/quota"), switch_quota_route)
    ∷ (("POST", "/keys/update"), update_key_route)
    ∷ (("GET", "/keys/bindings"), list_bindings_route)
    ∷ (("POST", "/keys/bindings"), set_bindings_route)
    ∷ (("GET", "/users"), list_users_route)
    ∷ (("POST", "/users"), create_user_route)
    ∷ (("GET", "/users/detail"), get_user_route)
    ∷ (("POST", "/users/recharge"), recharge_route)
    ∷ (("GET", "/users/ledger"), user_ledger_route)
    ∷ (("POST", "/users/status"), set_user_status_route)
    ∷ (("POST", "/users/update"), update_user_route)
    ∷ (("POST", "/users/reset-password"), reset_password_route)
    ∷ (("GET", "/packages"), list_packages_route)
    ∷ (("POST", "/packages"), create_package_route)
    ∷ (("POST", "/packages/update"), update_package_route)
    ∷ (("POST", "/packages/delete"), delete_package_route)
    ∷ (("GET", "/orders"), list_orders_route)
    ∷ (("GET", "/usage"), list_usage_route)
    ∷ (("GET", "/stats"), stats_route)
    ∷ (("GET", "/pricing"), list_pricing_route)
    ∷ (("POST", "/pricing"), put_pricing_route)
    ∷ (("GET", "/fx"), get_fx_route)
    ∷ (("POST", "/fx"), put_fx_route)
    ∷ (("GET", "/referral/config"), get_referral_config_route)
    ∷ (("POST", "/referral/config"), put_referral_config_route)
    ∷ (("GET", "/referral/report"), referral_report_route)
    ∷ (("GET", "/logs"), list_logs_route)
    ∷ (("GET", "/logs/detail"), log_detail_route)
    ∷ (("POST", "/logs/config"), put_logs_config_route)
    ∷ (("GET", "/audit"), list_audit_route)
    ∷ (("GET", "/backup"), backup_route)
    ∷ (("POST", "/restore"), restore_route)
    ∷ (("GET", "/settings"), get_settings_route)
    ∷ (("POST", "/settings"), put_settings_route)
    ∷ []

-- The path without the first of the plugin's prefixes that it has.
abbrev strip_first : List String → String → String
strip_first [] path = path
strip_first (p ∷ ps) path = if has_prefix path p then trim_prefix path p else strip_first ps path

unfoldable pub strip_prefix : String → String
strip_prefix path =
    let rest =
      strip_first
        ("/v0/resource/plugins/manager-key-pro" ∷ "/v0/management/plugins/manager-key-pro"
          ∷ "/plugins/manager-key-pro" ∷ "/manager-key-pro" ∷ [])
        path in
    if is_empty rest then "/" else rest

abbrev pub is_case : String → String → (String × String) × Route → Bool
is_case method path entry = str_eq method entry.0.0 && str_eq path entry.0.1

-- The dispatch of `handleManagement`: none is 404.
unfoldable pub route_of : String → String → Option Route
unfolding strip_prefix
route_of method raw =
    let path = strip_prefix raw in
    elim (select_first (is_case (to_upper method) path) routes) [
      | none ↦ none
      | some (_, r) ↦ some r
    ]

-- The routes that `managementRegister` names, without the prefix that it puts before each path.
abbrev pub registered : List (String × String)
registered =
    ("GET", "/keys")
    ∷ ("POST", "/keys")
    ∷ ("DELETE", "/keys")
    ∷ ("GET", "/keys/detail")
    ∷ ("POST", "/keys/reveal")
    ∷ ("POST", "/keys/renew")
    ∷ ("POST", "/keys/quota")
    ∷ ("POST", "/keys/update")
    ∷ ("GET", "/keys/bindings")
    ∷ ("POST", "/keys/bindings")
    ∷ ("GET", "/users")
    ∷ ("POST", "/users")
    ∷ ("GET", "/users/detail")
    ∷ ("POST", "/users/recharge")
    ∷ ("GET", "/users/ledger")
    ∷ ("POST", "/users/status")
    ∷ ("POST", "/users/update")
    ∷ ("POST", "/users/reset-password")
    ∷ ("GET", "/packages")
    ∷ ("POST", "/packages")
    ∷ ("POST", "/packages/update")
    ∷ ("POST", "/packages/delete")
    ∷ ("GET", "/orders")
    ∷ ("GET", "/usage")
    ∷ ("GET", "/stats")
    ∷ ("GET", "/pricing")
    ∷ ("POST", "/pricing")
    ∷ ("GET", "/fx")
    ∷ ("POST", "/fx")
    ∷ ("GET", "/referral/config")
    ∷ ("POST", "/referral/config")
    ∷ ("GET", "/referral/report")
    ∷ ("GET", "/logs")
    ∷ ("GET", "/logs/detail")
    ∷ ("POST", "/logs/config")
    ∷ ("GET", "/audit")
    ∷ ("GET", "/backup")
    ∷ ("POST", "/restore")
    ∷ ("GET", "/settings")
    ∷ ("POST", "/settings")
    ∷ []

abbrev pub is_registered : String → String → String × String → Bool
is_registered method path entry = str_eq method entry.0 && str_eq path entry.1
