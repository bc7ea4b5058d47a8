-- ===== src/Policy.antt =====
-- internal/policy/policy.go: the per-key restrictions.
pub mod Window
use manager_key_pro.Base.{
  ℕ, ◌<◌, ◌≤◌, Bool, true, false, not, ◌&&◌, ◌||◌, List, [], ◌∷◌, ◌++◌, String, str_eq, is_empty,
  ◌+++◌, to_lower, trim_space, has_prefix, has_suffix, trim_suffix, if◌then◌else◌, length,
}
use manager_key_pro.Base.Int.{ℤ, pos, ◌+ℤ◌, add64, sub64, div64, ltb_ℤ, leb_ℤ}
use manager_key_pro.Store.Types.{Key, User}

-- `Decision`
pub record Decision : Type 0 where
  pub allowed : Bool
  pub status : ℕ
  pub code : String
  pub message : String
  pub retry_after_sec : ℤ

-- `allow`
unfoldable pub allow : Decision
allow = record { allowed = true; status = 0; code = ""; message = ""; retry_after_sec = pos 0 }

-- `deny`
unfoldable pub deny : ℕ → String → String → Decision
deny status code msg = record {
  allowed = false;
  status = status;
  code = code;
  message = msg;
  retry_after_sec = pos 0;
}

-- One entry of an allowlist, both texts trimmed and in lower case.
unfoldable pub entry_matches : String → String → Bool
entry_matches entry value =
    not (is_empty entry)
    && (if has_suffix entry "*"
        then has_prefix value (trim_suffix entry "*")
        else str_eq entry value)

abbrev pub clean : String → String
clean s = to_lower (trim_space s)

-- The loop of `matchList`.
unfoldable pub match_entries : List String → String → Bool
match_entries [] value = false
match_entries (e ∷ es) value = entry_matches (clean e) value || match_entries es value

-- `matchList`
unfoldable pub match_list : List String → String → Bool
match_list list value = if is_empty value then false else match_entries list (clean value)

-- `firstNonEmpty` on two texts.
abbrev first_non_empty : String → String → String
first_non_empty a b = if is_empty a then b else a

abbrev pub unrestricted : List String → Bool
unrestricted [] = true
unrestricted (_ ∷ _) = false

-- `CheckModel`
unfoldable pub check_model : Key → String → String → Decision
unfolding allow deny
check_model key requested resolved =
    if unrestricted key.allowed_models
    then allow
    else if match_list key.allowed_models requested || match_list key.allowed_models resolved
    then allow
    else deny 403 "model_not_allowed"
        ("model " +++ first_non_empty requested resolved +++ " is not allowed for this key")

-- `CheckProvider`
unfoldable pub check_provider : Key → String → Decision
unfolding allow deny
check_provider key provider =
    if unrestricted key.allowed_providers || is_empty provider
    then allow
    else if match_list key.allowed_providers provider
    then allow
    else deny 403 "provider_not_allowed"
        ("provider " +++ provider +++ " is not allowed for this key")

-- `CheckIP`
unfoldable pub check_ip : Key → String → Decision
unfolding allow deny
check_ip key ip =
    if unrestricted key.ip_allowlist
    then allow
    else if not (is_empty ip) && match_list key.ip_allowlist ip
    then allow
    else deny 403 "ip_not_allowed" "client IP is not allowed for this key"

-- `CheckUserStatus`
unfoldable pub check_user_status : User → Decision
unfolding allow deny
check_user_status u =
    if str_eq u.status "active"
    then allow
    else if str_eq u.status "pending"
    then deny 403 "user_disabled" "account is awaiting approval"
    else if str_eq u.status "disabled"
    then deny 403 "user_disabled" "account is disabled"
    else if str_eq u.status "banned"
    then deny 403 "user_disabled" "account is banned"
    else deny 403 "user_disabled" ("account status is " +++ u.status)

-- `rpmBucket.seen`: the times of the admitted requests of each key, oldest first.
abbrev pub Seen : Type 0
Seen = String → List ℤ

-- The loop that keeps the hits in the window.
unfoldable pub kept : ℤ → List ℤ → List ℤ
kept start [] = []
kept start (ts ∷ hits) = let rest = kept start hits in if leb_ℤ start ts then ts ∷ rest else rest

-- The hint in seconds: the time until the oldest hit leaves the window.
unfoldable pub retry_after : ℤ → ℤ → List ℤ → ℤ
retry_after now start [] = pos 1
retry_after now start (earliest ∷ hits) =
    if ltb_ℤ start earliest
    then add64 (div64 (sub64 (add64 earliest (pos 60000)) now) 1000) (pos 1)
    else pos 1

-- The window's first millisecond.
abbrev pub window_start : ℤ → ℤ
window_start now = sub64 now (pos 60000)

-- What the limiter makes of the hits of one key: the new hits and the decision.
unfoldable pub limit : ℤ → ℤ → List ℤ → List ℤ × Decision
unfolding kept allow
limit rpm now hits =
    let start = window_start now in
    let ks = kept start hits in
    if leb_ℤ rpm (pos (length ks))
    then (
      ks,
      record {
        allowed = false;
        status = 429;
        code = "rate_limit_exceeded";
        message = "RPM limit exceeded for this key";
        retry_after_sec = retry_after now start ks;
      },
    )
    else (ks ++ (now ∷ []), allow)

-- `CheckRPM`
unfoldable pub check_rpm : ℤ → Seen → Key → Seen × Decision
unfolding limit
check_rpm now seen key =
    if leb_ℤ key.rpm (pos 0)
    then (seen, allow)
    else (let (hits, d) = limit key.rpm now (seen key.id) in
        ((λ i. if str_eq i key.id then hits else seen i), d))
