-- ===== src/Plugin/Request.antt =====
-- hooks.go: what is read from a request's headers and query.
use Prim.Native.String.{len, slice}
use manager_key_pro.Base.{
  ◌||◌, List, [], ◌∷◌, String, str_eq, is_empty, trim_space, has_prefix, equal_fold, split,
  if◌then◌else◌,
}

-- A header or query map, in the order of the range over it.
abbrev pub Headers : Type 0
Headers = List (String × List String)

-- The loop of `getHeader` and `getQuery`.
unfoldable pub get_header : Headers → String → String
get_header [] name = ""
get_header ((k, vs) ∷ hs) name =
    let rest = get_header hs name in
    elim vs [ [] ↦ rest | v ∷ _ ↦ if equal_fold k name then trim_space v else rest ]

-- `strings.TrimPrefix`
unfoldable pub trim_prefix : String → String → String
trim_prefix s p = if has_prefix s p then slice s (len p) (len s) else s

-- The key in an Authorization header: what follows "Bearer ".
unfoldable pub bearer : String → String
unfolding trim_prefix
bearer auth =
    let val = trim_space (trim_prefix auth "Bearer ") in
    if is_empty auth || is_empty val || str_eq val auth then "" else val

abbrev or_else : String → String → String
or_else a b = if is_empty a then b else a

-- `extractKey`
unfoldable pub extract_key : Headers → Headers → String
unfolding bearer get_header
extract_key headers query = or_else (bearer (get_header headers "Authorization")) (
    or_else (get_header headers "X-Goog-Api-Key") (
      or_else (get_header headers "X-Api-Key")
        (or_else (get_header query "key") (get_header query "auth_token"))))

-- The first address of a list, trimmed.
first_address : List String → String
first_address [] = ""
first_address (p ∷ _) = trim_space p

-- `clientIP`
unfoldable pub client_ip : Headers → String
unfolding get_header first_address
client_ip headers =
    let v =
      or_else (get_header headers "X-Forwarded-For")
        (or_else (get_header headers "X-Real-Ip") (get_header headers "Cf-Connecting-Ip")) in
    if is_empty v then "" else first_address (split v b',')
