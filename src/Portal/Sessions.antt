-- ===== src/Portal/Sessions.antt =====
-- internal/portal/server.go: the sessions of the portal.
use manager_key_pro.Base.{
  Bool, Option, none, some, List, ◌∷◌, String, is_empty, str_eq, has_prefix, if◌then◌else◌,
  select_first, delete_where,
}
use manager_key_pro.Base.Int.{ℤ, pos, ◌+ℤ◌, mul64, ltb_ℤ}
use manager_key_pro.Base.Hex.{hex_encode}
use manager_key_pro.Portal.{
  Config, Session, Portal, Primitives, Visit, HttpRequest, Reply, done, not_authenticated,
}
use manager_key_pro.Plugin.Request.{trim_prefix}

abbrev pub is_token : String → String × Session → Bool
is_token h entry = str_eq entry.0 h

-- `s.sessions[h]`
unfoldable pub find_session : String → List (String × Session) → Option Session
find_session h sessions = elim (select_first (is_token h) sessions) [
  | none ↦ none
  | some (_, s) ↦ some s
]

-- `delete(s.sessions, h)`
unfoldable pub drop_session : String → List (String × Session) → List (String × Session)
drop_session h sessions = delete_where (is_token h) sessions

-- `time.Duration(days) * 24 * time.Hour`
abbrev pub lifetime : Config → ℤ
lifetime cfg = mul64 (mul64 cfg.session_ttl_days (pos 24)) (pos 3600000000000)

abbrev pub new_session : Config → Visit → String → String → Session
new_session cfg visit h uid = record {
  token_hash = h;
  user_id = uid;
  expires_at = visit.clock +ℤ lifetime cfg;
}

-- `createSession`: the new token.
unfoldable pub create_session : Primitives → Config → Visit → Portal → String → Portal × String
unfolding drop_session
create_session pr cfg visit portal uid =
    let token = hex_encode visit.token_bytes in
    let h = pr.cipher.sha256_hex token in
    (
      record portal {
        sessions = (h, new_session cfg visit h uid) ∷ drop_session h portal.sessions;
      },
      token,
    )

-- `extractToken`
unfoldable pub extract_token : HttpRequest → String
unfolding trim_prefix
extract_token req =
    if has_prefix req.authorization "Bearer "
    then trim_prefix req.authorization "Bearer "
    else elim req.session_cookie [ none ↦ "" | some value ↦ value ]

-- `getSession`: a session that has run out is dropped.
unfoldable pub get_session : Primitives → Visit → Portal → HttpRequest → Portal × Option Session
unfolding find_session drop_session
get_session pr visit portal req =
    let token = extract_token req in
    let h = pr.cipher.sha256_hex token in
    if is_empty token then (portal, none) else (elim (find_session h portal.sessions) [
      | none ↦ (portal, none)
      | some sess ↦
          if ltb_ℤ sess.expires_at visit.clock
          then (record portal { sessions = drop_session h portal.sessions }, none)
          else (portal, some sess)
    ])

-- `handleLogout`: the map's keys are hashes, and the entry deleted is that of the token.
unfoldable pub handle_logout : Portal → HttpRequest → Portal × Reply
unfolding drop_session
handle_logout portal req =
    let token = extract_token req in
    if is_empty token
    then (portal, (200, done "logged out"))
    else (record portal { sessions = drop_session token portal.sessions }, (200, done "logged out"))

-- The start of every handler behind a session: 401 without one.
unfoldable pub with_session :
    Primitives → Visit → Portal → HttpRequest → (Portal → Session → Portal × Reply) → Portal × Reply
unfolding get_session
with_session pr visit portal req handle =
    let (portal', got) = get_session pr visit portal req in
    elim got [ none ↦ (portal', not_authenticated) | some sess ↦ handle portal' sess ]
