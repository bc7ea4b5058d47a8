-- ===== src/Portal/Lifetime.antt =====
-- How long a session of the portal lasts.
use Prim.Native.Char.{Char}
use text.Mathlib.TextPositions.{slice-append_right, starts_with-append, len-append}
use manager_key_pro.Base.{
  if◌then◌else◌, ℕ, ◌≡◌, refl, sym, ◌∙◌, ap, true, false, none, some, inl, inr, List, ◌∷◌, String,
  ◌+++◌, is_empty, str_eq, str_eq-eq, str_eq_refl, select_first, arith, Bool-cases, Option-cases,
  eq_iff, select_first-delete_ne,
}
use manager_key_pro.Base.Int.{◌+ℤ◌, leb_ℤ, ltb_ℤ}
use manager_key_pro.Base.Hex.{hex_encode}
use manager_key_pro.Portal.{Config, Session, Portal, Primitives, Visit, HttpRequest}
use manager_key_pro.Portal.Sessions.{
  is_token, find_session, drop_session, lifetime, new_session, create_session, extract_token,
  get_session, handle_logout,
}
use manager_key_pro.Plugin.Request.{trim_prefix}

cons_is_nil : (c : Char) (s : String) → String.◌∷◌ c s ≡ String.[] → ⊥
cons_is_nil c s h = cc

cons_is_empty : (c : Char) (s : String) → is_empty (String.◌∷◌ c s) ≡ false
cons_is_empty c s = elim (Bool-cases (is_empty (String.◌∷◌ c s))) [
  | inr e ↦ e
  | inl e ↦ elim (cons_is_nil c s (str_eq-eq _ _ e)) [ ]
]

-- A token behind "Bearer " is the token that is read.
pub extract_token-bearer :
    (req : HttpRequest) (token : String)
    → req.authorization ≡ "Bearer " +++ token
    → extract_token req ≡ token
unfolding extract_token trim_prefix
extract_token-bearer req token h =
    let starts = starts_with-append "Bearer " token in
    let rest = slice-append_right "Bearer " token in
    let size = len-append "Bearer " token in rw (extract_token, h, starts, size, rest) refl

-- The answers of getSession.
pub get_session-live :
    (pr : Primitives) (visit : Visit) (portal : Portal) (req : HttpRequest) (s : Session)
    → is_empty (extract_token req) ≡ false
    → find_session (pr.cipher.sha256_hex (extract_token req)) portal.sessions ≡ some s
    → ltb_ℤ s.expires_at visit.clock ≡ false
    → (get_session pr visit portal req).1 ≡ some s
unfolding get_session
get_session-live pr visit portal req s filled found live =
    rw (get_session, filled, found, live) refl

pub get_session-dead :
    (pr : Primitives) (visit : Visit) (portal : Portal) (req : HttpRequest) (s : Session)
    → is_empty (extract_token req) ≡ false
    → find_session (pr.cipher.sha256_hex (extract_token req)) portal.sessions ≡ some s
    → ltb_ℤ s.expires_at visit.clock ≡ true
    → (get_session pr visit portal req).1 ≡ none
unfolding get_session
get_session-dead pr visit portal req s filled found dead =
    rw (get_session, filled, found, dead) refl

pub find_session-put :
    (h : String) (s : Session) (sessions : List (String × Session))
    → find_session h ((h, s) ∷ sessions) ≡ some s
unfolding find_session select_first
find_session-put h s sessions = let hit = str_eq_refl h in rw (find_session, hit) refl

token_is_empty : (b : ℕ) (bs bytes : List ℕ) → bytes ≡ b ∷ bs → is_empty (hex_encode bytes) ≡ false
unfolding hex_encode
token_is_empty b bs bytes h = rw h (cons_is_empty _ _)

-- A request whose Authorization header is "Bearer " and the token of a new session finds that
-- session while the clock is at most the time of its creation plus the configured life, and no
-- session afterwards. The random bytes of the token are at least one.
pub create_session-lifetime :
    (pr : Primitives) (cfg : Config) (visit later : Visit) (portal : Portal) (uid : String)
    (req : HttpRequest) (b : ℕ) (bs : List ℕ)
    → visit.token_bytes ≡ b ∷ bs
    → req.authorization ≡ "Bearer " +++ (create_session pr cfg visit portal uid).1
    → let (portal', token) = create_session pr cfg visit portal uid in
      let s = new_session cfg visit (pr.cipher.sha256_hex token) uid in
      let found = (get_session pr later portal' req).1 in
      found ≡ (if leb_ℤ later.clock (visit.clock +ℤ lifetime cfg) then some s else none)
unfolding create_session
create_session-lifetime pr cfg visit later portal uid req b bs hb ha =
    let token = hex_encode visit.token_bytes in
    let h = pr.cipher.sha256_hex token in
    let s = new_session cfg visit h uid in
    let portal' = (create_session pr cfg visit portal uid).0 in
    let read = extract_token-bearer req token ha in
    let filled = ap is_empty read ∙ token_is_empty b bs visit.token_bytes hb in
    let found =
      ap (λ t. find_session (pr.cipher.sha256_hex t) portal'.sessions) read
      ∙ find_session-put h s (drop_session h portal.sessions) in
    elim (Bool-cases (leb_ℤ later.clock (visit.clock +ℤ lifetime cfg))) [
      | inl live ↦
          get_session-live pr later portal' req s filled found (ground arith)
          ∙ sym (ap (λ b. if b then some s else none) live)
      | inr dead ↦
          get_session-dead pr later portal' req s filled found (ground arith)
          ∙ sym (ap (λ b. if b then some s else none) dead)
    ]

drop_session-other :
    (t h : String) (sessions : List (String × Session))
    → str_eq t h ≡ false
    → find_session h (drop_session t sessions) ≡ find_session h sessions
unfolding find_session drop_session
drop_session-other t h sessions apart =
    let same =
      select_first-delete_ne (is_token t) (is_token h) sessions
        (λ entry hit. ground (arith, eq_iff entry.0 h, eq_iff entry.0 t, eq_iff t h)) in
    rw (find_session, same) refl

-- A logout does not end a session: where the token of the request differs from its own SHA-256
-- text, every request with the token finds after the logout what it would have found without it.
pub handle_logout-keeps :
    (pr : Primitives) (visit : Visit) (portal : Portal) (req : HttpRequest)
    → str_eq (extract_token req) (pr.cipher.sha256_hex (extract_token req)) ≡ false
    → (get_session pr visit (handle_logout portal req).0 req).1
      ≡ (get_session pr visit portal req).1
unfolding handle_logout get_session
handle_logout-keeps pr visit portal req h =
    let token = extract_token req in
    let same = drop_session-other token (pr.cipher.sha256_hex token) portal.sessions h in
    elim (Bool-cases (is_empty token)) [
      | inl e ↦ rw (handle_logout, get_session, e) refl
      | inr e ↦ elim (Option-cases (find_session (pr.cipher.sha256_hex token) portal.sessions)) [
        | inl q ↦ rw (handle_logout, get_session, e, same, q) refl
        | inr (s, q) ↦ elim (Bool-cases (ltb_ℤ s.expires_at visit.clock)) [
          | inl r ↦ rw (handle_logout, get_session, e, same, q, r) refl
          | inr r ↦ rw (handle_logout, get_session, e, same, q, r) refl
        ]
      ]
    ]
