-- ===== src/Portal/Locked.antt =====
-- An account is locked by as many wrong passwords in a row as the portal allows.
use manager_key_pro.Base.{
  ℕ, suc, ◌+◌, ◌<◌, ◌≡◌, refl, sym, subst, ◌∙◌, ap, ◌&&◌, true, false, List, [], ◌∷◌, String,
  trim_space, arith, All, length,
}
use manager_key_pro.Base.Int.{pos, add64, ltb_ℤ, leb_ℤ, wrap64, i64_half, ◌+ℤ◌}
use manager_key_pro.Store.Types.{User}
use manager_key_pro.Store.Errors.{select_user}
use manager_key_pro.Store.Users.{user_by_username}
use manager_key_pro.Store.Users.Accounts.{failed_login, write_failed_login}
use manager_key_pro.Portal.{Config, Portal, Primitives, Visit, refused}
use manager_key_pro.Portal.Auth.{is_locked, handle_login}
use manager_key_pro.Portal.Lockout.{
  failed, locked, Stored, Wrong, login, after_wrong, login-Wrong, after_wrong-Stored,
}

count_up : (n : ℕ) → suc n < i64_half → add64 (pos n) (pos 1) ≡ pos (suc n)
unfolding add64 wrap64 ◌+ℤ◌
count_up n h = ground arith

-- A counter below the limit grows; at the limit the account is locked.
failed_login-counts :
    (visit : Visit) (u : User) (n limit : ℕ)
    → suc n < limit
    → limit < i64_half
    → failed_login visit.env (pos limit) (pos 900000) (failed n u) ≡ (pos (suc n), pos 0)
unfolding failed_login
failed_login-counts visit u n limit h l =
    let sum = count_up n (ground arith) in
    let below : ltb_ℤ (pos 0) (pos limit) && leb_ℤ (pos limit) (pos (suc n)) ≡ false =
      ground arith in
    rw (failed_login, sum, below) refl

failed_login-locks :
    (visit : Visit) (u : User) (n : ℕ)
    → suc n < i64_half
    → failed_login visit.env (pos (suc n)) (pos 900000) (failed n u)
      ≡ (pos 0, add64 visit.env.now (pos 900000))
unfolding failed_login
failed_login-locks visit u n l =
    let sum = count_up n l in
    let reached : ltb_ℤ (pos 0) (pos (suc n)) && leb_ℤ (pos (suc n)) (pos (suc n)) ≡ true =
      ground arith in
    rw (failed_login, sum, reached) refl

-- Logins one after the other, under one name.
unfoldable pub logins : Primitives → Config → String → List (Visit × String) → Portal → Portal
logins pr cfg name [] portal = portal
logins pr cfg name ((visit, password) ∷ attempts) portal =
    logins pr cfg name attempts (login pr cfg visit portal name password).0

abbrev pub AllWrong : Primitives → User → List (Visit × String) → Type 0
AllWrong pr u attempts = All (λ (a : Visit × String). Wrong pr u a.0 a.1) attempts

-- One more wrong password, below the limit.
login-counts :
    (pr : Primitives) (cfg : Config) (visit : Visit) (portal : Portal) (name password : String)
    (u : User) (n limit : ℕ)
    → cfg.login_lock_after ≡ pos limit
    → suc n < limit
    → limit < i64_half
    → Wrong pr u visit password
    → Stored portal name u.id (failed n u)
    → Stored (login pr cfg visit portal name password).0 name u.id (failed (suc n) u)
login-counts pr cfg visit portal name password u n limit c h l attempt stored =
    let seen : Wrong pr (failed n u) visit password = record {
      sound = attempt.sound;
      wrong = attempt.wrong;
    } in
    let same = login-Wrong pr cfg visit portal name password (failed n u) stored seen refl in
    let next =
      ap (λ a. failed_login visit.env a (pos 900000) (failed n u)) c
      ∙ failed_login-counts visit u n limit h l in
    subst (λ p. Stored p name u.id (failed (suc n) u)) (sym same)
      (subst (Stored (after_wrong cfg visit (failed n u) portal) name u.id)
        (ap (λ w. write_failed_login w (failed n u)) next)
        (after_wrong-Stored cfg visit portal name (failed n u) stored))

-- Wrong passwords in a row are counted.
logins-count :
    (pr : Primitives) (cfg : Config) (name : String) (attempts : List (Visit × String))
    (portal : Portal) (u : User) (n limit : ℕ)
    → cfg.login_lock_after ≡ pos limit
    → n + length attempts < limit
    → limit < i64_half
    → AllWrong pr u attempts
    → Stored portal name u.id (failed n u)
    → Stored (logins pr cfg name attempts portal) name u.id (failed (n + length attempts) u)
unfolding logins
logins-count pr cfg name [] portal u n limit c h l all stored =
    subst (λ k. Stored portal name u.id (failed k u)) (omega arith) stored
logins-count pr cfg name ((visit, password) ∷ attempts) portal u n limit c h l all stored =
    let counted =
      login-counts pr cfg visit portal name password u n limit c (omega (arith, h)) l all.0
        stored in
    let portal' = (login pr cfg visit portal name password).0 in
    subst (λ k. Stored (logins pr cfg name attempts portal') name u.id (failed k u)) (omega arith)
      (logins-count pr cfg name attempts portal' u (suc n) limit c (omega (arith, h)) l all.1
        counted)

-- A locked account is refused whatever the password, and nothing is written.
login-locked :
    (pr : Primitives) (cfg : Config) (later : Visit) (portal : Portal) (name guess : String)
    (u : User)
    → Stored portal name u.id u
    → later.env.fails (select_user (trim_space name)) ≡ false
    → is_locked later.env u ≡ true
    → login pr cfg later portal name guess ≡ (portal, (429, refused "account locked"))
unfolding handle_login user_by_username
login-locked pr cfg later portal name guess u stored reads shut =
    let found = stored.by_name in rw (handle_login, user_by_username, reads, found, shut) refl

-- As many wrong passwords in a row as the portal allows, from an account without failed logins on,
-- lock it: at any time before the last of them plus 15 minutes (a sum that int64 holds as a
-- positive number), a login by the account's name is answered with 429 whatever the password, and
-- changes nothing. The database fails no statement of the wrong logins, and not the lookup of the
-- later login.
pub logins-lock :
    (pr : Primitives) (cfg : Config) (name : String) (attempts : List (Visit × String))
    (last later : Visit) (password guess : String) (portal : Portal) (u : User)
    → cfg.login_lock_after ≡ pos (suc (length attempts))
    → suc (length attempts) < i64_half
    → Stored portal name u.id (failed 0 u)
    → AllWrong pr u attempts
    → Wrong pr u last password
    → later.env.fails (select_user (trim_space name)) ≡ false
    → ltb_ℤ (pos 0) (add64 last.env.now (pos 900000)) ≡ true
    → ltb_ℤ later.env.now (add64 last.env.now (pos 900000)) ≡ true
    → let portal' = (login pr cfg last (logins pr cfg name attempts portal) name password).0 in
      login pr cfg later portal' name guess ≡ (portal', (429, refused "account locked"))
logins-lock pr cfg name attempts last later password guess portal u c l stored all attempt reads
      positive early =
    let n = length attempts in
    let before = logins pr cfg name attempts portal in
    let counted : Stored before name u.id (failed n u) =
      subst (λ k. Stored before name u.id (failed k u)) (omega arith)
        (logins-count pr cfg name attempts portal u 0 (suc n) c (omega arith) l all stored) in
    let seen : Wrong pr (failed n u) last password = record {
      sound = attempt.sound;
      wrong = attempt.wrong;
    } in
    let same = login-Wrong pr cfg last before name password (failed n u) counted seen refl in
    let next =
      ap (λ a. failed_login last.env a (pos 900000) (failed n u)) c
      ∙ failed_login-locks last u n l in
    let until = add64 last.env.now (pos 900000) in
    let shut : Stored (login pr cfg last before name password).0 name u.id (locked until u) =
      subst (λ p. Stored p name u.id (locked until u)) (sym same)
        (subst (Stored (after_wrong cfg last (failed n u) before) name u.id)
          (ap (λ w. write_failed_login w (failed n u)) next)
          (after_wrong-Stored cfg last before name (failed n u) counted)) in
    login-locked pr cfg later _ name guess (locked until u) shut reads
      (ground (arith, positive, early))
