-- ===== src/Portal/Telegram.antt =====
-- internal/portal/portal_extra.go: login and linking by Telegram, and the referral of a new account.
use manager_key_pro.Base.{
  Bool, true, false, not, ◌&&◌, Option, none, some, List, [], ◌∷◌, String, ◌+++◌, is_empty, str_eq,
  equal_fold, if◌then◌else◌, select_first, delete_where, update_where, ◌⊎◌, inl, inr, order_by,
  Ordering, text_compare,
}
use manager_key_pro.Base.Int.{pos, ltb_ℤ, sub64, div64}
use manager_key_pro.Store.Types.{User, Db}
use manager_key_pro.Store.Errors.{
  sql_failure, message, Result, ok, err, is_not_found, Env, select_rows, update_row,
}
use manager_key_pro.Store.Users.{user_by_telegram_id, has_id}
use manager_key_pro.Store.Users.Accounts.{create_user, link_telegram}
use manager_key_pro.Portal.{
  Config, Portal, Primitives, Visit, HttpRequest, Reply, refused, failure, done, internal_error,
}
use manager_key_pro.Portal.Sessions.{with_session}
use manager_key_pro.Portal.Auth.{is_exactly_duplicate, enter}

-- The parameters of the login widget, in the order of the range over the map.
abbrev pub Params : Type 0
Params = List (String × String)

-- `params[name]`
unfoldable pub param : Params → String → String
param params name = elim (select_first (λ entry. str_eq entry.0 name) params) [
  | none ↦ ""
  | some (_, v) ↦ v
]

-- `sort.Strings`
abbrev pub name_before : String × String → String × String → Bool
name_before a b = elim (text_compare a.0 b.0) [ Ordering.lt ↦ true | _ ↦ false ]

-- The lines of the check string.
join_lines : Params → String
join_lines [] = ""
join_lines ((k, v) ∷ []) = k +++ "=" +++ v
join_lines ((k, v) ∷ p ∷ ps) = k +++ "=" +++ v +++ "\n" +++ join_lines (p ∷ ps)

-- The data-check string: every parameter but the hash, by name.
unfoldable pub data_check_string : Params → String
unfolding join_lines
data_check_string params =
    join_lines (order_by name_before (delete_where (λ entry. str_eq entry.0 "hash") params))

-- `verifyTelegramLogin`: the text of the error, or none.
unfoldable pub verify_telegram_login : Primitives → Visit → Params → String → Option String
unfolding param data_check_string
verify_telegram_login pr visit params bot_token =
    let hash = param params "hash" in
    if is_empty hash
    then some "hash missing"
    else if is_empty (param params "auth_date")
    then some "auth_date missing"
    else (elim (pr.scan_int (param params "auth_date")) [
      | none ↦ some "invalid auth_date"
      | some ts ↦
          if ltb_ℤ (pos 86400) (sub64 (div64 visit.clock 1000000000) ts)
          then some "auth_date too old"
          else if not (equal_fold hash (pr.telegram_mac bot_token (data_check_string params)))
          then some "invalid signature"
          else none
    ])

-- `readRefCookie`
unfoldable pub read_ref_cookie : HttpRequest → String
read_ref_cookie req = elim req.ref_cookie [
  | none ↦ req.ref_query
  | some value ↦ if is_empty value then req.ref_query else value
]

abbrev pub unreferred : String → User → Bool
unreferred uid u = has_id uid u && is_empty u.referred_by

-- `attachReferral`
unfoldable pub attach_referral : Env → Db → String → String → Db × Result (Unit {0})
attach_referral env db uid code =
    if env.fails (select_rows "users" code)
    then (db, err (message "referral code not found"))
    else (elim (select_first (λ u. str_eq u.referral_code code) db.users) [
      | none ↦ (db, err (message "referral code not found"))
      | some referrer ↦
          if is_empty referrer.id
          then (db, err (message "referral code not found"))
          else if str_eq referrer.id uid
          then (db, err (message "cannot refer self"))
          else if env.fails (update_row "users" uid)
          then (db, err sql_failure)
          else (
            record db {
              users =
                  update_where (unreferred uid) (λ u. record u { referred_by = referrer.id })
                    db.users;
            },
            ok tt,
          )
    ])

-- The referral of a new account.
abbrev pub refer_new : Visit → HttpRequest → Db → User → Db
refer_new visit req db u =
    let code = read_ref_cookie req in
    if is_empty code then db else (attach_referral visit.env db u.id code).0

-- The account of a Telegram identity that has none: under its name, or under the name and the id.
unfoldable pub join_by_telegram : Visit → HttpRequest → Db → String → String → Db × (Reply ⊎ User)
unfolding attach_referral read_ref_cookie
join_by_telegram visit req db username tid =
    let (db1, r) = create_user visit.env db username "" tid "user" visit.code in
    elim r [
      | ok u ↦ (refer_new visit req db1 u, inr u)
      | err e ↦
          if not (is_exactly_duplicate e)
          then (db1, inl (internal_error e))
          else (let (db2, q) =
                create_user visit.retry db1 (username +++ "_" +++ tid) "" tid "user"
                  visit.retry_code in
              elim q [
                | ok u ↦ (refer_new visit req db2 u, inr u)
                | err e' ↦ (db2, inl (409, failure e'))
              ])
    ]

-- The account of a Telegram identity: the one that has it, or a new one.
unfoldable pub telegram_account : Visit → HttpRequest → Db → Params → Db × (Reply ⊎ User)
unfolding join_by_telegram param
telegram_account visit req db params =
    let tid = param params "id" in
    let name = param params "username" in
    let username = if is_empty name then "tg_" +++ tid else name in
    elim (user_by_telegram_id visit.env db tid) [
      | ok u ↦ (db, inr u)
      | err e ↦
          if is_not_found e
          then join_by_telegram visit req db username tid
          else (db, inl (internal_error e))
    ]

-- `handleTelegramLogin`
unfoldable pub handle_telegram_login :
    Primitives → Config → Visit → Portal → HttpRequest → Option Params → Portal × Reply
unfolding telegram_account
handle_telegram_login pr cfg visit portal req body =
    if is_empty cfg.telegram_bot_token
    then (portal, (503, refused "telegram not configured"))
    else (elim body [
      | none ↦ (portal, (400, refused "invalid body"))
      | some params ↦ elim (verify_telegram_login pr visit params cfg.telegram_bot_token) [
        | some text ↦ (portal, (401, refused text))
        | none ↦
            let (db', account) = telegram_account visit req portal.db params in
            let portal' = record portal { db = db' } in
            elim account [ inl reply ↦ (portal', reply) | inr u ↦ enter pr cfg visit portal' u ]
      ]
    ])

-- The answer after LinkTelegram.
abbrev pub linked : Result (Unit {0}) → Reply
linked (ok _) = (200, done "linked")
linked (err e) =
    if is_exactly_duplicate e then (409, refused "telegram already linked") else internal_error e

-- `handleLinkTelegram`
unfoldable pub handle_link_telegram :
    Primitives → Config → Visit → Portal → HttpRequest → Option Params → Portal × Reply
unfolding param
handle_link_telegram pr cfg visit portal req body =
    with_session pr visit portal req (λ entered sess.
      if is_empty cfg.telegram_bot_token
      then (entered, (503, refused "telegram not configured"))
      else (elim body [
        | none ↦ (entered, (400, refused "invalid body"))
        | some params ↦ elim (verify_telegram_login pr visit params cfg.telegram_bot_token) [
          | some text ↦ (entered, (401, refused text))
          | none ↦
              let (db', r) = link_telegram visit.env entered.db sess.user_id (param params "id") in
              (record entered { db = db' }, linked r)
        ]
      ]))
