-- ===== src/Portal/Account.antt =====
-- internal/portal/portal_extra.go: what a user does with the account, the keys and the packages; the
-- recharge webhook and the public check of a key.
use Prim.Native.String.{len, slice}
use manager_key_pro.Base.{
  Bool, not, ◌||◌, Option, none, some, String, is_empty, str_eq, trim_space, to_lower, has_prefix,
  if◌then◌else◌,
}
use manager_key_pro.Base.Int.{ℤ, pos, sub64, ltb_ℤ, leb_ℤ}
use manager_key_pro.Store.Types.{Key, Db}
use manager_key_pro.Store.Errors.{ok, err, Env}
use manager_key_pro.Store.Users.{adjust_balance, user_by_id}
use manager_key_pro.Store.Users.Accounts.{set_password}
use manager_key_pro.Store.Keys.{key_by_id, key_by_hash, rename, set_overflow}
use manager_key_pro.Crypto.{decrypt_key, hash_key}
use manager_key_pro.Issue.{buy_package}
use manager_key_pro.Portal.{
  Config, Portal, Primitives, Visit, HttpRequest, Reply, refused, failure, done, profile, revealed,
  bought, credited, checked, internal_error,
}
use manager_key_pro.Portal.Password.{hash_password}
use manager_key_pro.Portal.Sessions.{with_session}
use manager_key_pro.Portal.Auth.{too_short}

-- `handleSetPassword`
unfoldable pub handle_set_password :
    Primitives → Config → Visit → Portal → HttpRequest → Option String → Portal × Reply
handle_set_password pr cfg visit portal req body = with_session pr visit portal req (λ entered sess.
    elim body [
      | none ↦ (entered, (400, refused "password too short"))
      | some password ↦
          if too_short cfg password
          then (entered, (400, refused "password too short"))
          else (let (db', r) =
                set_password visit.env entered.db sess.user_id
                  (hash_password pr.argon visit.salt password) in
              (
                record entered { db = db' },
                elim r [ ok _ ↦ (200, done "updated") | err e ↦ internal_error e ],
              ))
    ])

-- `handleMe`
unfoldable pub handle_me : Primitives → Visit → Portal → HttpRequest → Portal × Reply
handle_me pr visit portal req = with_session pr visit portal req (λ entered sess. (
  entered,
  elim (user_by_id visit.env entered.db sess.user_id) [
    | ok u ↦ (200, profile u)
    | err e ↦ internal_error e
  ],
))

-- The key that the session's user asks for by its id: 404 for any other.
unfoldable pub own_key : Env → Db → String → String → Option Key
own_key env db uid kid = elim (key_by_id env db kid) [
  | err _ ↦ none
  | ok k ↦ if str_eq k.user_id uid then some k else none
]

-- The answer with the plaintext of a key.
unfoldable pub reveal : Primitives → Config → Key → Reply
reveal pr cfg k = elim (decrypt_key pr.cipher k.key_cipher k.key_nonce cfg.secret_key) [
  | err _ ↦ (500, refused "decrypt failed")
  | ok plain ↦ (200, revealed k plain)
]

-- `handleMyKeyReveal`; "" for a body that does not parse.
unfoldable pub handle_my_key_reveal :
    Primitives → Config → Visit → Portal → HttpRequest → String → Portal × Reply
unfolding own_key reveal
handle_my_key_reveal pr cfg visit portal req kid = with_session pr visit portal req (λ entered sess.
    if is_empty kid then (entered, (400, refused "id required")) else (
      entered,
      elim (own_key visit.env entered.db sess.user_id kid) [
        | none ↦ (404, refused "key not found")
        | some k ↦ reveal pr cfg k
      ],
    ))

-- The body of `handleMyKeyUpdate`.
pub record KeyUpdate : Type 0 where
  pub id : String
  pub name : String
  pub overflow : Option Bool

-- The two updates, whose errors are not read.
unfoldable pub update_own_key : Env → Db → KeyUpdate → Db
update_own_key env db body =
    let db' = if is_empty body.name then db else (rename env db body.id body.name).0 in
    elim body.overflow [ none ↦ db' | some enabled ↦ (set_overflow env db' body.id enabled).0 ]

-- `handleMyKeyUpdate`
unfoldable pub handle_my_key_update :
    Primitives → Visit → Portal → HttpRequest → Option KeyUpdate → Portal × Reply
unfolding own_key update_own_key
handle_my_key_update pr visit portal req body = with_session pr visit portal req (λ entered sess.
    elim body [
      | none ↦ (entered, (400, refused "id required"))
      | some change ↦
          if is_empty change.id
          then (entered, (400, refused "id required"))
          else (elim (own_key visit.env entered.db sess.user_id change.id) [
            | none ↦ (entered, (404, refused "key not found"))
            | some k ↦ (
              record entered { db = update_own_key visit.env entered.db change },
              (200, done "updated"),
            )
          ])
    ])

-- The body of `handleBuyPackage`.
pub record Purchase : Type 0 where
  pub package_id : String
  pub kind : String
  pub renew_key_id : String

-- `handleBuyPackage`; `retry` is the environment of what follows the debit.
unfoldable pub handle_buy_package :
    Primitives → Config → Visit → Portal → HttpRequest → Option Purchase → Portal × Reply
handle_buy_package pr cfg visit portal req body = with_session pr visit portal req (λ entered sess.
    elim body [
      | none ↦ (entered, (400, refused "package_id required"))
      | some wish ↦
          if is_empty wish.package_id
          then (entered, (400, refused "package_id required"))
          else (let kind = if is_empty wish.kind then "new_key" else wish.kind in
              let (db', r) =
                buy_package pr.cipher visit.env visit.retry entered.db cfg.secret_key sess.user_id
                  wish.package_id kind wish.renew_key_id in
              (
                record entered { db = db' },
                elim r [
                  | err e ↦ (400, failure e)
                  | ok (order, kid, plain) ↦ (200, bought order kid plain)
                ],
              ))
    ])

-- The body of `handleWebhookRecharge`.
pub record Recharge : Type 0 where
  pub user_id : String
  pub amount : ℤ
  pub tx_id : String

-- `handleWebhookRecharge`
unfoldable pub handle_webhook_recharge :
    Config → Visit → Portal → HttpRequest → Option Recharge → Portal × Reply
handle_webhook_recharge cfg visit portal req body =
    if is_empty cfg.telegram_bot_token
    then (portal, (503, refused "telegram not configured"))
    else if is_empty req.webhook_header || not (str_eq req.webhook_header cfg.webhook_secret)
    then (portal, (401, refused "invalid secret"))
    else (elim body [
      | none ↦ (portal, (400, refused "invalid body"))
      | some paid ↦
          if is_empty paid.user_id || leb_ℤ paid.amount (pos 0)
          then (portal, (400, refused "invalid body"))
          else (let (db', r) =
                adjust_balance visit.env portal.db paid.user_id paid.amount "recharge" paid.tx_id
                  "telegram" "" in
              (
                record portal { db = db' },
                elim r [ err e ↦ (400, failure e) | ok _ ↦ (200, credited paid.user_id) ],
              ))
    ])

abbrev or_else : String → String → String
or_else a b = if is_empty a then b else a

-- The plaintext of a key in a request to `handleKeyCheck`.
unfoldable pub presented_key : HttpRequest → String
presented_key req =
    let auth = req.authorization in
    let carried =
      if has_prefix (to_lower auth) "bearer " then trim_space (slice auth 7 (len auth)) else "" in
    or_else carried (or_else req.api_key req.key_query)

-- `handleKeyCheck`: the key and what remains of its quota.
unfoldable pub handle_key_check : Primitives → Visit → Portal → HttpRequest → Reply
unfolding presented_key
handle_key_check pr visit portal req =
    let plain = presented_key req in
    if is_empty plain
    then (400, refused "missing key")
    else (elim (key_by_hash visit.env portal.db (hash_key pr.cipher plain)) [
      | err _ ↦ (401, refused "invalid_api_key")
      | ok k ↦
          let remaining = sub64 k.quota_amount k.quota_used in
          (200, checked k (if ltb_ℤ remaining (pos 0) then pos 0 else remaining))
    ])
