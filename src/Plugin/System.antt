-- ===== src/Plugin/System.antt =====
-- The plugin as a sequence of calls that share one database, the sessions of the portal, and the log
-- rows that they write.
use manager_key_pro.Base.{
  ℕ, Bool-cases, ◌&&◌, not, str_eq, is_empty, inl, inr, Option, List, [], ◌∷◌, String, arith,
}
use manager_key_pro.Base.Int.{ℤ}
use manager_key_pro.Store.Types.{Db}
use manager_key_pro.Store.Errors.{Env}
use manager_key_pro.Store.Users.Ledger.{Reconciled}
use manager_key_pro.Store.Keys.{key_by_hash}
use manager_key_pro.Store.Settings.{init_defaults}
use manager_key_pro.Store.Edits.{init_defaults-Steps}
use manager_key_pro.Store.Steps.{Steps, Steps-trans, Steps-keep, here, here_at, Result-cases}
use manager_key_pro.Store.Invariants.{Step-Reconciled, Extends, Steps-Extends}
use manager_key_pro.Crypto.{Cipher, hash_key}
use manager_key_pro.Policy.{Seen}
use manager_key_pro.Billing.Pricing.{Floats, Pricing}
use manager_key_pro.Billing.Hold.{release_stale}
use manager_key_pro.Billing.Steps.{hold-Steps, release-Steps, release_stale-Steps}
use manager_key_pro.Logging.{Codec, Pending}
use manager_key_pro.Logging.Write.{write_failure}
use manager_key_pro.Plugin.Logged.{Payload, handle_intercept_before, handle_usage, handle_complete}
use manager_key_pro.Plugin.LogSteps.{handle_usage-Steps, write_failure-Steps, purge-Steps}
use manager_key_pro.Plugin.Request.{extract_key}
use manager_key_pro.Plugin.Hooks.{InterceptRequest, intercept_before, complete}
use manager_key_pro.Portal.{Config, Portal, Primitives, Visit, HttpRequest}
use manager_key_pro.Portal.Sessions.{handle_logout}
use manager_key_pro.Portal.Auth.{Credentials, handle_login}
use manager_key_pro.Portal.Account.{
  KeyUpdate, Purchase, Recharge, handle_set_password, handle_my_key_update, handle_buy_package,
  handle_webhook_recharge,
}
use manager_key_pro.Portal.Changes.{
  handle_login-Steps, handle_logout-Steps, handle_set_password-Steps, handle_my_key_update-Steps,
  handle_buy_package-Steps, handle_webhook_recharge-Steps,
}
use manager_key_pro.Management.Keys.{CreateKeyBody, RenewBody, create_key_for, renew_key_for}
use manager_key_pro.Management.Edits.{UpdateKeyBody, update_key_for}
use manager_key_pro.Management.Users.{RechargeBody, recharge_for, reset_password}
use manager_key_pro.Management.Changes.{
  recharge_for-Steps, create_key_for-Steps, renew_key_for-Steps, reset_password-Steps,
}
use manager_key_pro.Management.EditChanges.{update_key_for-Steps}

-- The database of the portal's state is the one that all components share.
abbrev with_db : Portal → Db → Portal
with_db portal db = record portal { db = db }

module _ (json : Codec) (prim : Primitives) (cfg : Config) (fl : Floats)
    (tiers_of : String → Option (List ℤ)) where
  -- One call of the host, the portal or the dashboard.
  pub data Call : Type 0 where
    boots : Env → List (String × String) → ℤ → Call
    requests : Env → Pricing fl → InterceptRequest → String → Call
    reports : Env → Pricing fl → Payload → Call
    completes : Env → String → String → String → Call
    logs_in : Visit → Option Credentials → Call
    logs_out : HttpRequest → Call
    sets_password : Visit → HttpRequest → Option String → Call
    updates_key : Visit → HttpRequest → Option KeyUpdate → Call
    buys : Visit → HttpRequest → Option Purchase → Call
    webhooks : Visit → HttpRequest → Option Recharge → Call
    recharges : Env → String → Option RechargeBody → Call
    creates_key : Env → Option CreateKeyBody → Call
    renews_key : Env → String → Option RenewBody → Call
    edits_key : Env → Option UpdateKeyBody → Call
    resets_password : List ℕ → Env → Option (String × String) → Call

  -- The database with the sessions, the limiter's hits and the captured contexts.
  abbrev pub State : Type 0
  State = Portal × Seen × Pending

  -- The call on the state. A boot, the first call of a process, sets the missing settings, in the order
  -- of the range over the defaults, frees the stale holds, and starts without sessions, hits and
  -- contexts. The table of prices, which it seeds, is an argument of the calls that read it.
  unfoldable pub step : Call → State → State
  step (boots env order max_age) (portal, seen, pending) =
      let set = (init_defaults env portal.db order).0 in
      (record { db = release_stale env set max_age; sessions = [] }, λ kid. [], [])
  step (requests env pr req body) (portal, seen, pending) =
      let (db', seen', pending', _) =
        handle_intercept_before json prim.cipher fl env pr portal.db seen pending req body in
      (with_db portal db', seen', pending')
  step (reports env pr rec) (portal, seen, pending) =
      let (db', pending') = handle_usage json fl env pr portal.db pending rec in
      (with_db portal db', seen, pending')
  step (completes env rid outcome text) (portal, seen, pending) =
      (with_db portal (handle_complete env portal.db rid outcome text), seen, pending)
  step (logs_in visit body) (portal, seen, pending) =
      ((handle_login prim cfg visit portal body).0, seen, pending)
  step (logs_out req) (portal, seen, pending) = ((handle_logout portal req).0, seen, pending)
  step (sets_password visit req body) (portal, seen, pending) =
      ((handle_set_password prim cfg visit portal req body).0, seen, pending)
  step (updates_key visit req body) (portal, seen, pending) =
      ((handle_my_key_update prim visit portal req body).0, seen, pending)
  step (buys visit req body) (portal, seen, pending) =
      ((handle_buy_package prim cfg visit portal req body).0, seen, pending)
  step (webhooks visit req body) (portal, seen, pending) =
      ((handle_webhook_recharge cfg visit portal req body).0, seen, pending)
  step (recharges env uid body) (portal, seen, pending) =
      (with_db portal (recharge_for tiers_of env portal.db uid body).0, seen, pending)
  step (creates_key env body) (portal, seen, pending) = (
    with_db portal (create_key_for prim.cipher env portal.db cfg.secret_key body).0,
    seen,
    pending,
  )
  step (renews_key env kid body) (portal, seen, pending) =
      (with_db portal (renew_key_for env portal.db kid body).0, seen, pending)
  step (edits_key env body) (portal, seen, pending) =
      (with_db portal (update_key_for env portal.db body).0, seen, pending)
  step (resets_password salt env body) (portal, seen, pending) =
      (with_db portal (reset_password prim.argon salt env portal.db body).0, seen, pending)

  unfoldable pub run : List Call → State → State
  run [] s = s
  run (c ∷ cs) s = run cs (step c s)

intercept_before-Steps :
    (cr : Cipher) (fl : Floats) (env : Env) (pr : Pricing fl) (db : Db) (seen : Seen)
    (req : InterceptRequest)
    → Steps db (intercept_before cr fl env pr db seen req).0
unfolding intercept_before
intercept_before-Steps cr fl env pr db seen req =
    elim (Result-cases (key_by_hash env db (hash_key cr (extract_key req.headers [])))) [
      | inl (e, q) ↦ ground (arith, here_at db)
      | inr (k, q) ↦
          ground
            (arith, here_at db, hold-Steps fl env pr db req.request_id k.id k.user_id req.model)
    ]

complete-Steps :
    (env : Env) (db : Db) (rid outcome : String) → Steps db (complete env db rid outcome)
unfolding complete
complete-Steps env db rid outcome = ground (arith, here_at db, release-Steps env db rid)

handle_complete-Steps :
    (env : Env) (db : Db) (rid outcome text : String)
    → Steps db (handle_complete env db rid outcome text)
unfolding handle_complete
handle_complete-Steps env db rid outcome text =
    let released = complete-Steps env db rid outcome in
    let db1 = complete env db rid outcome in
    let failed = Steps-trans released (write_failure-Steps env db1 rid outcome text) in
    let db2 = write_failure env db1 rid outcome text in
    elim (Bool-cases (not (str_eq outcome "succeeded") && not (is_empty text))) [
      | inl e ↦ rw (handle_complete, e) (Steps-trans failed (purge-Steps env db2))
      | inr e ↦ rw (handle_complete, e) (Steps-trans released (purge-Steps env db1))
    ]

module _ (json : Codec) (prim : Primitives) (cfg : Config) (fl : Floats)
    (tiers_of : String → Option (List ℤ)) where
  step-Steps :
      (c : Call json prim cfg fl tiers_of) (s : State json prim cfg fl tiers_of)
      → Steps s.0.db (step json prim cfg fl tiers_of c s).0.db
  unfolding step handle_intercept_before
  step-Steps (boots env order max_age) (portal, seen, pending) =
      let set = (init_defaults env portal.db order).0 in
      Steps-trans (init_defaults-Steps env portal.db order) (release_stale-Steps env set max_age)
  step-Steps (requests env pr req body) (portal, seen, pending) =
      intercept_before-Steps prim.cipher fl env pr portal.db seen req
  step-Steps (reports env pr rec) (portal, seen, pending) =
      handle_usage-Steps json fl env pr portal.db pending rec
  step-Steps (completes env rid outcome text) (portal, seen, pending) =
      handle_complete-Steps env portal.db rid outcome text
  step-Steps (logs_in visit body) (portal, seen, pending) =
      handle_login-Steps prim cfg visit portal body
  step-Steps (logs_out req) (portal, seen, pending) = handle_logout-Steps portal req
  step-Steps (sets_password visit req body) (portal, seen, pending) =
      handle_set_password-Steps prim cfg visit portal req body
  step-Steps (updates_key visit req body) (portal, seen, pending) =
      handle_my_key_update-Steps prim visit portal req body
  step-Steps (buys visit req body) (portal, seen, pending) =
      handle_buy_package-Steps prim cfg visit portal req body
  step-Steps (webhooks visit req body) (portal, seen, pending) =
      handle_webhook_recharge-Steps cfg visit portal req body
  step-Steps (recharges env uid body) (portal, seen, pending) =
      recharge_for-Steps tiers_of env portal.db uid body
  step-Steps (creates_key env body) (portal, seen, pending) =
      create_key_for-Steps prim.cipher env portal.db cfg.secret_key body
  step-Steps (renews_key env kid body) (portal, seen, pending) =
      renew_key_for-Steps env portal.db kid body
  step-Steps (edits_key env body) (portal, seen, pending) = update_key_for-Steps env portal.db body
  step-Steps (resets_password salt env body) (portal, seen, pending) =
      reset_password-Steps prim.argon salt env portal.db body

  run-Steps :
      (cs : List (Call json prim cfg fl tiers_of)) (s : State json prim cfg fl tiers_of)
      → Steps s.0.db (run json prim cfg fl tiers_of cs s).0.db
  unfolding run
  run-Steps [] s = here
  run-Steps (c ∷ cs) s =
      Steps-trans (step-Steps c s) (run-Steps cs (step json prim cfg fl tiers_of c s))

  -- Boots, gated requests, usage reports, completions, logins, logouts, changes of passwords and of
  -- keys, purchases, recharges, webhook recharges, and the keys that the administration issues, renews
  -- and edits, in whatever order, and whichever statements the database fails: if every wallet equals
  -- the int64 sum of its ledger rows at the start, it does at the end.
  pub run-Reconciled :
      (cs : List (Call json prim cfg fl tiers_of)) (s : State json prim cfg fl tiers_of)
      → Reconciled s.0.db
      → Reconciled (run json prim cfg fl tiers_of cs s).0.db
  run-Reconciled cs s h = Steps-keep Reconciled Step-Reconciled (run-Steps cs s) h

  -- No sequence of these calls alters or drops a row of the credit ledger, and the final ledger is the
  -- one at the start with newer rows in front: boots, gated requests, usage reports, completions,
  -- logins, logouts, changes of passwords and of keys, purchases, recharges, webhook recharges, and
  -- the keys that the administration issues, renews and edits.
  pub run-Extends :
      (cs : List (Call json prim cfg fl tiers_of)) (s : State json prim cfg fl tiers_of)
      → Extends s.0.db (run json prim cfg fl tiers_of cs s).0.db
  run-Extends cs s = Steps-Extends (run-Steps cs s)
