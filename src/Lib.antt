-- ===== src/Lib.antt =====
-- A model of manager-key-pro, a plugin that sells and meters API keys for a proxy host.
--
-- The parts of the program and the files that model them (paths from the repository's root):
--   internal/store (SQLite)      Store/Types (the rows), Store/Errors (errors, transactions, the
--                                environment of a call), Store/Users, Store/Keys, Store/Packages,
--                                Store/Settings (with Users/Accounts and
--                                Keys/Create): one function for each repository operation.
--   internal/billing             Billing/Pricing, Billing/Period, Billing/Hold, Billing/Charge.
--   internal/policy              Policy (models, providers, addresses, user status, rate limit).
--   internal/scheduler           Scheduler/Bindings, Scheduler/Pick.
--   internal/crypto/keygen.go    Crypto.
--   internal/issue               Issue (Key, BuyPackage).
--   internal/referral            Referral (OnRecharge).
--   internal/logging             Logging (redaction, modes, captured contexts), Logging/Write (the
--                                rows of the log), Logging/Expiry (Purge).
--   internal/plugin/hooks.go     Plugin/Request (headers and the key in them), Plugin/Hooks
--                                (authenticate, intercept_before, complete, and what follows a
--                                recharge), Plugin/Logged (the handlers around them, with what
--                                they log).
--   internal/plugin/main.go      Plugin/System: the calls of the host, the portal and the
--                                administration that move money or quota, or change accounts and
--                                keys that are there, as steps on one state.
--   internal/plugin/management.go, internal/plugin/mgmt_extra.go
--                                Management/Routes (registration and dispatch), Management/Keys,
--                                Management/Edits, Management/Users, Management/Catalogue,
--                                Management/Config: one function for each route.
--   internal/portal              Portal (configuration, sessions, requests, answers),
--                                Portal/Password (argon2id hashes), Portal/Sessions, Portal/Auth
--                                (registration and login), Portal/Telegram, Portal/Account,
--                                Portal/Reads: one function for each handler.
-- Base holds the shared helpers: Base/Text (strings), Base/Hex (hexadecimal texts), Base/Table (a
-- table as a list of rows and what SELECT, UPDATE and DELETE do to it), Base/Order (ORDER BY and
-- LIMIT), Base/Int (integers, and int64 with its wrap-around).
--
-- How they interact. Every operation takes the database `Db` and returns the new one, with a result
-- where the code returns one. The hooks look a key up by the hash of the text in the headers, pass
-- the policy gates, and hold quota (Billing/Hold); a usage report is logged, settles the hold and
-- charges the rest (Billing/Charge); all money goes through `adjust_balance` (AdjustBalance). The
-- portal keeps its sessions in memory beside the database: its state is a `Portal`. The
-- administration and the portal issue, sell and edit keys through the same operations. Store/Steps
-- lists the atomic changes of the database, of which Store/Edits, the *Steps and the *Changes modules
-- build the operations, and Store/Invariants is about each single change.
--
-- How operations correspond to the code. A record of the code is a record, an error return is
-- `err e`, an ignored error leaves the function as the code does. `Env` is one call's outside: `now`
-- is the clock, read once for the call, `new_id` the fresh identifiers, and `fails` says which SQL
-- statements the driver fails, so every error path is reached by some `Env`. A purchase has two, one
-- up to the debit and one after it; a `Visit` of the portal holds the two of a Telegram login that
-- tries a second name, the clock of the sessions in nanoseconds, the random bytes of a token and of
-- a salt, and the referral codes. A handler of HTTP takes the decoded body, `none` for one that does
-- not decode, and returns the status and what the answer shows; a usage report that does not decode is
-- what it has filled of a record. The constraints of schema.sql
-- (UNIQUE, CHECK, foreign keys) are tests that fail the statement. Values returned beside an error
-- are not modelled, except the lock time of a failed login, which its caller reads. int64 arithmetic
-- wraps; SQLite's own sums (quota_used + ?, SUM) are exact.
--
-- Parameters, because their code is not in the repository: float64 (`Floats`), the hash, cipher,
-- random bytes and base32 (`Cipher`), argon2id, HMAC and Sscanf (`Primitives`), the JSON codec and
-- the texts of errors in the log (`Codec`), the JSON decoder of the referral tiers (`tiers_of`), the
-- order of a range over a Go map (`Pricing.range`, the order of headers, of default settings, of
-- changed columns and of settings in a body), and the next AUTOINCREMENT id of the bindings. Texts
-- are compared and folded as ASCII.
--
-- Bounds. The only fuel is that of `show_int`: 20 digits, where an int64 has at most 19.
--
-- Not modelled: the reads of the administration that only list or count (keys, users, ledgers,
-- orders, usage, statistics, prices, the referral report, logs, audit), backup and restore, the
-- envelopes of JSON and HTTP, the portal's listener and static page, the C interface, start-up,
-- configuration, migration, and JSON texts that are only stored. The steps of Plugin/System leave out
-- the calls that create accounts, delete keys, or change packages, bindings and, but for the defaults
-- that a boot sets, settings.
--
-- Tests holds concrete runs.
pub mod Base
pub mod Store
pub mod Billing
pub mod Policy
pub mod Scheduler
pub mod Crypto
pub mod Issue
pub mod Referral
pub mod Plugin
pub mod Portal
pub mod Logging
pub mod Management
pub mod Tests
