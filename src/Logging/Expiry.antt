-- ===== src/Logging/Expiry.antt =====
-- internal/logging/logging.go: the purge of the rows past their time.
use manager_key_pro.Base.{
  ℕ, ◌+◌, ◌≡◌, refl, ap, Bool, false, none, some, List, [], ◌∷◌, if◌then◌else◌, select_all,
  delete_where, length, All, arith,
}
use manager_key_pro.Base.Int.{ltb_ℤ}
use manager_key_pro.Store.Types.{LogRow, Db}
use manager_key_pro.Store.Errors.{Env, delete_rows}

-- `purge_after IS NOT NULL AND purge_after < now`
unfoldable pub is_past : Env → LogRow → Bool
is_past env row = elim row.purge_after [ none ↦ false | some t ↦ ltb_ℤ t env.now ]

-- `Purge`: the number of rows.
unfoldable pub purge : Env → Db → Db × ℕ
purge env db = if env.fails (delete_rows "request_logs" "") then (db, 0) else (
  record db { request_logs = delete_where (is_past env) db.request_logs },
  length (select_all (is_past env) db.request_logs),
)

split-past :
    (env : Env) (rows : List LogRow)
    → length (select_all (is_past env) rows) + length (delete_where (is_past env) rows)
      ≡ length rows
unfolding select_all delete_where
split-past env [] = omega arith
split-past env (row ∷ rows) = ground (arith, split-past env rows)

live-after :
    (env : Env) (rows : List LogRow)
    → All (λ row. is_past env row ≡ false) (delete_where (is_past env) rows)
unfolding delete_where
live-after env [] = tt
live-after env (row ∷ rows) = ground (arith, live-after env rows)

same_after :
    (env : Env) (rows : List LogRow)
    → All (λ row. is_past env row ≡ false) rows
    → delete_where (is_past env) rows ≡ rows
unfolding delete_where
same_after env [] h = refl
same_after env (row ∷ rows) h = ground (arith, h.0, same_after env rows h.1)

-- Where the statement succeeds, a purge deletes every row past its time and returns the number of rows that are gone, and a
-- second purge at the same time deletes nothing.
pub purge-past :
    (env : Env) (db : Db)
    → env.fails (delete_rows "request_logs" "") ≡ false
    → let (db', n) = purge env db in
      All (λ row. is_past env row ≡ false) db'.request_logs
      × (n + length db'.request_logs ≡ length db.request_logs)
      × ((purge env db').0 ≡ db')
unfolding purge
purge-past env db works =
    let live = live-after env db.request_logs in
    let again = same_after env (delete_where (is_past env) db.request_logs) live in
    (
      rw (purge, works) live,
      rw (purge, works) (split-past env db.request_logs),
      rw (purge, works) (ap (λ rows. record db { request_logs = rows }) again),
    )
