-- ===== src/Portal/Referred.antt =====
-- The referral of a new account is written once, and never to the account itself.
use manager_key_pro.Base.{
  ◌≡◌, true, false, inl, inr, List, [], ◌∷◌, String, is_empty, str_eq, eq_iff, arith, Bool-cases,
  Option-cases, update_where, select_first,
}
use manager_key_pro.Store.Types.{User, Db}
use manager_key_pro.Store.Errors.{Env}
use manager_key_pro.Portal.Telegram.{unreferred, attach_referral}

-- The accounts before and after, row by row: all fields but the referrer are kept, a referrer that was
-- there is kept, and a new one belongs to another account.
pub data Referred : List User → List User → Type 0 where
  none_left : Referred [] []
  kept : {us vs : List User} (u : User) → Referred us vs → Referred (u ∷ us) (u ∷ vs)
  referred :
      {us vs : List User} (u : User) (by : String)
      → is_empty u.referred_by ≡ true
      → str_eq by u.id ≡ false
      → Referred us vs
      → Referred (u ∷ us) (record u { referred_by = by } ∷ vs)

all_kept : (us : List User) → Referred us us
all_kept [] = none_left
all_kept (u ∷ us) = kept u (all_kept us)

update_where-Referred :
    (uid by : String) (us : List User)
    → str_eq by uid ≡ false
    → Referred us (update_where (unreferred uid) (λ u. record u { referred_by = by }) us)
unfolding update_where
update_where-Referred uid by [] apart = none_left
update_where-Referred uid by (u ∷ us) apart =
    let rest = update_where-Referred uid by us apart in
    elim (Bool-cases (unreferred uid u)) [
      | inr e ↦ rw (update_where, e) (kept u rest)
      | inl e ↦
          rw (update_where, e)
            (referred u by (ground (arith, e)) (ground (arith, e, eq_iff u.id uid, apart)) rest)
    ]

-- Whatever the code and whichever statements fail, attaching a referral changes no field of an
-- account but its referrer, replaces no referrer that is there, and makes no account its own
-- referrer.
pub attach_referral-Referred :
    (env : Env) (db : Db) (uid code : String)
    → Referred db.users (attach_referral env db uid code).0.users
unfolding attach_referral
attach_referral-Referred env db uid code =
    elim (Option-cases (select_first (λ u. str_eq u.referral_code code) db.users)) [
      | inl q ↦ ground (arith, q, all_kept db.users)
      | inr (r, q) ↦ elim (Bool-cases (str_eq r.id uid)) [
        | inl e ↦ ground (arith, q, e, all_kept db.users)
        | inr e ↦ ground (arith, q, e, all_kept db.users, update_where-Referred uid r.id db.users e)
      ]
    ]
