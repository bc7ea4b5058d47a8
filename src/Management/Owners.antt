-- ===== src/Management/Owners.antt =====
-- What the edits of a key do to the owners of the keys.
use manager_key_pro.Base.{
  ℕ, ◌≡◌, refl, ◌∙◌, Bool, true, Option, none, some, inl, inr, List, [], ◌∷◌, map, String, is_empty,
  str_eq, trim_space, arith, Bool-cases, update_where, if◌then◌else◌,
}
use manager_key_pro.Base.Int.{ℤ}
use manager_key_pro.Store.Types.{Key, Db}
use manager_key_pro.Store.Errors.{Stmt, Env, Result, ok, err, update_key, coalesce, null_if_empty}
use manager_key_pro.Store.Keys.{
  has_key_id, update_key_row, rename, set_models, set_access, set_rpm, set_log_mode, set_overflow,
}
use manager_key_pro.Issue.{audit}
use manager_key_pro.Management.{Answer, and_then, attempt}
use manager_key_pro.Management.Edits.{
  UpdateKeyBody, has_open_hold, transfer_key, given, rename_step, owner_step, models_step,
  access_step,
}

abbrev owner : Key → String
owner k = k.user_id

-- The owners of the keys, in their order, and the reservations are as they were.
pub record SameOwners (a b : Db) : Type 0 where
  pub owners : map owner b.keys ≡ map owner a.keys
  pub held : b.reservations ≡ a.reservations

pub same_owners : (db : Db) → SameOwners db db
same_owners db = record { owners = refl; held = refl }

pub SameOwners-trans : {a b c : Db} → SameOwners a b → SameOwners b c → SameOwners a c
SameOwners-trans s t = record { owners = t.owners ∙ s.owners; held = t.held ∙ s.held }

map-update_where :
    (p : Key → Bool) (f : Key → Key) (ks : List Key)
    → ((k : Key) → owner (f k) ≡ owner k)
    → map owner (update_where p f ks) ≡ map owner ks
unfolding update_where
map-update_where p f [] keep = refl
map-update_where p f (k ∷ ks) keep = elim (Bool-cases (p k)) [
  | inl e ↦ rw (update_where, e) (λ i. keep k i ∷ map-update_where p f ks keep i)
  | inr e ↦ rw (update_where, e) (λ i. owner k ∷ map-update_where p f ks keep i)
]

update_key_row-owners :
    (env : Env) (db : Db) (stmt : Stmt) (kid : String) (f : Key → Key) (valid : Key → Bool)
    → ((k : Key) → owner (f k) ≡ owner k)
    → SameOwners db (update_key_row env db stmt kid f valid).0
unfolding update_key_row
update_key_row-owners env db stmt kid f valid keep = record {
  owners = ground (arith, map-update_where (has_key_id kid) f db.keys keep);
  held = ground arith;
}

pub attempt-owners :
    (status : ℕ) (db : Db) (r : Db × Result (Unit {0}))
    → SameOwners db r.0
    → SameOwners db (attempt status r).0
unfolding attempt
attempt-owners status db (db', ok _) h = h
attempt-owners status db (db', err e) h = h

pub and_then-owners :
    (db : Db) (s : Db × Option Answer) (f : Db → Db × Option Answer)
    → SameOwners db s.0
    → ((d : Db) → SameOwners db d → SameOwners d (f d).0)
    → SameOwners db (and_then s f).0
unfolding and_then
and_then-owners db (d, none) f h k = SameOwners-trans h (k d h)
and_then-owners db (d, some a) f h k = h

pub given-owners {ℓ} :
    {A : Type ℓ} (o : Option A) (f : A → Db → Db × Option Answer) (db : Db)
    → ((a : A) → SameOwners db (f a db).0)
    → SameOwners db (given o f db).0
unfolding given
given-owners none f db k = same_owners db
given-owners (some a) f db k = k a

pub audit-owners :
    (env : Env) (db : Db) (actor action kid uid : String)
    → SameOwners db (audit env db actor action kid uid)
unfolding audit
audit-owners env db actor action kid uid = record { owners = ground arith; held = ground arith }

pub owner_step-owners :
    (env : Env) (k : Key) (kid uid : String) (db : Db)
    → has_open_hold env db kid ≡ true
    → SameOwners db (owner_step env k kid uid db).0
unfolding owner_step transfer_key
owner_step-owners env k kid uid db h = elim (Bool-cases (str_eq uid k.user_id)) [
  | inl e ↦ rw (owner_step, e) (same_owners db)
  | inr e ↦ rw (owner_step, transfer_key, e, h) (same_owners db)
]

rename-owners :
    (env : Env) (db : Db) (kid : String) (raw : String) → SameOwners db (rename env db kid raw).0
unfolding rename
rename-owners env db kid raw =
    update_key_row-owners env db (update_key kid) kid
      (λ k. record k {
        name = if is_empty (trim_space raw) then "Unnamed key" else trim_space raw;
        updated_at = env.now;
      })
      (λ k. true) (λ k. refl)

set_models-owners :
    (env : Env) (db : Db) (kid : String) (models : List String)
    → SameOwners db (set_models env db kid models).0
unfolding set_models
set_models-owners env db kid models =
    update_key_row-owners env db (update_key kid) kid
      (λ k. record k { allowed_models = models; updated_at = env.now }) (λ k. true) (λ k. refl)

set_access-owners :
    (env : Env) (db : Db) (kid : String) (ps ips : List String)
    → SameOwners db (set_access env db kid ps ips).0
unfolding set_access
set_access-owners env db kid ps ips =
    update_key_row-owners env db (update_key kid) kid
      (λ k. record k { allowed_providers = ps; ip_allowlist = ips; updated_at = env.now })
      (λ k. true) (λ k. refl)

pub set_rpm-owners :
    (env : Env) (db : Db) (kid : String) (n : ℤ) → SameOwners db (set_rpm env db kid n).0
unfolding set_rpm
set_rpm-owners env db kid n =
    update_key_row-owners env db (update_key kid) kid
      (λ k. record k { rpm = n; updated_at = env.now }) (λ k. true) (λ k. refl)

pub set_overflow-owners :
    (env : Env) (db : Db) (kid : String) (b : Bool) → SameOwners db (set_overflow env db kid b).0
unfolding set_overflow
set_overflow-owners env db kid b =
    update_key_row-owners env db (update_key kid) kid
      (λ k. record k { overflow_to_wallet = b; updated_at = env.now }) (λ k. true) (λ k. refl)

pub set_log_mode-owners :
    (env : Env) (db : Db) (kid mode : String) → SameOwners db (set_log_mode env db kid mode).0
unfolding set_log_mode
set_log_mode-owners env db kid mode = ground (
  arith,
  same_owners db,
  update_key_row-owners env db (update_key kid) kid
      (λ k. record k {
        log_mode = coalesce (null_if_empty (trim_space mode));
        updated_at = env.now;
      })
      (λ k. true) (λ k. refl),
)

pub rename_step-owners :
    (env : Env) (kid name : String) (db : Db) → SameOwners db (rename_step env kid name db).0
unfolding rename_step
rename_step-owners env kid name db = elim (Bool-cases (is_empty (trim_space name))) [
  | inl e ↦ rw (rename_step, e) (same_owners db)
  | inr e ↦
      rw (rename_step, e)
        (attempt-owners 500 db (rename env db kid name) (rename-owners env db kid name))
]

pub models_step-owners :
    (env : Env) (body : UpdateKeyBody) (db : Db) → SameOwners db (models_step env body db).0
unfolding models_step
models_step-owners env body db = elim (Bool-cases body.set_models_flag) [
  | inl e ↦
      rw (models_step, e)
        (attempt-owners 500 db _ (set_models-owners env db body.id body.allowed_models))
  | inr e ↦ rw (models_step, e) (same_owners db)
]

pub access_step-owners :
    (env : Env) (body : UpdateKeyBody) (k : Key) (db : Db)
    → SameOwners db (access_step env body k db).0
unfolding access_step
access_step-owners env body k db =
    let ps = if body.set_providers_flag then body.allowed_providers else k.allowed_providers in
    let ips = if body.set_ip_flag then body.ip_allowlist else k.ip_allowlist in
    let edited =
      attempt-owners 500 db (set_access env db body.id ps ips)
        (set_access-owners env db body.id ps ips) in
    ground (arith, edited, same_owners db)
