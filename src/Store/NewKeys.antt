-- ===== src/Store/NewKeys.antt =====
-- What the creation of a key leaves behind.
use manager_key_pro.Base.{
  ◌≡◌, refl, true, false, List, [], ◌∷◌, String, str_eq, str_eq_refl, eq_iff, arith, select_first,
  exists_row,
}
use manager_key_pro.Base.Int.{pos}
use manager_key_pro.Store.Types.{Key, Db}
use manager_key_pro.Store.Errors.{Env, ok, select_key}
use manager_key_pro.Store.Keys.{key_by_id, key_by_hash, has_key_id, is_active}
use manager_key_pro.Store.Keys.Create.{create_key, new_key, CreateKeyInput, key_conflict}

no_conflict :
    (n : Key) (i : String) (ks : List Key)
    → exists_row (key_conflict n) ks ≡ false
    → str_eq n.id i ≡ true
    → exists_row (has_key_id i) ks ≡ false
unfolding exists_row
no_conflict n i [] h e = refl
no_conflict n i (k ∷ ks) h e = ground (arith, eq_iff n.id i, no_conflict n i ks)

-- A key that Create returns is the row that it has inserted.
pub create_key-row :
    (env : Env) (db : Db) (input : CreateKeyInput) (k : Key)
    → (create_key env db input).1 ≡ ok k
    → k ≡ new_key env input
unfolding create_key key_by_id select_first
create_key-row env db input k h =
    let id_self = str_eq_refl (new_key env input).id in ground (arith, id_self, h)

-- A key that Create returns is found by the hash of its text (where the lookup succeeds), is active with
-- nothing used, stands in front of the keys that were there, and has an id and a hash that none of those
-- had.
pub create_key-found :
    (env env' : Env) (db : Db) (input : CreateKeyInput) (k : Key)
    → (create_key env db input).1 ≡ ok k
    → env'.fails (select_key input.key_hash) ≡ false
    → let db' = (create_key env db input).0 in
      (key_by_hash env' db' input.key_hash ≡ ok k)
      × (is_active k ≡ true)
      × (k.quota_used ≡ pos 0)
      × (db'.keys ≡ k ∷ db.keys)
      × (exists_row (key_conflict k) db.keys ≡ false)
unfolding create_key new_key key_by_id key_by_hash select_first is_active
create_key-found env env' db input k h reads =
    let made = new_key env input in
    let id_self = str_eq_refl made.id in
    let hash_self = str_eq_refl input.key_hash in
    let it : k ≡ made = ground (arith, id_self) in
    (
      ground (arith, it, hash_self, id_self),
      rw it refl,
      rw it refl,
      rw it (ground arith),
      rw it (ground arith),
    )
