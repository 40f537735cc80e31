-- ===== src/Auth/ServerId.antt =====
-- EnsureServerID of backend/internal/auth/pairing.go.
use homesink.Base.{
  ℕ, ◌≡◌, ◌≢◌, refl, sym, ap, All, str_eq_sound, str_eq_ne, subst, ◌∙◌, inl, inr, Bool, true, false,
  List, [], ◌∷◌, Option, none, some, Str, codes, str_eq_refl, if◌then◌else◌, select, Bool-cases,
}
use homesink.Base.Table.{select-update, select-append, select-append_other, select-update_other}
use mathlib.Core.Option
use homesink.Store.{
  Database, MetaRow, Result, ok, err, failure, is_not_found, with_tx, commit, with_read,
}
use homesink.Store.Meta.{has_key, found_meta, meta, with_value, put, set_meta, set_meta_tx}
use homesink.Auth.Token.{new_id}

-- MetaKeyServerID and serverIDPrefix.
abbrev pub server_id_key : Str
server_id_key = codes "server_id"

abbrev pub server_id_prefix : Str
server_id_prefix = codes "srv_"

-- The random bytes (`none` where the read fails), and which calls of the store the driver fails.
pub record IdEnv : Type 0 where
  pub read_fault : Bool
  pub id_bytes : Option (List ℕ)
  pub write_fault : Bool

-- What follows SetMeta, newID and Meta.
unfoldable pub after_set : Str → Result (Unit {0}) × Database → Result Str × Database
after_set id (ok done, db) = (ok id, db)
after_set id (err e, db) = (err e, db)

unfoldable pub create_id : Bool → Database → Option (List ℕ) → Result Str × Database
create_id fault db none = (err failure, db)
create_id fault db (some b) =
    let id = new_id server_id_prefix b in after_set id (set_meta fault server_id_key id db)

unfoldable pub after_meta : IdEnv → Database → Result Str → Result Str × Database
after_meta env db (ok []) = create_id env.write_fault db env.id_bytes
after_meta env db (ok (r ∷ id)) = (ok (r ∷ id), db)
after_meta env db (err e) =
    if is_not_found e then create_id env.write_fault db env.id_bytes else (err e, db)

unfoldable pub ensure_server_id : IdEnv → Database → Result Str × Database
ensure_server_id env db = after_meta env db (meta env.read_fault server_id_key db)

abbrev is_nil : Str → Bool
is_nil [] = true
is_nil (r ∷ s) = false

-- The table holds the id, and it is not empty; where the call failed, nothing is claimed but that
-- the database is as it was.
abbrev Kept : Database → Result Str × Database → Type 0
Kept db (ok id, db') = (meta false server_id_key db' ≡ ok id) × (is_nil id ≡ false)
Kept db (err e, db') = db' ≡ db

put_found :
    (key value : Str) (rows : List MetaRow) (o : Option MetaRow)
    → select (has_key key) rows ≡ o
    → found_meta (select (has_key key) (put key value o rows)) ≡ ok value
unfolding put found_meta
put_found key value rows none e =
    let new : MetaRow = record { key = key; value = value } in
    let mine : (if has_key key new then some new else none) ≡ some new =
      rw (str_eq_refl key) refl in
    ap found_meta (select-append (has_key key) rows new e ∙ mine)
put_found key value rows (some r) e = ap found_meta (
    select-update (has_key key) (with_value value) rows (λ x h. h)
    ∙ ap (Option.map (with_value value)) e)

create-Kept :
    (fault : Bool) (db : Database) (bytes : Option (List ℕ)) → Kept db (create_id fault db bytes)
unfolding create_id after_set set_meta with_tx commit set_meta_tx meta with_read new_id
create-Kept fault db none = refl
create-Kept true db (some b) = refl
create-Kept false db (some b) = (
  put_found server_id_key (new_id server_id_prefix b) db.server_meta
      (select (has_key server_id_key) db.server_meta) refl,
  refl,
)

after_meta-Kept :
    (env : IdEnv) (db : Database) (r : Result Str)
    → ((id : Str) → r ≡ ok id → meta false server_id_key db ≡ ok id)
    → Kept db (after_meta env db r)
unfolding after_meta
after_meta-Kept env db (ok []) h = create-Kept env.write_fault db env.id_bytes
after_meta-Kept env db (ok (r ∷ id)) h = (h (r ∷ id) refl, refl)
after_meta-Kept env db (err e) h = elim (Bool-cases (is_not_found e)) [
  | inl t ↦ rw t (create-Kept env.write_fault db env.id_bytes)
  | inr t ↦ rw t refl
]

read_again :
    (fault : Bool) (db : Database) (id : Str)
    → meta fault server_id_key db ≡ ok id
    → meta false server_id_key db ≡ ok id
unfolding meta with_read
read_again true db id e = cc
read_again false db id e = e

answered :
    (env : IdEnv) (db : Database) (id : Str)
    → is_nil id ≡ false
    → after_meta env db (ok id) ≡ (ok id, db)
unfolding after_meta
answered env db [] h = cc
answered env db (r ∷ id) h = refl

-- SetMeta calls, each with whether the driver fails it.
pub record Write : Type 0 where
  pub fault : Bool
  pub key : Str
  pub value : Str

unfoldable pub write_all : List Write → Database → Database
write_all [] db = db
write_all (w ∷ ws) db = write_all ws (set_meta w.fault w.key w.value db).1

put_other :
    (key value k : Str) (rows : List MetaRow) (o : Option MetaRow)
    → key ≢ k
    → select (has_key k) (put key value o rows) ≡ select (has_key k) rows
unfolding put
put_other key value k rows none n =
    select-append_other (has_key k) rows (record { key = key; value = value }) (str_eq_ne key k n)
put_other key value k rows (some r) n =
    let apart : (x : MetaRow) → has_key key x ≡ true → has_key k x ≡ false =
      λ x e. str_eq_ne x.key k (λ s. n (sym (str_eq_sound x.key key e) ∙ s)) in
    select-update_other (has_key key) (has_key k) (with_value value) rows apart apart

set_other :
    (fault : Bool) (key value : Str) (db : Database)
    → key ≢ server_id_key
    → meta false server_id_key (set_meta fault key value db).1 ≡ meta false server_id_key db
unfolding meta with_read set_meta set_meta_tx with_tx commit
set_other true key value db n = refl
set_other false key value db n =
    ap found_meta
      (put_other key value server_id_key db.server_meta (select (has_key key) db.server_meta) n)

write_all-meta :
    (ws : List Write) (db : Database)
    → All (λ (w : Write). w.key ≢ server_id_key) ws
    → meta false server_id_key (write_all ws db) ≡ meta false server_id_key db
unfolding write_all
write_all-meta [] db h = refl
write_all-meta (w ∷ ws) db h =
    write_all-meta ws (set_meta w.fault w.key w.value db).1 h.1
    ∙ set_other w.fault w.key w.value db h.0

-- The id is stable: once a call has returned it, and whatever SetMeta calls of other keys follow, a
-- call whose read the driver does not fail returns the same id and changes nothing.
pub ensure_server_id-stable :
    (env env' : IdEnv) (db db' : Database) (id : Str) (ws : List Write)
    → ensure_server_id env db ≡ (ok id, db')
    → All (λ (w : Write). w.key ≢ server_id_key) ws
    → env'.read_fault ≡ false
    → ensure_server_id env' (write_all ws db') ≡ (ok id, write_all ws db')
unfolding ensure_server_id
ensure_server_id-stable env env' db db' id ws first others readable =
    let kept : Kept db (ok id, db') = subst (Kept db) first (
      after_meta-Kept env db (meta env.read_fault server_id_key db)
        (read_again env.read_fault db)) in
    let last = write_all ws db' in
    ap (λ fault. after_meta env' last (meta fault server_id_key last)) readable
    ∙ ap (after_meta env' last) (write_all-meta ws db' others ∙ kept.0)
    ∙ answered env' last id kept.1
