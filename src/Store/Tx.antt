-- ===== src/Store/Tx.antt =====
-- What a transaction of backend/internal/store/sqlite.go keeps.
use homesink.Base.{Bool, true, false}
use homesink.Store.{Database, Result, ok, err, commit, with_tx}

-- A body that succeeds leaves `P` true.
abbrev pub After {ℓ κ} : {A : Type ℓ} → (Database → Type κ) → Result (A × Database) → Type κ
After P (err e) = Unit
After P (ok (a, db)) = P db

commit-keeps {ℓ κ} :
    {A : Type ℓ} (P : Database → Type κ) (db : Database) (r : Result (A × Database))
    → P db
    → After P r
    → P (commit db r).1
unfolding commit
commit-keeps P db (err e) p q = p
commit-keeps P db (ok (a, db')) p q = q

-- What the body keeps, the transaction keeps, rolled back or not.
pub with_tx-keeps {ℓ κ} :
    {A : Type ℓ} (P : Database → Type κ) (fault : Bool) (body : Database → Result (A × Database))
    (db : Database)
    → P db
    → After P (body db)
    → P (with_tx fault body db).1
unfolding with_tx
with_tx-keeps P true body db p q = p
with_tx-keeps P false body db p q = commit-keeps P db (body db) p q
