-- ===== src/MemStore/Pairing/Devices/Runs.antt =====
-- Sequences of device calls on MemStore and on the SQLite store.
use homesink.Base.Int.{ℤ}
use homesink.Base.{
  ℕ, ◌≡◌, ◌≤◌, refl, ap, ap₂, false, List, [], ◌∷◌, Option, none, some, Str, All, select,
}
use homesink.Store.{Database, empty, DeviceRow, Result, with_tx, with_read}
use homesink.Store.Devices.{
  Device, revoked, device_row, scan_device, has_id, is_null, insert_device_tx, found_device,
  after_find, revoke_device_tx, touch_device_tx, coalesce,
}
use homesink.Store.Devices
use homesink.MemStore.{MemStore, new_mem_store}
use homesink.MemStore.Maps.{get}
use homesink.MemStore.Blobs.{found}
use homesink.MemStore.Pairing.{insert_device, device_by_id, revoke_device, touch_device}
use homesink.MemStore.Pairing.Devices.{SameDevice, Agrees, Refines}
use homesink.MemStore.Pairing.Devices.Calls.{revoke-Refines, touch-Refines, insert-Refines}

-- The calls that change devices, on either store.
pub data Call : Type 0 where
  enrol : Device → Call
  revoke : ℕ → Str → Call
  touch : ℕ → Str → ℤ → Call

-- A clock that reads 0 would leave MemStore's device unrevoked.
abbrev pub IsTimed : Call → Type 0
IsTimed (enrol d) = Unit
IsTimed (revoke now id) = 1 ≤ now
IsTimed (touch now id version) = Unit

unfoldable pub in_memory : Call → MemStore → Result (Unit {0}) × MemStore
in_memory (enrol d) m = insert_device d m
in_memory (revoke now id) m = revoke_device now id m
in_memory (touch now id version) m = touch_device now id version m

unfoldable pub in_sqlite : Call → Database → Result (Unit {0}) × Database
in_sqlite (enrol d) db = Devices.insert_device false d db
in_sqlite (revoke now id) db = Devices.revoke_device false now id db
in_sqlite (touch now id version) db = Devices.touch_device false now id version db

call-Refines :
    (c : Call) (m : MemStore) (db : Database)
    → IsTimed c
    → Agrees m db
    → Refines (in_memory c m) (in_sqlite c db)
unfolding in_memory in_sqlite insert_device revoke_device touch_device with_tx Devices.insert_device
    Devices.revoke_device Devices.touch_device
call-Refines (enrol d) m db h a = insert-Refines d m db a
call-Refines (revoke now id) m db h a = revoke-Refines now id m db h a
call-Refines (touch now id version) m db h a = touch-Refines now id version m db a

unfoldable pub run_memory : List Call → MemStore → List (Result (Unit {0})) × MemStore
unfolding in_memory
run_memory [] m = ([], m)
run_memory (c ∷ cs) m =
    let (r, m') = in_memory c m in let (rs, end) = run_memory cs m' in (r ∷ rs, end)

unfoldable pub run_sqlite : List Call → Database → List (Result (Unit {0})) × Database
unfolding in_sqlite
run_sqlite [] db = ([], db)
run_sqlite (c ∷ cs) db =
    let (r, db') = in_sqlite c db in let (rs, end) = run_sqlite cs db' in (r ∷ rs, end)

pub record SameRun (x : List (Result (Unit {0})) × MemStore)
    (y : List (Result (Unit {0})) × Database) : Type 0 where
  pub results : x.0 ≡ y.0
  pub states : Agrees x.1 y.1

run-SameRun :
    (cs : List Call) (m : MemStore) (db : Database)
    → All IsTimed cs
    → Agrees m db
    → SameRun (run_memory cs m) (run_sqlite cs db)
unfolding run_memory run_sqlite
run-SameRun [] m db t a = record { results = refl; states = a }
run-SameRun (c ∷ cs) m db t a =
    let one = call-Refines c m db t.0 a in
    let rest = run-SameRun cs (in_memory c m).1 (in_sqlite c db).1 t.1 one.states in
    record { results = ap₂ ◌∷◌ one.result rest.results; states = rest.states }

empty-Agrees : Agrees new_mem_store empty
unfolding get select
empty-Agrees = record { at = λ id. refl }

same_read : (d : Option Device) (o : Option DeviceRow) → SameDevice d o → found d ≡ found_device o
unfolding found_device
same_read d none a = ap found a
same_read d (some r) a = ap found a.0

-- From empty stores, whatever sequence of InsertDevice, RevokeDevice and TouchDevice is called with a
-- clock past 0, MemStore returns the same results as the SQLite store whose driver does not fail,
-- error values included, and DeviceByID then reads the same for every id from both.
pub device_runs_agree :
    (cs : List Call) (id : Str)
    → All IsTimed cs
    → ((run_memory cs new_mem_store).0 ≡ (run_sqlite cs empty).0)
      × (device_by_id id (run_memory cs new_mem_store).1
          ≡ Devices.device_by_id false id (run_sqlite cs empty).1)
unfolding device_by_id Devices.device_by_id with_read
device_runs_agree cs id t =
    let same = run-SameRun cs new_mem_store empty t empty-Agrees in
    (same.results, same_read _ _ (same.states.at id))
