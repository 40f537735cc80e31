-- ===== src/Store/Meta.antt =====
-- Meta and SetMeta of backend/internal/store/migrate.go: the server_meta table.
use homesink.Base.{Bool, List, [], ◌∷◌, ◌++◌, Option, none, some, Str, str_eq, select, update}
use homesink.Store.{Database, MetaRow, Result, ok, err, not_found, with_tx, with_read}

abbrev pub has_key : Str → MetaRow → Bool
has_key key r = str_eq r.key key

unfoldable pub found_meta : Option MetaRow → Result Str
found_meta none = err not_found
found_meta (some r) = ok r.value

unfoldable pub meta : Bool → Str → Database → Result Str
meta fault key = with_read fault (λ db. found_meta (select (has_key key) db.server_meta))

abbrev pub with_value : Str → MetaRow → MetaRow
with_value value r = record r { value = value }

-- INSERT ... ON CONFLICT (key) DO UPDATE, by the row that it conflicts with.
unfoldable pub put : Str → Str → Option MetaRow → List MetaRow → List MetaRow
put key value none rows = rows ++ record { key = key; value = value } ∷ []
put key value (some r) rows = update (has_key key) (with_value value) rows

unfoldable pub set_meta_tx : Str → Str → Database → Result (Unit {0} × Database)
set_meta_tx key value db = ok (
  tt,
  record db { server_meta = put key value (select (has_key key) db.server_meta) db.server_meta },
)

unfoldable pub set_meta : Bool → Str → Str → Database → Result (Unit {0}) × Database
set_meta fault key value = with_tx fault (set_meta_tx key value)
