-- ===== src/Store/Codes.antt =====
-- backend/internal/store/devices.go: the pairing_codes table.
pub mod SingleUse
use homesink.Base.{
  ℕ, ◌+◌, Bool, true, false, not, ◌&&◌, [], ◌∷◌, ◌++◌, Option, none, some, Str, str_eq, ltb, ◌==◌,
  if◌then◌else◌, select, update, delete, affected,
}
use homesink.Store.{
  Database, CodeRow, Result, ok, err, not_found, already_exists, failure, with_tx, with_read,
  null_int, scan_int,
}

pub record PairingCode : Type 0 where
  pub code_hash : Str
  pub expires_at_ms : ℕ
  pub used_at_ms : ℕ
  pub attempts : ℕ

-- (p PairingCode) Used().
unfoldable pub used : PairingCode → Bool
used p = not (p.used_at_ms == 0)

abbrev pub has_hash : Str → CodeRow → Bool
has_hash h r = str_eq r.code_hash h

abbrev pub is_unused : CodeRow → Bool
is_unused r = elim r.used_at [ none ↦ true | some _ ↦ false ]

unfoldable pub code_row : PairingCode → CodeRow
unfolding null_int
code_row pc = record {
  code_hash = pc.code_hash;
  expires_at = pc.expires_at_ms;
  used_at = null_int pc.used_at_ms;
  attempts = pc.attempts;
}

unfoldable pub insert_pairing_code_tx : PairingCode → Database → Result (Unit {0} × Database)
unfolding code_row
insert_pairing_code_tx pc db = elim (select (has_hash pc.code_hash) db.pairing_codes) [
  | some _ ↦ err already_exists
  | none ↦ ok (tt, record db { pairing_codes = db.pairing_codes ++ code_row pc ∷ [] })
]

unfoldable pub insert_pairing_code : Bool → PairingCode → Database → Result (Unit {0}) × Database
unfolding with_tx insert_pairing_code_tx
insert_pairing_code fault pc = with_tx fault (insert_pairing_code_tx pc)

unfoldable pub scan_code : CodeRow → PairingCode
unfolding scan_int
scan_code r = record {
  code_hash = r.code_hash;
  expires_at_ms = r.expires_at;
  used_at_ms = scan_int r.used_at;
  attempts = r.attempts;
}

unfoldable pub found_code : Option CodeRow → Result PairingCode
unfolding scan_code
found_code none = err not_found
found_code (some r) = ok (scan_code r)

unfoldable pub pairing_code_by_hash : Bool → Str → Database → Result PairingCode
unfolding with_read found_code
pairing_code_by_hash fault h =
    with_read fault (λ db. found_code (select (has_hash h) db.pairing_codes))

-- WHERE code_hash = ? AND used_at IS NULL.
abbrev pub is_redeemable : Str → CodeRow → Bool
is_redeemable h r = has_hash h r && is_unused r

abbrev pub burn : ℕ → CodeRow → CodeRow
burn now r = record r { used_at = some now }

unfoldable pub mark_pairing_code_used_tx : ℕ → Str → Database → Result (Unit {0} × Database)
mark_pairing_code_used_tx now h db =
    if affected (is_redeemable h) db.pairing_codes == 0
    then elim (select (has_hash h) db.pairing_codes) [
      | none ↦ err not_found
      | some _ ↦ err already_exists
    ]
    else ok (tt, record db { pairing_codes = update (is_redeemable h) (burn now) db.pairing_codes })

unfoldable pub mark_pairing_code_used : Bool → ℕ → Str → Database → Result (Unit {0}) × Database
unfolding with_tx mark_pairing_code_used_tx
mark_pairing_code_used fault now h = with_tx fault (mark_pairing_code_used_tx now h)

abbrev pub count_attempt : CodeRow → CodeRow
count_attempt r = record r { attempts = r.attempts + 1 }

-- The UPDATE, requireOneRow, and the SELECT of the new total.
unfoldable pub increment_attempts_tx : Str → Database → Result (ℕ × Database)
increment_attempts_tx h db =
    if affected (has_hash h) db.pairing_codes == 0
    then err not_found
    else let rows = update (has_hash h) count_attempt db.pairing_codes in
      elim (select (has_hash h) rows) [
        | none ↦ err failure
        | some r ↦ ok (r.attempts, record db { pairing_codes = rows })
      ]

unfoldable pub increment_pairing_code_attempts : Bool → Str → Database → Result ℕ × Database
unfolding with_tx increment_attempts_tx
increment_pairing_code_attempts fault h = with_tx fault (increment_attempts_tx h)

abbrev pub expired_before : ℕ → CodeRow → Bool
expired_before t r = ltb r.expires_at t

unfoldable pub delete_codes_before_tx : ℕ → Database → Result (ℕ × Database)
delete_codes_before_tx t db = ok (
  affected (expired_before t) db.pairing_codes,
  record db { pairing_codes = delete (expired_before t) db.pairing_codes },
)

unfoldable pub delete_pairing_codes_before : Bool → ℕ → Database → Result ℕ × Database
unfolding with_tx delete_codes_before_tx
delete_pairing_codes_before fault t = with_tx fault (delete_codes_before_tx t)
