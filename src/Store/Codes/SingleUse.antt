-- ===== src/Store/Codes/SingleUse.antt =====
-- Redemption of a pairing code under any interleaving of transactions on pairing_codes.
use homesink.Base.{
  ℕ, ◌+◌, ◌≤◌, ◌≡◌, refl, ◌⊎◌, inl, inr, Bool, true, false, List, [], ◌∷◌, none, some, Str, str_eq,
  str_eq_sound, str_eq_refl, arith, if◌then◌else◌, select, update, Bool-cases, map, All,
}
use homesink.Base.Table.{
  select-update_cleared, select-update-none, select-delete-none, select-append_other, affected-zero,
  affected-pos,
}
use homesink.Store.{Database, CodeRow, Result, ok, err}
use homesink.Store.Codes.{
  PairingCode, code_row, has_hash, is_redeemable, burn, count_attempt, expired_before,
  insert_pairing_code, mark_pairing_code_used, increment_pairing_code_attempts,
  delete_pairing_codes_before,
}

-- One transaction on the table: what it is asked, and whether the driver fails it.
pub data Call : Type 0 where
  insert : Bool → PairingCode → Call
  mark : Bool → ℕ → Str → Call
  count : Bool → Str → Call
  sweep : Bool → ℕ → Call

unfoldable pub step : Call → Database → Database
step (insert fault pc) db = (insert_pairing_code fault pc db).1
step (mark fault now h) db = (mark_pairing_code_used fault now h db).1
step (count fault h) db = (increment_pairing_code_attempts fault h db).1
step (sweep fault t) db = (delete_pairing_codes_before fault t db).1

abbrev succeeds {ℓ} : {A : Type ℓ} → Result A → ℕ
succeeds (ok a) = 1
succeeds (err e) = 0

-- 1 if the transaction redeems the code `h`.
unfoldable pub win : Str → Call → Database → ℕ
win h (mark fault now k) db =
    if str_eq k h then succeeds (mark_pairing_code_used fault now k db).0 else 0
win h (insert fault pc) db = 0
win h (count fault k) db = 0
win h (sweep fault t) db = 0

-- How often the code `h` is redeemed along a sequence of transactions.
unfoldable pub wins : Str → List Call → Database → ℕ
unfolding win step
wins h [] db = 0
wins h (c ∷ cs) db = win h c db + wins h cs (step c db)

-- The transaction does not issue the code `h` anew.
abbrev pub Keeps : Str → Call → Type 0
Keeps h (insert fault pc) = str_eq pc.code_hash h ≡ false
Keeps h (mark fault now k) = Unit
Keeps h (count fault k) = Unit
Keeps h (sweep fault t) = Unit

-- No row of the code `h` can be redeemed.
abbrev pub IsSpent : Str → Database → Type 0
IsSpent h db = select (is_redeemable h) db.pairing_codes ≡ none

insert-IsSpent :
    (fault : Bool) (pc : PairingCode) (h : Str) (db : Database)
    → str_eq pc.code_hash h ≡ false
    → IsSpent h db
    → IsSpent h (insert_pairing_code fault pc db).1
unfolding insert_pairing_code
insert-IsSpent true pc h db apart s = s
insert-IsSpent false pc h db apart s =
    ground (arith, select-append_other (is_redeemable h) db.pairing_codes (code_row pc))

mark-IsSpent :
    (fault : Bool) (now : ℕ) (k h : Str) (db : Database)
    → IsSpent h db
    → IsSpent h (mark_pairing_code_used fault now k db).1
unfolding mark_pairing_code_used
mark-IsSpent true now k h db s = s
mark-IsSpent false now k h db s =
    let kept : select (is_redeemable h) (update (is_redeemable k) (burn now) db.pairing_codes)
        ≡ none =
      select-update-none (is_redeemable k) (is_redeemable h) (burn now) db.pairing_codes
        (λ x t e. ground arith) s in
    ground arith

count-IsSpent :
    (fault : Bool) (k h : Str) (db : Database)
    → IsSpent h db
    → IsSpent h (increment_pairing_code_attempts fault k db).1
unfolding increment_pairing_code_attempts
count-IsSpent true k h db s = s
count-IsSpent false k h db s =
    let kept : select (is_redeemable h) (update (has_hash k) count_attempt db.pairing_codes)
        ≡ none =
      select-update-none (has_hash k) (is_redeemable h) count_attempt db.pairing_codes (λ x t e. e)
        s in
    ground arith

sweep-IsSpent :
    (fault : Bool) (t : ℕ) (h : Str) (db : Database)
    → IsSpent h db
    → IsSpent h (delete_pairing_codes_before fault t db).1
unfolding delete_pairing_codes_before
sweep-IsSpent true t h db s = s
sweep-IsSpent false t h db s =
    select-delete-none (expired_before t) (is_redeemable h) db.pairing_codes s

pub step-IsSpent :
    (c : Call) (h : Str) (db : Database) → Keeps h c → IsSpent h db → IsSpent h (step c db)
unfolding step
step-IsSpent (insert fault pc) h db k s = insert-IsSpent fault pc h db k s
step-IsSpent (mark fault now j) h db k s = mark-IsSpent fault now j h db s
step-IsSpent (count fault j) h db k s = count-IsSpent fault j h db s
step-IsSpent (sweep fault t) h db k s = sweep-IsSpent fault t h db s

-- A redemption succeeds exactly if the driver does and the table has a redeemable row.
pub mark_succeeds :
    (now : ℕ) (h : Str) (db : Database) {r : CodeRow}
    → select (is_redeemable h) db.pairing_codes ≡ some r
    → mark_pairing_code_used false now h db
      ≡ (ok tt, record db { pairing_codes = update (is_redeemable h) (burn now) db.pairing_codes })
unfolding mark_pairing_code_used
mark_succeeds now h db {r} e =
    ground (arith, affected-pos (is_redeemable h) db.pairing_codes {a = r} e)

pub mark_spent :
    (fault : Bool) (now : ℕ) (h : Str) (db : Database)
    → IsSpent h db
    → succeeds (mark_pairing_code_used fault now h db).0 ≡ 0
unfolding mark_pairing_code_used
mark_spent true now h db s = refl
mark_spent false now h db s = ground (arith, affected-zero (is_redeemable h) db.pairing_codes s)

pub mark_wins_IsSpent :
    (fault : Bool) (now : ℕ) (h : Str) (db : Database)
    → (succeeds (mark_pairing_code_used fault now h db).0 ≡ 0)
      ⊎ ((succeeds (mark_pairing_code_used fault now h db).0 ≡ 1)
          × IsSpent h (mark_pairing_code_used fault now h db).1)
unfolding mark_pairing_code_used
mark_wins_IsSpent true now h db = inl refl
mark_wins_IsSpent false now h db = ground (
  arith,
  select-update_cleared (is_redeemable h) (is_redeemable h) (burn now) db.pairing_codes (λ x e. e)
      (λ x e. ground arith),
)

win-spent : (h : Str) (c : Call) (db : Database) → IsSpent h db → win h c db ≡ 0
unfolding win
win-spent h (insert fault pc) db s = refl
win-spent h (mark fault now k) db s = elim (Bool-cases (str_eq k h)) [
  | inl same ↦ rw (str_eq_sound k h same, str_eq_refl h) (mark_spent fault now h db s)
  | inr other ↦ rw other
]
win-spent h (count fault k) db s = refl
win-spent h (sweep fault t) db s = refl

wins-spent :
    (h : Str) (cs : List Call) (db : Database) → All (Keeps h) cs → IsSpent h db → wins h cs db ≡ 0
unfolding wins
wins-spent h [] db k s = refl
wins-spent h (c ∷ cs) db k s =
    omega (arith, win-spent h c db s, wins-spent h cs (step c db) k.1 (step-IsSpent c h db k.0 s))

win-cases :
    (h : Str) (c : Call) (db : Database)
    → (win h c db ≡ 0) ⊎ ((win h c db ≡ 1) × IsSpent h (step c db))
unfolding win step
win-cases h (insert fault pc) db = inl refl
win-cases h (mark fault now k) db = elim (Bool-cases (str_eq k h)) [
  | inl same ↦ rw (str_eq_sound k h same, str_eq_refl h) (mark_wins_IsSpent fault now h db)
  | inr other ↦ inl (rw other)
]
win-cases h (count fault k) db = inl refl
win-cases h (sweep fault t) db = inl refl

-- Along any sequence of transactions that does not issue the code anew, faults included, at most
-- one redemption of the code succeeds.
pub wins-le-one : (h : Str) (cs : List Call) (db : Database) → All (Keeps h) cs → wins h cs db ≤ 1
unfolding wins
wins-le-one h [] db k = omega arith
wins-le-one h (c ∷ cs) db k = elim (win-cases h c db) [
  | inl lost ↦ omega (arith, lost, wins-le-one h cs (step c db) k.1)
  | inr (won, spent) ↦ omega (arith, won, wins-spent h cs (step c db) k.1 spent)
]

-- Devices that race for one code: each redeems it in its own transaction, at its own time.
abbrev pub race : Str → List ℕ → List Call
race h times = map (λ now. mark false now h) times

race-Keeps : (h : Str) (times : List ℕ) → All (Keeps h) (race h times)
race-Keeps h [] = tt
race-Keeps h (now ∷ times) = (tt, race-Keeps h times)

first_mark :
    (h : Str) (now : ℕ) (db : Database) {r : CodeRow}
    → select (is_redeemable h) db.pairing_codes ≡ some r
    → win h (mark false now h) db ≡ 1
unfolding win
first_mark h now db {r} e = rw (str_eq_refl h, mark_succeeds now h db {r = r} e)

-- If the code is redeemable and the driver does not fail, a race of one or more devices has
-- exactly one winner.
pub wins-race :
    (h : Str) (now : ℕ) (times : List ℕ) (db : Database) {r : CodeRow}
    → select (is_redeemable h) db.pairing_codes ≡ some r
    → wins h (race h (now ∷ times)) db ≡ 1
unfolding wins
wins-race h now times db {r} e = elim (win-cases h (mark false now h) db) [
  | inl lost ↦ absurd (omega (arith, lost, first_mark h now db {r = r} e))
  | inr (won, spent) ↦
      let rest : wins h (race h times) (step (mark false now h) db) ≡ 0 =
        wins-spent h (race h times) _ (race-Keeps h times) spent in
      omega (arith, won, rest)
]
