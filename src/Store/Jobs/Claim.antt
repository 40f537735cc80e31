-- ===== src/Store/Jobs/Claim.antt =====
-- Which job ClaimJob takes.
use homesink.Base.{
  ℕ, ◌≡◌, refl, ◌⊎◌, inl, inr, Bool, true, false, ◌&&◌, List, [], ◌∷◌, none, some, arith, select,
  update, keep, Bool-cases, Option-cases, All,
}
use homesink.Base.Table.{select-update}
use homesink.Base.Sort.{IsOrder, keep-All, head?-sort-All, head?-sort-none, head?-sort-IsLeast}
use homesink.Store.{Database, JobRow, ok, err, not_found}
use homesink.Store.Jobs.{
  has_job_id, is_due, job_before, next_due, claim, claim_job, claim_job_tx, scan_job,
}
use homesink.Store.Jobs.Ids.{IsWellFormed, Distinct, select-Distinct}

job_before-IsOrder : IsOrder job_before
unfolding job_before
job_before-IsOrder = record {
  irrefl = λ x. ground arith;
  asymm = λ x y h. ground arith;
  trans = λ x y z h k. ground arith;
}

keep-All_other {κ} :
    (P : JobRow → Type κ) (p : JobRow → Bool) (rs : List JobRow) → All P rs → All P (keep p rs)
keep-All_other P p [] h = tt
keep-All_other P p (r ∷ rs) h = elim (Bool-cases (p r)) [
  | inl t ↦ rw t (h.0, keep-All_other P p rs h.1)
  | inr t ↦ rw t (keep-All_other P p rs h.1)
]

-- What is false of every row kept is false, together with the test, of every row.
All_of_keep :
    (p q : JobRow → Bool) (rs : List JobRow)
    → All (λ r. q r ≡ false) (keep p rs)
    → All (λ r. (p r && q r) ≡ false) rs
All_of_keep p q [] h = tt
All_of_keep p q (r ∷ rs) h = elim (Bool-cases (p r)) [
  | inl t ↦
      let h' : (q r ≡ false) × All (λ x. q x ≡ false) (keep p rs) = rw t at h in
      (rw t h'.0, All_of_keep p q rs h'.1)
  | inr t ↦
      let h' : All (λ x. q x ≡ false) (keep p rs) = rw t at h in (rw t refl, All_of_keep p q rs h')
]

none_kept : (p : JobRow → Bool) (rs : List JobRow) → keep p rs ≡ [] → All (λ r. p r ≡ false) rs
none_kept p [] e = tt
none_kept p (r ∷ rs) e = elim (Bool-cases (p r)) [
  | inl t ↦ let e' : r ∷ keep p rs ≡ [] = rw t at e in absurd (cons≢nil e')
  | inr t ↦ (t, none_kept p rs (rw t at e))
]
  where
    cons≢nil : {x : JobRow} {xs : List JobRow} → x ∷ xs ≡ [] → ⊥
    cons≢nil e = cc

-- `next_due` gives a row of the table that is due, and before which no due row comes.
abbrev pub IsNext : ℕ → List JobRow → JobRow → Type 0
IsNext now rs r =
    (select (has_job_id r.job_id) rs ≡ some r)
    × (is_due now r ≡ true)
    × All (λ y. (is_due now y && job_before y r) ≡ false) rs

next_due-IsNext :
    (now : ℕ) (rs : List JobRow) {r : JobRow}
    → Distinct rs
    → next_due now rs ≡ some r
    → IsNext now rs r
unfolding next_due
next_due-IsNext now rs {r} d e = (
  head?-sort-All job_before (λ s. select (has_job_id s.job_id) rs ≡ some s) (keep (is_due now) rs)
      (keep-All_other (λ s. select (has_job_id s.job_id) rs ≡ some s) (is_due now) rs
        (select-Distinct rs d))
      e,
  head?-sort-All job_before (λ s. is_due now s ≡ true) (keep (is_due now) rs)
      (keep-All (is_due now) rs) e,
  All_of_keep (is_due now) (λ y. job_before y r) rs
      (head?-sort-IsLeast job_before job_before-IsOrder (keep (is_due now) rs) e),
)

next_due-none :
    (now : ℕ) (rs : List JobRow) → next_due now rs ≡ none → All (λ r. is_due now r ≡ false) rs
unfolding next_due
next_due-none now rs e =
    none_kept (is_due now) rs (head?-sort-none job_before (keep (is_due now) rs) e)

-- No due job and no change, or the next job, claimed in its row.
abbrev pub Claims : ℕ → Database → Type 0
Claims now db =
    (All (λ r. is_due now r ≡ false) db.jobs × (claim_job false now db ≡ (err not_found, db)))
    ⊎ ((r : JobRow) × IsNext now db.jobs r
        × (claim_job false now db ≡ (
          ok (scan_job (claim now r)),
          record db { jobs = update (has_job_id r.job_id) (claim now) db.jobs },
        ))
        × (select (has_job_id r.job_id) (update (has_job_id r.job_id) (claim now) db.jobs)
            ≡ some (claim now r)))

-- ClaimJob, where the driver does not fail and the ids are distinct and below the counter: if no
-- queued job is due it answers not found and changes nothing. Else it takes a due job before which no due job comes by
-- (priority, next_attempt_at, job_id), answers it as claimed, and changes that row alone, to
-- running with one attempt more.
pub claim_job-IsNext : (now : ℕ) (db : Database) → IsWellFormed db → Claims now db
unfolding claim_job
claim_job-IsNext now db w = elim (Option-cases (next_due now db.jobs)) [
  | inl e ↦ inl (next_due-none now db.jobs e, rw (e, claim_job_tx))
  | inr (r, e) ↦
      let next : IsNext now db.jobs r = next_due-IsNext now db.jobs w.distinct e in
      inr (
        r,
        next,
        rw (e, claim_job_tx),
        rw (select-update (has_job_id r.job_id) (claim now) db.jobs (λ x h. h), next.0),
      )
]
