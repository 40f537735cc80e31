-- ===== src/Store/Jobs/Exclusive.antt =====
-- How many workers a job has at a time.
use homesink.Base.{
  ℕ, ◌≤◌, ◌<◌, ◌≡◌, ◌≢◌, refl, sym, subst, ◌∙◌, ◌⊎◌, inl, inr, Bool, true, false, ◌&&◌, List, [],
  ◌∷◌, none, Str, arith, ◌==◌, ℕ_discrete, select, affected, Bool-cases, Option-cases, All,
}
use homesink.Base.Table.{
  select-update_cleared, select-update-none, select-append_other, All_of_select-none, select-All,
}
use homesink.Store.{Database, JobRow}
use homesink.Store.Jobs.{
  NewJob, has_job_id, is_due, is_queued, claim, complete, fail, new_row, scan_job, enqueue_job,
  claim_job, complete_job, complete_job_tx, fail_job, fail_job_tx,
}
use homesink.Store.Jobs.Ids.{
  IsWellFormed, Call, enqueue, claims, completes, fails, requeues, step, step-IsWellFormed,
}
use homesink.Store.Jobs.Claim.{claim_job-IsNext}
use homesink.Store.Jobs.Trace.{taken, times_taken, failed_taken}

abbrev is_open : ℕ → JobRow → Bool
is_open id r = has_job_id id r && is_queued r.state

-- The job has been issued, and no row of it is queued.
pub record IsHeld (id : ℕ) (db : Database) : Type 0 where
  pub issued : id < db.next_job_id
  pub closed : select (is_open id) db.jobs ≡ none

-- The transaction does not put the job back into the queue: it is neither a FailJob of this job
-- nor the RequeueRunningJobs of a restart.
abbrev pub Leaves : ℕ → Call → Type 0
Leaves id (enqueue fault now j) = Unit
Leaves id (claims fault now) = Unit
Leaves id (completes fault now k) = Unit
Leaves id (fails fault now k cause next max_attempts) = k ≢ id
Leaves id (requeues fault now) = ⊥

enqueue-IsHeld :
    (id : ℕ) (fault : Bool) (now : ℕ) (j : NewJob) (db : Database)
    → IsHeld id db
    → IsHeld id (enqueue_job fault now j db).1
unfolding enqueue_job
enqueue-IsHeld id true now j db h = h
enqueue-IsHeld id false now j db h = record {
  issued = omega arith;
  closed =
      select-append_other (is_open id) db.jobs (new_row now j db.next_job_id) (ground arith)
      ∙ h.closed;
}

claimed_closed : (id now : ℕ) (x : JobRow) → is_open id (claim now x) ≡ false
unfolding claim
claimed_closed id now x = ground arith

claim-IsHeld :
    (id : ℕ) (fault : Bool) (now : ℕ) (db : Database)
    → IsWellFormed db
    → IsHeld id db
    → IsHeld id (claim_job fault now db).1
unfolding claim_job
claim-IsHeld id true now db w h = h
claim-IsHeld id false now db w h = elim (claim_job-IsNext now db w) [
  | inl (_, e) ↦ subst (λ x. IsHeld id x.1) (sym e) h
  | inr (r, next, e, after) ↦
      subst (λ x. IsHeld id x.1) (sym e)
        (record {
          issued = h.issued;
          closed =
              select-update-none (has_job_id r.job_id) (is_open id) (claim now) db.jobs
                (λ x t u. claimed_closed id now x) h.closed;
        })
]

complete-IsHeld :
    (id : ℕ) (fault : Bool) (now k : ℕ) (db : Database)
    → IsHeld id db
    → IsHeld id (complete_job fault now k db).1
unfolding complete_job
complete-IsHeld id true now k db h = h
complete-IsHeld id false now k db h = elim (Bool-cases (affected (has_job_id k) db.jobs == 0)) [
  | inl e ↦ rw (e, complete_job_tx) h
  | inr e ↦
      rw (e, complete_job_tx)
        (record {
          issued = h.issued;
          closed =
              select-update-none (has_job_id k) (is_open id) (complete now) db.jobs
                (λ x t u. ground arith) h.closed;
        })
]

fail-IsHeld :
    (id : ℕ) (fault : Bool) (now k : ℕ) (cause : Str) (next max_attempts : ℕ) (db : Database)
    → k ≢ id
    → IsHeld id db
    → IsHeld id (fail_job fault now k cause next max_attempts db).1
unfolding fail_job
fail-IsHeld id true now k cause next max_attempts db other h = h
fail-IsHeld id false now k cause next max_attempts db other h =
    elim (Option-cases (select (has_job_id k) db.jobs)) [
      | inl e ↦ rw (e, fail_job_tx) h
      | inr (r, e) ↦
          rw (e, fail_job_tx)
            (record {
              issued = h.issued;
              closed =
                  select-update-none (has_job_id k) (is_open id) (fail now cause _ _) db.jobs
                    (λ x t u. ground arith) h.closed;
            })
    ]

step-IsHeld :
    (id : ℕ) (c : Call) (db : Database)
    → IsWellFormed db
    → Leaves id c
    → IsHeld id db
    → IsHeld id (step c db)
unfolding step
step-IsHeld id (enqueue fault now j) db w l h = enqueue-IsHeld id fault now j db h
step-IsHeld id (claims fault now) db w l h = claim-IsHeld id fault now db w h
step-IsHeld id (completes fault now k) db w l h = complete-IsHeld id fault now k db h
step-IsHeld id (fails fault now k cause next max_attempts) db w l h =
    fail-IsHeld id fault now k cause next max_attempts db l h
step-IsHeld id (requeues fault now) db w l h = absurd l

open_false : (id now : ℕ) (r : JobRow) → is_open id r ≡ false → is_due now r ≡ true → r.job_id ≢ id
open_false id now r h k = ground arith

-- A held job is not handed out.
taken-IsHeld :
    (id : ℕ) (c : Call) (db : Database) → IsWellFormed db → IsHeld id db → taken id c db ≡ 0
unfolding taken scan_job claim
taken-IsHeld id (claims true now) db w h = failed_taken id now db
taken-IsHeld id (claims false now) db w h = elim (claim_job-IsNext now db w) [
  | inl (_, e) ↦ rw e
  | inr (r, next, e, after) ↦
      let shut : is_open id r ≡ false =
        select-All (λ x. is_open id x ≡ false) (has_job_id r.job_id) db.jobs
          (All_of_select-none (is_open id) db.jobs h.closed) next.0 in
      rw e (ground (arith, open_false id now r shut next.1))
]
taken-IsHeld id (enqueue fault now j) db w h = refl
taken-IsHeld id (completes fault now k) db w h = refl
taken-IsHeld id (fails fault now k cause next max_attempts) db w h = refl
taken-IsHeld id (requeues fault now) db w h = refl

Taken : ℕ → Call → Database → Type 0
Taken id c db = (taken id c db ≡ 0) ⊎ ((taken id c db ≡ 1) × IsHeld id (step c db))

claim-Taken : (id now : ℕ) (db : Database) → IsWellFormed db → Taken id (claims false now) db
unfolding Taken taken step scan_job claim
claim-Taken id now db w = elim (claim_job-IsNext now db w) [
  | inl (_, e) ↦ inl (rw e)
  | inr (r, next, e, after) ↦ elim (ℕ_discrete r.job_id id) [
    | no other ↦ inl (rw e (ground arith))
    | yes same ↦ inr (
      rw e (ground arith),
      subst (λ x. IsHeld id x.1) (sym e)
          (record {
            issued = rw (← same) (
                select-All (λ x. x.job_id < db.next_job_id) (has_job_id r.job_id) db.jobs w.below
                  next.0);
            closed =
                select-update_cleared (has_job_id r.job_id) (is_open id) (claim now) db.jobs
                  (λ x t. ground arith) (λ x t. claimed_closed id now x);
          }),
    )
  ]
]

Taken-cases : (id : ℕ) (c : Call) (db : Database) → IsWellFormed db → Taken id c db
unfolding Taken taken
Taken-cases id (claims true now) db w = inl (failed_taken id now db)
Taken-cases id (claims false now) db w = claim-Taken id now db w
Taken-cases id (enqueue fault now j) db w = inl refl
Taken-cases id (completes fault now k) db w = inl refl
Taken-cases id (fails fault now k cause next max_attempts) db w = inl refl
Taken-cases id (requeues fault now) db w = inl refl

times_taken-IsHeld :
    (id : ℕ) (cs : List Call) (db : Database)
    → IsWellFormed db
    → All (Leaves id) cs
    → IsHeld id db
    → times_taken id cs db ≡ 0
unfolding times_taken
times_taken-IsHeld id [] db w l h = refl
times_taken-IsHeld id (c ∷ cs) db w l h = omega (
  arith,
  taken-IsHeld id c db w h,
  times_taken-IsHeld id cs (step c db) (step-IsWellFormed c db w) l.1 (step-IsHeld id c db w l.0 h),
)

-- From a table whose job ids are distinct and below the counter, along any sequence of
-- transactions with no FailJob of the job and no RequeueRunningJobs, which could put it back into the
-- queue, at most one ClaimJob hands it to a worker.
pub times_taken-le-one :
    (id : ℕ) (cs : List Call) (db : Database)
    → IsWellFormed db
    → All (Leaves id) cs
    → times_taken id cs db ≤ 1
unfolding times_taken Taken
times_taken-le-one id [] db w l = omega arith
times_taken-le-one id (c ∷ cs) db w l =
    let w' : IsWellFormed (step c db) = step-IsWellFormed c db w in
    elim (Taken-cases id c db w) [
      | inl not ↦ omega (arith, not, times_taken-le-one id cs (step c db) w' l.1)
      | inr (one, held) ↦ omega (arith, one, times_taken-IsHeld id cs (step c db) w' l.1 held)
    ]
