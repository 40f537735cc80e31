-- ===== src/Store/Jobs/Trace.antt =====
-- Sequences of transactions on the queue: how often one job is claimed.
use homesink.Base.{
  ℕ, ◌+◌, ◌≡◌, ◌≢◌, refl, inl, inr, Bool, true, false, List, [], ◌∷◌, ◌++◌, Option, none, some, Str,
  arith, ◌==◌, ℕ_discrete, if◌then◌else◌, select, update, affected, Bool-cases, Option-cases,
}
use homesink.Base.Table.{select-update_other}
use homesink.Store.{Database, JobRow, Result, ok, err}
use homesink.Store.Jobs.{
  NewJob, Job, has_job_id, is_running, claim, complete, fail, requeue, new_row, scan_job,
  enqueue_job, claim_job, complete_job, complete_job_tx, fail_job, fail_job_tx,
  requeue_running_jobs,
}
use homesink.Store.Jobs.Ids.{
  IsWellFormed, Call, enqueue, claims, completes, fails, requeues, step, step-IsWellFormed,
}
use homesink.Store.Jobs.Claim.{claim_job-IsNext}

abbrev hit : ℕ → Result Job → ℕ
hit id (ok j) = if j.job_id == id then 1 else 0
hit id (err e) = 0

-- 1 if the transaction hands the job `id` to a worker.
unfoldable pub taken : ℕ → Call → Database → ℕ
taken id (claims fault now) db = hit id (claim_job fault now db).0
taken id (enqueue fault now j) db = 0
taken id (completes fault now k) db = 0
taken id (fails fault now k cause next max_attempts) db = 0
taken id (requeues fault now) db = 0

unfoldable pub run : List Call → Database → Database
run [] db = db
run (c ∷ cs) db = run cs (step c db)

-- How often the job `id` is handed to a worker along a sequence of transactions.
unfoldable pub times_taken : ℕ → List Call → Database → ℕ
times_taken id [] db = 0
times_taken id (c ∷ cs) db = taken id c db + times_taken id cs (step c db)

abbrev attempts_in : Option JobRow → ℕ
attempts_in none = 0
attempts_in (some r) = r.attempts

-- The attempts column of the job; 0 for a job that is not there.
abbrev pub attempts_of : ℕ → Database → ℕ
attempts_of id db = attempts_in (select (has_job_id id) db.jobs)

update_attempts :
    (p : JobRow → Bool) (f : JobRow → JobRow) (id : ℕ) (rs : List JobRow)
    → ((r : JobRow) → (f r).job_id ≡ r.job_id)
    → ((r : JobRow) → (f r).attempts ≡ r.attempts)
    → attempts_in (select (has_job_id id) (update p f rs)) ≡ attempts_in (select (has_job_id id) rs)
unfolding select update
update_attempts p f id [] keeps same = refl
update_attempts p f id (r ∷ rs) keeps same =
    ground (arith, keeps r, same r, update_attempts p f id rs keeps same)

append_attempts :
    (id : ℕ) (rs : List JobRow) (x : JobRow)
    → x.attempts ≡ 0
    → attempts_in (select (has_job_id id) (rs ++ x ∷ [])) ≡ attempts_in (select (has_job_id id) rs)
unfolding select
append_attempts id [] x e = ground arith
append_attempts id (r ∷ rs) x e = ground (arith, append_attempts id rs x e)

claimed_same :
    (id now : ℕ) (rs : List JobRow) (r : JobRow)
    → r.job_id ≡ id
    → select (has_job_id r.job_id) rs ≡ some r
    → select (has_job_id r.job_id) (update (has_job_id r.job_id) (claim now) rs)
      ≡ some (claim now r)
    → attempts_in (select (has_job_id id) (update (has_job_id r.job_id) (claim now) rs))
      ≡ attempts_in (select (has_job_id id) rs) + 1
unfolding claim
claimed_same id now rs r same before after = rw (← same) (rw (before, after) refl)

claimed_other :
    (id k now : ℕ) (rs : List JobRow)
    → k ≢ id
    → select (has_job_id id) (update (has_job_id k) (claim now) rs) ≡ select (has_job_id id) rs
unfolding claim
claimed_other id k now rs other =
    select-update_other (has_job_id k) (has_job_id id) (claim now) rs (λ x h. ground arith)
      (λ x h. ground arith)

claim_attempts :
    (id now : ℕ) (db : Database)
    → IsWellFormed db
    → attempts_of id (claim_job false now db).1
      ≡ attempts_of id db + hit id (claim_job false now db).0
unfolding scan_job claim
claim_attempts id now db w = elim (claim_job-IsNext now db w) [
  | inl (_, e) ↦ rw e (omega arith)
  | inr (r, next, e, after) ↦ rw e (elim (ℕ_discrete r.job_id id) [
    | yes same ↦ ground (arith, claimed_same id now db.jobs r same next.0 after)
    | no other ↦ ground (arith, claimed_other id r.job_id now db.jobs other)
  ])
]

complete_attempts :
    (id : ℕ) (fault : Bool) (now k : ℕ) (db : Database)
    → attempts_of id (complete_job fault now k db).1 ≡ attempts_of id db
unfolding complete_job
complete_attempts id true now k db = refl
complete_attempts id false now k db = elim (Bool-cases (affected (has_job_id k) db.jobs == 0)) [
  | inl e ↦ rw (e, complete_job_tx) refl
  | inr e ↦
      rw (e, complete_job_tx)
        (update_attempts (has_job_id k) (complete now) id db.jobs (λ r. refl) (λ r. refl))
]

fail_attempts :
    (id : ℕ) (fault : Bool) (now k : ℕ) (cause : Str) (next max_attempts : ℕ) (db : Database)
    → attempts_of id (fail_job fault now k cause next max_attempts db).1 ≡ attempts_of id db
unfolding fail_job
fail_attempts id true now k cause next max_attempts db = refl
fail_attempts id false now k cause next max_attempts db =
    elim (Option-cases (select (has_job_id k) db.jobs)) [
      | inl e ↦ rw (e, fail_job_tx) refl
      | inr (r, e) ↦
          rw (e, fail_job_tx)
            (update_attempts (has_job_id k) (fail now cause _ _) id db.jobs (λ r. refl) (λ r. refl))
    ]

failed_claim :
    (id now : ℕ) (db : Database)
    → attempts_of id (claim_job true now db).1
      ≡ attempts_of id db + hit id (claim_job true now db).0
unfolding claim_job
failed_claim id now db = omega arith

enqueue_attempts :
    (id : ℕ) (fault : Bool) (now : ℕ) (j : NewJob) (db : Database)
    → attempts_of id (enqueue_job fault now j db).1 ≡ attempts_of id db
unfolding enqueue_job
enqueue_attempts id true now j db = refl
enqueue_attempts id false now j db = append_attempts id db.jobs (new_row now j db.next_job_id) refl

requeue_attempts :
    (id : ℕ) (fault : Bool) (now : ℕ) (db : Database)
    → attempts_of id (requeue_running_jobs fault now db).1 ≡ attempts_of id db
unfolding requeue_running_jobs
requeue_attempts id true now db = refl
requeue_attempts id false now db =
    update_attempts (λ r. is_running r.state) (requeue now) id db.jobs (λ r. refl) (λ r. refl)

-- One transaction adds to a job's attempts exactly the claims of it that the transaction makes.
step_attempts :
    (id : ℕ) (c : Call) (db : Database)
    → IsWellFormed db
    → attempts_of id (step c db) ≡ attempts_of id db + taken id c db
unfolding step taken
step_attempts id (claims true now) db w = failed_claim id now db
step_attempts id (claims false now) db w = claim_attempts id now db w
step_attempts id (enqueue fault now j) db w = omega (arith, enqueue_attempts id fault now j db)
step_attempts id (completes fault now k) db w = omega (arith, complete_attempts id fault now k db)
step_attempts id (fails fault now k cause next max_attempts) db w =
    omega (arith, fail_attempts id fault now k cause next max_attempts db)
step_attempts id (requeues fault now) db w = omega (arith, requeue_attempts id fault now db)

-- From a table whose job ids are distinct and below the counter, along any sequence of
-- transactions, driver faults included, the attempts column of a job grows by exactly the number of times the job was handed to a worker.
pub attempts_of-run :
    (id : ℕ) (cs : List Call) (db : Database)
    → IsWellFormed db
    → attempts_of id (run cs db) ≡ attempts_of id db + times_taken id cs db
unfolding run times_taken
attempts_of-run id [] db w = omega arith
attempts_of-run id (c ∷ cs) db w =
    omega
      (arith, step_attempts id c db w, attempts_of-run id cs (step c db) (step-IsWellFormed c db w))

pub failed_taken : (id now : ℕ) (db : Database) → taken id (claims true now) db ≡ 0
unfolding taken claim_job
failed_taken id now db = refl
