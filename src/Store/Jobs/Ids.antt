-- ===== src/Store/Jobs/Ids.antt =====
-- Job ids and the AUTOINCREMENT counter.
use homesink.Base.{
  ℕ, ◌+◌, ◌<◌, ◌≡◌, refl, inl, inr, Bool, true, false, List, [], ◌∷◌, ◌++◌, some, Str, arith, ◌==◌,
  if◌then◌else◌, select, update, affected, Bool-cases, Option-cases, All,
}
use homesink.Store.{Database, JobRow}
use homesink.Store.Jobs.{
  NewJob, has_job_id, next_due, claim, complete, fail, requeue, new_row, is_running, enqueue_job,
  claim_job, claim_job_tx, complete_job, fail_job, fail_job_tx, requeue_running_jobs,
}

abbrev pub Distinct : List JobRow → Type 0
Distinct [] = Unit {0}
Distinct (r ∷ rs) = All (λ s. (s.job_id == r.job_id) ≡ false) rs × Distinct rs

abbrev pub Below : ℕ → List JobRow → Type 0
Below n rs = All (λ r. r.job_id < n) rs

pub record IsWellFormed (db : Database) : Type 0 where
  pub distinct : Distinct db.jobs
  pub below : Below db.next_job_id db.jobs

-- An update that keeps the ids keeps them distinct and below the counter.
update-All :
    (p : JobRow → Bool) (f : JobRow → JobRow) (n : ℕ) (rs : List JobRow)
    → ((r : JobRow) → (f r).job_id ≡ r.job_id)
    → All (λ s. (s.job_id == n) ≡ false) rs
    → All (λ s. (s.job_id == n) ≡ false) (update p f rs)
unfolding update
update-All p f n [] keeps h = tt
update-All p f n (r ∷ rs) keeps h = (ground (arith, keeps r), update-All p f n rs keeps h.1)

update-Below :
    (p : JobRow → Bool) (f : JobRow → JobRow) (n : ℕ) (rs : List JobRow)
    → ((r : JobRow) → (f r).job_id ≡ r.job_id)
    → Below n rs
    → Below n (update p f rs)
unfolding update
update-Below p f n [] keeps h = tt
update-Below p f n (r ∷ rs) keeps h = (ground (arith, keeps r), update-Below p f n rs keeps h.1)

update-Distinct :
    (p : JobRow → Bool) (f : JobRow → JobRow) (rs : List JobRow)
    → ((r : JobRow) → (f r).job_id ≡ r.job_id)
    → Distinct rs
    → Distinct (update p f rs)
unfolding update
update-Distinct p f [] keeps h = tt
update-Distinct p f (r ∷ rs) keeps h =
    let id : (if p r then f r else r).job_id ≡ r.job_id = ground (arith, keeps r) in
    (rw id (update-All p f r.job_id rs keeps h.0), update-Distinct p f rs keeps h.1)

append-All :
    (n : ℕ) (rs : List JobRow) (x : JobRow)
    → All (λ s. (s.job_id == n) ≡ false) rs
    → (x.job_id == n) ≡ false
    → All (λ s. (s.job_id == n) ≡ false) (rs ++ x ∷ [])
append-All n [] x h e = (e, tt)
append-All n (r ∷ rs) x h e = (h.0, append-All n rs x h.1 e)

append-Distinct :
    (rs : List JobRow) (x : JobRow) → Distinct rs → Below x.job_id rs → Distinct (rs ++ x ∷ [])
append-Distinct [] x d b = (tt, tt)
append-Distinct (r ∷ rs) x d b =
    (append-All r.job_id rs x d.0 (ground arith), append-Distinct rs x d.1 b.1)

append-Below :
    (n : ℕ) (rs : List JobRow) (x : JobRow)
    → Below n rs
    → x.job_id ≡ n
    → Below (n + 1) (rs ++ x ∷ [])
append-Below n [] x b e = (omega arith, tt)
append-Below n (r ∷ rs) x b e = (omega arith, append-Below n rs x b.1 e)

updated-IsWellFormed :
    (p : JobRow → Bool) (f : JobRow → JobRow) (db : Database)
    → ((r : JobRow) → (f r).job_id ≡ r.job_id)
    → IsWellFormed db
    → IsWellFormed (record db { jobs = update p f db.jobs })
updated-IsWellFormed p f db keeps w = record {
  distinct = update-Distinct p f db.jobs keeps w.distinct;
  below = update-Below p f db.next_job_id db.jobs keeps w.below;
}

-- One transaction on the queue: whether the driver fails it, the time, and its arguments.
pub data Call : Type 0 where
  enqueue : Bool → ℕ → NewJob → Call
  claims : Bool → ℕ → Call
  completes : Bool → ℕ → ℕ → Call
  fails : Bool → ℕ → ℕ → Str → ℕ → ℕ → Call
  requeues : Bool → ℕ → Call

unfoldable pub step : Call → Database → Database
step (enqueue fault now j) db = (enqueue_job fault now j db).1
step (claims fault now) db = (claim_job fault now db).1
step (completes fault now id) db = (complete_job fault now id db).1
step (fails fault now id cause next max_attempts) db =
    (fail_job fault now id cause next max_attempts db).1
step (requeues fault now) db = (requeue_running_jobs fault now db).1

enqueue-IsWellFormed :
    (fault : Bool) (now : ℕ) (j : NewJob) (db : Database)
    → IsWellFormed db
    → IsWellFormed (enqueue_job fault now j db).1
unfolding enqueue_job
enqueue-IsWellFormed true now j db w = w
enqueue-IsWellFormed false now j db w = record {
  distinct = append-Distinct db.jobs (new_row now j db.next_job_id) w.distinct w.below;
  below = append-Below db.next_job_id db.jobs (new_row now j db.next_job_id) w.below refl;
}

claim-IsWellFormed :
    (fault : Bool) (now : ℕ) (db : Database)
    → IsWellFormed db
    → IsWellFormed (claim_job fault now db).1
unfolding claim_job
claim-IsWellFormed true now db w = w
claim-IsWellFormed false now db w = elim (Option-cases (next_due now db.jobs)) [
  | inl e ↦ rw (e, claim_job_tx) w
  | inr (r, e) ↦
      rw (e, claim_job_tx) (updated-IsWellFormed (has_job_id r.job_id) (claim now) db (λ x. refl) w)
]

complete-IsWellFormed :
    (fault : Bool) (now id : ℕ) (db : Database)
    → IsWellFormed db
    → IsWellFormed (complete_job fault now id db).1
unfolding complete_job
complete-IsWellFormed true now id db w = w
complete-IsWellFormed false now id db w =
    elim (Bool-cases (affected (has_job_id id) db.jobs == 0)) [
      | inl e ↦ rw (e, complete_job) w
      | inr e ↦
          rw (e, complete_job)
            (updated-IsWellFormed (has_job_id id) (complete now) db (λ x. refl) w)
    ]

fail-IsWellFormed :
    (fault : Bool) (now id : ℕ) (cause : Str) (next max_attempts : ℕ) (db : Database)
    → IsWellFormed db
    → IsWellFormed (fail_job fault now id cause next max_attempts db).1
unfolding fail_job
fail-IsWellFormed true now id cause next max_attempts db w = w
fail-IsWellFormed false now id cause next max_attempts db w =
    elim (Option-cases (select (has_job_id id) db.jobs)) [
      | inl e ↦ rw (e, fail_job_tx) w
      | inr (r, e) ↦
          rw (e, fail_job_tx)
            (updated-IsWellFormed (has_job_id id) (fail now cause _ _) db (λ x. refl) w)
    ]

requeue-IsWellFormed :
    (fault : Bool) (now : ℕ) (db : Database)
    → IsWellFormed db
    → IsWellFormed (requeue_running_jobs fault now db).1
unfolding requeue_running_jobs
requeue-IsWellFormed true now db w = w
requeue-IsWellFormed false now db w =
    updated-IsWellFormed (λ r. is_running r.state) (requeue now) db (λ x. refl) w

-- Every transaction keeps the job ids distinct and below the counter.
pub step-IsWellFormed : (c : Call) (db : Database) → IsWellFormed db → IsWellFormed (step c db)
unfolding step
step-IsWellFormed (enqueue fault now j) db w = enqueue-IsWellFormed fault now j db w
step-IsWellFormed (claims fault now) db w = claim-IsWellFormed fault now db w
step-IsWellFormed (completes fault now id) db w = complete-IsWellFormed fault now id db w
step-IsWellFormed (fails fault now id cause next max_attempts) db w =
    fail-IsWellFormed fault now id cause next max_attempts db w
step-IsWellFormed (requeues fault now) db w = requeue-IsWellFormed fault now db w

select-Distinct_tail :
    (r : JobRow) (rs qs : List JobRow)
    → All (λ s. (s.job_id == r.job_id) ≡ false) qs
    → All (λ s. select (has_job_id s.job_id) rs ≡ some s) qs
    → All (λ s. select (has_job_id s.job_id) (r ∷ rs) ≡ some s) qs
unfolding select
select-Distinct_tail r rs [] apart h = tt
select-Distinct_tail r rs (q ∷ qs) apart h =
    (ground arith, select-Distinct_tail r rs qs apart.1 h.1)

-- Each row is the one that its id selects.
pub select-Distinct :
    (rs : List JobRow) → Distinct rs → All (λ r. select (has_job_id r.job_id) rs ≡ some r) rs
unfolding select
select-Distinct [] d = tt
select-Distinct (r ∷ rs) d =
    (ground arith, select-Distinct_tail r rs rs d.0 (select-Distinct rs d.1))
