-- ===== src/MemStore/Jobs.antt =====
-- The job methods of backend/internal/testutil/memstore.go.
use homesink.Base.{
  ℕ, suc, ◌+◌, Bool, true, false, ◌&&◌, List, [], ◌∷◌, map, Option, none, some, Str, keep, take,
  length, ltb, leb, ◌==◌, if◌then◌else◌,
}
use homesink.Base.Sort.{sort}
use homesink.Store.{
  JobKind, thumbnail, JobState, queued, running, done, failed, Result, ok, err, not_found,
}
use homesink.Store.Jobs.{NewJob, Job, priority_thumbnail, priority_transcode, is_queued, is_running}
use homesink.MemStore.{MemStore}
use homesink.MemStore.Maps.{number_key, get, set, values}
use homesink.MemStore.Blobs.{found}

abbrev is_thumbnail : JobKind → Bool
is_thumbnail thumbnail = true
is_thumbnail k = false

abbrev mem_priority : NewJob → ℕ
mem_priority j =
    if j.priority == 0
    then if is_thumbnail j.kind then priority_thumbnail else priority_transcode
    else j.priority

abbrev new_job : ℕ → NewJob → ℕ → Job
new_job now j id = record {
  job_id = id;
  kind = j.kind;
  payload = j.payload;
  priority = mem_priority j;
  state = queued;
  attempts = 0;
  next_attempt_at_ms = j.next_attempt_at_ms;
  last_error = [];
  created_at = now;
  updated_at = now;
}

unfoldable pub enqueue_job : ℕ → NewJob → MemStore → Result ℕ × MemStore
unfolding set
enqueue_job now j m =
    let id = suc m.next_job_id in
    (ok id, record m { next_job_id = id; jobs = set number_key id (new_job now j id) m.jobs })

-- jobBefore.
unfoldable pub job_before : Job → Job → Bool
job_before a b =
    if a.priority == b.priority
    then if a.next_attempt_at_ms == b.next_attempt_at_ms
      then ltb a.job_id b.job_id
      else ltb a.next_attempt_at_ms b.next_attempt_at_ms
    else ltb a.priority b.priority

-- The loop of ClaimJob.
abbrev is_ready : ℕ → Job → Bool
is_ready now job = is_queued job.state && leb job.next_attempt_at_ms now

abbrev better : Job → Option Job → Job
better job none = job
better job (some b) = if job_before job b then job else b

unfoldable pub best_job : ℕ → List Job → Option Job → Option Job
unfolding job_before
best_job now [] b = b
best_job now (job ∷ jobs) b =
    best_job now jobs (if is_ready now job then some (better job b) else b)

abbrev pub claimed : ℕ → Job → Job
claimed now job = record job { state = running; attempts = job.attempts + 1; updated_at = now }

abbrev claim_best : ℕ → MemStore → Option Job → Result Job × MemStore
claim_best now m none = (err not_found, m)
claim_best now m (some job) =
    (ok (claimed now job), record m { jobs = set number_key job.job_id (claimed now job) m.jobs })

unfoldable pub claim_job : ℕ → MemStore → Result Job × MemStore
unfolding best_job set
claim_job now m = claim_best now m (best_job now (values m.jobs) none)

-- m.jobs[id] = f(job).
abbrev with_job : ℕ → (Job → Job) → MemStore → Option Job → Result (Unit {0}) × MemStore
with_job id f m none = (err not_found, m)
with_job id f m (some job) = (ok tt, record m { jobs = set number_key id (f job) m.jobs })

unfoldable pub complete_job : ℕ → ℕ → MemStore → Result (Unit {0}) × MemStore
unfolding get set
complete_job now id m =
    with_job id (λ job. record job { state = done; last_error = []; updated_at = now }) m
      (get number_key id m.jobs)

abbrev failed_job : ℕ → Str → ℕ → ℕ → Job → Job
failed_job now cause next max_attempts job =
    let gives_up = leb max_attempts job.attempts in
    record job {
      last_error = cause;
      updated_at = now;
      state = if gives_up then failed else queued;
      next_attempt_at_ms = if gives_up then 0 else next;
    }

unfoldable pub fail_job : ℕ → ℕ → Str → ℕ → ℕ → MemStore → Result (Unit {0}) × MemStore
unfolding get set
fail_job now id cause next max_attempts m =
    with_job id (failed_job now cause next max_attempts) m (get number_key id m.jobs)

unfoldable pub job_by_id : ℕ → MemStore → Result Job
unfolding get
job_by_id id m = found (get number_key id m.jobs)

abbrev same_state : JobState → JobState → Bool
same_state queued queued = true
same_state running running = true
same_state done done = true
same_state failed failed = true
same_state a b = false

-- A limit of 0 stands for every limit ≤ 0.
unfoldable pub jobs_by_state : JobState → ℕ → MemStore → Result (List Job)
unfolding sort
jobs_by_state state limit m =
    let out =
      sort (λ a b. ltb a.job_id b.job_id)
        (keep (λ job. same_state job.state state) (values m.jobs)) in
    ok (if ltb 0 limit && ltb limit (length out) then take limit out else out)

abbrev requeued : ℕ → ℕ × Job → ℕ × Job
requeued now (id, job) =
    (id, if is_running job.state then record job { state = queued; updated_at = now } else job)

unfoldable pub requeue_running_jobs : ℕ → MemStore → Result ℕ × MemStore
requeue_running_jobs now m = (
  ok (length (keep (λ job. is_running job.state) (values m.jobs))),
  record m { jobs = map (requeued now) m.jobs },
)
