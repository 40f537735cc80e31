-- ===== src/Store/Jobs.antt =====
-- backend/internal/store/jobs.go: the job queue.
pub mod Ids
pub mod Claim
pub mod Trace
pub mod Exclusive
use homesink.Base.{
  ℕ, ◌+◌, Bool, true, false, ◌&&◌, List, [], ◌∷◌, head?, ◌++◌, map, take, keep, Option, none, some,
  Str, ltb, leb, ◌==◌, if◌then◌else◌, select, update, affected,
}
use homesink.Base.Sort.{sort}
use homesink.Store.{
  Database, JobRow, JobKind, JobState, thumbnail, transcode, probe, queued, running, done, failed,
  Result, ok, err, not_found, with_tx, with_read, scan_string,
}

pub record NewJob : Type 0 where
  pub kind : JobKind
  pub payload : Str
  pub priority : ℕ
  pub next_attempt_at_ms : ℕ

pub record Job : Type 0 where
  pub job_id : ℕ
  pub kind : JobKind
  pub payload : Str
  pub priority : ℕ
  pub state : JobState
  pub attempts : ℕ
  pub next_attempt_at_ms : ℕ
  pub last_error : Str
  pub created_at : ℕ
  pub updated_at : ℕ

-- PriorityThumbnail and PriorityTranscode.
abbrev pub priority_thumbnail : ℕ
priority_thumbnail = 10

abbrev pub priority_transcode : ℕ
priority_transcode = 100

unfoldable pub default_priority : JobKind → ℕ
default_priority thumbnail = priority_thumbnail
default_priority transcode = priority_transcode
default_priority probe = priority_transcode

unfoldable pub scan_job : JobRow → Job
unfolding scan_string
scan_job r = record {
  job_id = r.job_id;
  kind = r.kind;
  payload = r.payload;
  priority = r.priority;
  state = r.state;
  attempts = r.attempts;
  next_attempt_at_ms = r.next_attempt_at;
  last_error = scan_string r.last_error;
  created_at = r.created_at;
  updated_at = r.updated_at;
}

abbrev pub has_job_id : ℕ → JobRow → Bool
has_job_id id r = r.job_id == id

abbrev pub is_queued : JobState → Bool
is_queued s = elim s [ queued ↦ true | _ ↦ false ]

abbrev pub is_running : JobState → Bool
is_running s = elim s [ running ↦ true | _ ↦ false ]

-- The row of the INSERT, under the id that AUTOINCREMENT gives it.
unfoldable pub new_row : ℕ → NewJob → ℕ → JobRow
unfolding default_priority
new_row now j id = record {
  job_id = id;
  kind = j.kind;
  payload = j.payload;
  priority = if j.priority == 0 then default_priority j.kind else j.priority;
  state = queued;
  attempts = 0;
  next_attempt_at = j.next_attempt_at_ms;
  last_error = none;
  created_at = now;
  updated_at = now;
}

unfoldable pub enqueue_job_tx : ℕ → NewJob → Database → Result (ℕ × Database)
unfolding new_row
enqueue_job_tx now j db = ok (
  db.next_job_id,
  record db {
    jobs = db.jobs ++ new_row now j db.next_job_id ∷ [];
    next_job_id = db.next_job_id + 1;
  },
)

unfoldable pub enqueue_job : Bool → ℕ → NewJob → Database → Result ℕ × Database
unfolding with_tx enqueue_job_tx
enqueue_job fault now j = with_tx fault (enqueue_job_tx now j)

-- WHERE state = 'queued' AND next_attempt_at <= now.
abbrev pub is_due : ℕ → JobRow → Bool
is_due now r = is_queued r.state && leb r.next_attempt_at now

-- ORDER BY priority, next_attempt_at, job_id.
unfoldable pub job_before : JobRow → JobRow → Bool
job_before a b =
    if a.priority == b.priority
    then if a.next_attempt_at == b.next_attempt_at
      then ltb a.job_id b.job_id
      else ltb a.next_attempt_at b.next_attempt_at
    else ltb a.priority b.priority

unfoldable pub claim : ℕ → JobRow → JobRow
claim now r = record r { state = running; attempts = r.attempts + 1; updated_at = now }

unfoldable pub next_due : ℕ → List JobRow → Option JobRow
unfolding sort job_before
next_due now rows = head? (sort job_before (keep (is_due now) rows))

unfoldable pub claim_job_tx : ℕ → Database → Result (Job × Database)
unfolding claim next_due scan_job
claim_job_tx now db = elim (next_due now db.jobs) [
  | none ↦ err not_found
  | some r ↦ ok (
    scan_job (claim now r),
    record db { jobs = update (has_job_id r.job_id) (claim now) db.jobs },
  )
]

unfoldable pub claim_job : Bool → ℕ → Database → Result Job × Database
unfolding with_tx claim_job_tx
claim_job fault now = with_tx fault (claim_job_tx now)

unfoldable pub complete : ℕ → JobRow → JobRow
complete now r = record r { state = done; last_error = none; updated_at = now }

unfoldable pub complete_job_tx : ℕ → ℕ → Database → Result (Unit {0} × Database)
unfolding complete
complete_job_tx now id db =
    if affected (has_job_id id) db.jobs == 0
    then err not_found
    else ok (tt, record db { jobs = update (has_job_id id) (complete now) db.jobs })

unfoldable pub complete_job : Bool → ℕ → ℕ → Database → Result (Unit {0}) × Database
unfolding with_tx complete_job_tx
complete_job fault now id = with_tx fault (complete_job_tx now id)

unfoldable pub fail : ℕ → Str → JobState → ℕ → JobRow → JobRow
fail now cause state next r = record r {
  state = state;
  last_error = some cause;
  next_attempt_at = next;
  updated_at = now;
}

unfoldable pub fail_job_tx : ℕ → ℕ → Str → ℕ → ℕ → Database → Result (Unit {0} × Database)
unfolding fail
fail_job_tx now id cause next max_attempts db = elim (select (has_job_id id) db.jobs) [
  | none ↦ err not_found
  | some r ↦
      let gives_up = leb max_attempts r.attempts in
      let state = if gives_up then failed else queued in
      let at = if gives_up then 0 else next in
      ok (tt, record db { jobs = update (has_job_id id) (fail now cause state at) db.jobs })
]

unfoldable pub fail_job : Bool → ℕ → ℕ → Str → ℕ → ℕ → Database → Result (Unit {0}) × Database
unfolding with_tx fail_job_tx
fail_job fault now id cause next max_attempts =
    with_tx fault (fail_job_tx now id cause next max_attempts)

unfoldable pub found_job : Option JobRow → Result Job
unfolding scan_job
found_job none = err not_found
found_job (some r) = ok (scan_job r)

unfoldable pub job_by_id : Bool → ℕ → Database → Result Job
unfolding with_read found_job
job_by_id fault id = with_read fault (λ db. found_job (select (has_job_id id) db.jobs))

abbrev same_state : JobState → JobState → Bool
same_state queued queued = true
same_state running running = true
same_state done done = true
same_state failed failed = true
same_state _ _ = false

abbrev by_job_id : JobRow → JobRow → Bool
by_job_id a b = ltb a.job_id b.job_id

-- A limit of 0 stands for every limit ≤ 0: no LIMIT.
unfoldable pub jobs_by_state : Bool → JobState → ℕ → Database → Result (List Job)
unfolding with_read scan_job sort
jobs_by_state fault state limit = with_read fault (λ db.
    let rows = sort by_job_id (keep (λ r. same_state r.state state) db.jobs) in
    ok (map scan_job (if limit == 0 then rows else take limit rows)))

unfoldable pub requeue : ℕ → JobRow → JobRow
requeue now r = record r { state = queued; updated_at = now }

unfoldable pub requeue_running_jobs_tx : ℕ → Database → Result (ℕ × Database)
unfolding requeue
requeue_running_jobs_tx now db = ok (
  affected (λ r. is_running r.state) db.jobs,
  record db { jobs = update (λ r. is_running r.state) (requeue now) db.jobs },
)

unfoldable pub requeue_running_jobs : Bool → ℕ → Database → Result ℕ × Database
unfolding with_tx requeue_running_jobs_tx
requeue_running_jobs fault now = with_tx fault (requeue_running_jobs_tx now)
