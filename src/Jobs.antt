-- ===== src/Jobs.antt =====
-- internal/db/db.go and retry_jobs.go: the table queue_jobs, oldest row first, by which block ranges
-- are replayed. A statement is one function on the table at the database's time `now`, in
-- nanoseconds. Parameter: the random id of a new job. The column updated_at, which no statement here
-- reads, is left out.
pub mod Attempts
pub mod Stuck
pub mod Examples
use tronvent.Base.{
  ℕ, ◌+◌, ◌*◌, ◌/◌, String, Bool, true, false, not, ◌&&◌, ◌||◌, Option, none, some, List, [], ◌∷◌,
  ◌++◌, map, ltb, leb, ◌==◌, str_eq, any, keep, take, if◌then◌else◌,
}

-- The texts 'pending', 'running', 'completed', 'failed' and 'dead' of the column `status`.
pub data JobStatus : Type 0 where
  pending running completed failed dead : JobStatus

pub record Job : Type 0 where
  pub id : String
  pub queue : String
  pub job_type : String
  pub status : JobStatus
  pub from_block : ℕ
  pub to_block : ℕ
  pub attempts : ℕ
  pub max_attempts : ℕ
  pub run_after : ℕ
  pub locked_at : Option ℕ
  pub locked_by : Option String
  pub last_error : Option String
  pub created_at : ℕ
  pub completed_at : Option ℕ

abbrev pub queue_tron_admin_retry : String
queue_tron_admin_retry = "tron-admin-retry"

abbrev pub job_type_block_range : String
job_type_block_range = "block-range"

abbrev pub new_job : ℕ → String → String → String → ℕ → ℕ → ℕ → Job
new_job now id queue job_type from_block to_block max_attempts = record {
  id = id;
  queue = queue;
  job_type = job_type;
  status = pending;
  from_block = from_block;
  to_block = to_block;
  attempts = 0;
  max_attempts = max_attempts;
  run_after = now;
  locked_at = none;
  locked_by = none;
  last_error = none;
  created_at = now;
  completed_at = none;
}

unfoldable pub enqueue_block_range_job :
    ℕ → String → String → String → ℕ → ℕ → ℕ → List Job → List Job
enqueue_block_range_job now id queue job_type from_block to_block max_attempts jobs =
    jobs
    ++ new_job now id queue job_type from_block to_block
        (if max_attempts == 0 then 10 else max_attempts)
      ∷ []

-- interval '5 minutes'
abbrev pub stale_lock : ℕ
stale_lock = 300_000_000_000

abbrev pub waits : JobStatus → Bool
waits pending = true
waits failed = true
waits running = false
waits completed = false
waits dead = false

abbrev pub lock_is_free : ℕ → Option ℕ → Bool
lock_is_free now none = true
lock_is_free now (some at) = ltb (at + stale_lock) now

-- The WHERE of ClaimBlockRangeJobs.
unfoldable pub is_claimable : ℕ → String → Job → Bool
is_claimable now queue j =
    str_eq j.queue queue && waits j.status && leb j.run_after now && lock_is_free now j.locked_at

-- ORDER BY run_after ASC, created_at ASC
abbrev pub goes_before : Job → Job → Bool
goes_before a b =
    ltb a.run_after b.run_after || (a.run_after == b.run_after && leb a.created_at b.created_at)

pub insert_ordered : Job → List Job → List Job
insert_ordered j [] = j ∷ []
insert_ordered j (x ∷ xs) = if goes_before j x then j ∷ x ∷ xs else x ∷ insert_ordered j xs

pub order_jobs : List Job → List Job
order_jobs [] = []
order_jobs (j ∷ js) = insert_ordered j (order_jobs js)

unfoldable pub update_jobs : (Job → Bool) → (Job → Job) → List Job → List Job
update_jobs p f [] = []
update_jobs p f (j ∷ js) = (if p j then f j else j) ∷ update_jobs p f js

abbrev pub is_job : String → Job → Bool
is_job id j = str_eq j.id id

-- The ids of the inner SELECT; `locked` says which rows another transaction has locked.
pub chosen_jobs : ℕ → String → ℕ → (String → Bool) → List Job → List String
chosen_jobs now queue limit locked jobs =
    map (λ j. j.id)
      (take (if limit == 0 then 10 else limit)
        (order_jobs (keep (λ j. is_claimable now queue j && not (locked j.id)) jobs)))

abbrev pub set_running : ℕ → String → Job → Job
set_running now worker j = record j {
  status = running;
  attempts = j.attempts + 1;
  locked_at = some now;
  locked_by = some worker;
}

-- The condition of the UPDATE: the row is among those that the inner SELECT locked.
abbrev pub is_chosen : List String → ℕ → String → Job → Bool
is_chosen ids now queue j = is_claimable now queue j && any (λ i. str_eq i j.id) ids

unfoldable pub claim_block_range_jobs :
    ℕ → String → String → ℕ → (String → Bool) → List Job → List Job × List Job
claim_block_range_jobs now queue worker limit locked jobs =
    let ids = chosen_jobs now queue limit locked jobs in
    (
      update_jobs (is_chosen ids now queue) (set_running now worker) jobs,
      map (set_running now worker) (keep (is_chosen ids now queue) jobs),
    )

abbrev pub set_completed : ℕ → Job → Job
set_completed now j = record j {
  status = completed;
  locked_at = none;
  locked_by = none;
  completed_at = some now;
}

unfoldable pub complete_job : ℕ → String → List Job → List Job
complete_job now id jobs = update_jobs (is_job id) (set_completed now) jobs

-- int(retryAfter.Seconds()) seconds, a minute where retryAfter is not positive
abbrev pub retry_delay : ℕ → ℕ
retry_delay retry_after =
    (if retry_after == 0 then 60_000_000_000 else retry_after) / 1_000_000_000 * 1_000_000_000

abbrev pub set_failed : ℕ → String → ℕ → Job → Job
set_failed now msg retry_after j = record j {
  status = if leb j.max_attempts j.attempts then dead else failed;
  locked_at = none;
  locked_by = none;
  last_error = some msg;
  run_after = now + retry_delay retry_after;
}

unfoldable pub fail_job : ℕ → String → String → ℕ → List Job → List Job
fail_job now id msg retry_after jobs = update_jobs (is_job id) (set_failed now msg retry_after) jobs

pub data RangeError : Type 0 where
  non_positive_block invalid_block_range : RangeError

-- ValidateBlockRange: `none` is nil.
unfoldable pub validate_block_range : ℕ → ℕ → Option RangeError
validate_block_range from_block to_block =
    if from_block == 0 || to_block == 0
    then some non_positive_block
    else if ltb to_block from_block
    then some invalid_block_range
    else none

abbrev pub is_open : JobStatus → Bool
is_open pending = true
is_open running = true
is_open completed = false
is_open failed = false
is_open dead = false

-- The WHERE of EnqueueRetryJob's lookup.
abbrev pub is_same_retry : ℕ → ℕ → Job → Bool
is_same_retry from_block to_block j =
    str_eq j.queue queue_tron_admin_retry
    && str_eq j.job_type job_type_block_range
    && is_open j.status
    && j.from_block == from_block
    && j.to_block == to_block

abbrev pub find_job : (Job → Bool) → List Job → Option Job
find_job p [] = none
find_job p (j ∷ js) = let rest = find_job p js in if p j then some j else rest

-- EnqueueRetryResult: the job, and whether it was created.
pub data RetryResult : Type 0 where
  range_refused : RangeError → RetryResult
  retry_job : Job → Bool → RetryResult

abbrev pub insert_unless : ℕ → String → ℕ → ℕ → List Job → Option Job → List Job × RetryResult
insert_unless now id from_block to_block jobs (some j) = (jobs, retry_job j false)
insert_unless now id from_block to_block jobs none =
    let j = new_job now id queue_tron_admin_retry job_type_block_range from_block to_block 10 in
    (jobs ++ j ∷ [], retry_job j true)

abbrev pub enqueue_in_range :
    ℕ → String → ℕ → ℕ → List Job → Option RangeError → List Job × RetryResult
enqueue_in_range now id from_block to_block jobs (some e) = (jobs, range_refused e)
enqueue_in_range now id from_block to_block jobs none =
    insert_unless now id from_block to_block jobs
      (find_job (is_same_retry from_block to_block) jobs)

unfoldable pub enqueue_retry_job : ℕ → String → ℕ → ℕ → List Job → List Job × RetryResult
enqueue_retry_job now id from_block to_block jobs =
    enqueue_in_range now id from_block to_block jobs (validate_block_range from_block to_block)

-- A statement on the queue.
pub data JobOp : Type 0 where
  enqueue : String → String → String → ℕ → ℕ → ℕ → JobOp
  claim : String → String → ℕ → (String → Bool) → JobOp
  complete : String → JobOp
  fail : String → String → ℕ → JobOp
  enqueue_retry : String → ℕ → ℕ → JobOp

unfoldable pub apply_job : ℕ → JobOp → List Job → List Job
apply_job now (enqueue id queue job_type from_block to_block max_attempts) jobs =
    enqueue_block_range_job now id queue job_type from_block to_block max_attempts jobs
apply_job now (claim queue worker limit locked) jobs =
    (claim_block_range_jobs now queue worker limit locked jobs).0
apply_job now (complete id) jobs = complete_job now id jobs
apply_job now (fail id msg retry_after) jobs = fail_job now id msg retry_after jobs
apply_job now (enqueue_retry id from_block to_block) jobs =
    (enqueue_retry_job now id from_block to_block jobs).0

unfoldable pub apply_jobs : List (ℕ × JobOp) → List Job → List Job
apply_jobs [] jobs = jobs
apply_jobs ((now, op) ∷ ops) jobs = apply_jobs ops (apply_job now op jobs)
