-- ===== src/Jobs/Examples.antt =====
-- Histories of the queue (internal/db/db.go).
use tronvent.Base.{
  ℕ, String, false, none, some, List, [], ◌∷◌, ◌≡◌, ◌≢◌, refl, arith, eq_iff, if◌then◌else◌,
}
use tronvent.Jobs.{
  Job, running, JobOp, claim, fail, enqueue_retry, apply_jobs, find_job, is_job, is_same_retry,
  enqueue_retry_job, queue_tron_admin_retry, job_type_block_range,
}
use tronvent.Jobs.Attempts.{Bounded, apply_jobs-Bounded}
use tronvent.Jobs.Stuck.{AllNoResult, running-stuck}

-- The worker died before it reported.
abbrev left_behind : Job
left_behind = record {
  id = "job_a";
  queue = queue_tron_admin_retry;
  job_type = job_type_block_range;
  status = running;
  from_block = 5;
  to_block = 9;
  attempts = 1;
  max_attempts = 10;
  run_after = 0;
  locked_at = some 0;
  locked_by = some "tronvent";
  last_error = none;
  created_at = 0;
  completed_at = none;
}

abbrev history : List (ℕ × JobOp)
history =
    (700_000_000_000, claim "tron-admin-retry" "tronvent" 50 (λ id. false))
    ∷ (700_000_000_001, fail "job_b" "down" 30)
    ∷ (700_000_000_002, enqueue_retry "job_c" 5 9)
    ∷ []

other_job : ◌≢◌ {A = String} "job_b" "job_a"
other_job = ground (arith, eq_iff "job_b" "job_a")

history_no_result : AllNoResult "job_a" history
history_no_result = (tt, (other_job, (tt, tt)))

apply_jobs-Bounded_example : Bounded (apply_jobs history (left_behind ∷ []))
apply_jobs-Bounded_example = apply_jobs-Bounded history (left_behind ∷ []) (refl, tt)

running-stuck_example :
    let jobs = apply_jobs history (left_behind ∷ []) in
    (find_job (is_job "job_a") jobs ≡ some left_behind)
    × ((if is_same_retry 5 9 left_behind
          then (enqueue_retry_job 800_000_000_000 "job_d" 5 9 jobs).0
          else jobs)
        ≡ jobs)
running-stuck_example =
    running-stuck history "job_a" (left_behind ∷ []) left_behind 800_000_000_000 "job_d" refl
      history_no_result refl
