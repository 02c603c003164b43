-- ===== src/Jobs/Attempts.antt =====
-- How often a replay job is tried (internal/db/db.go).
use tronvent.Base.{
  ℕ, String, Bool, true, not, ◌&&◌, ◌||◌, Option, none, some, List, [], ◌∷◌, ◌≡◌, refl, inl, inr,
  Bool-cases, arith, ltb, leb, All, All-append,
}
use tronvent.Jobs.{
  Job, JobOp, enqueue, claim, complete, fail, enqueue_retry, apply_job, apply_jobs, waits,
  update_jobs, is_claimable, is_chosen, is_job, chosen_jobs, set_running, set_completed, set_failed,
  enqueue_block_range_job, claim_block_range_jobs, complete_job, fail_job, enqueue_retry_job,
  enqueue_in_range, insert_unless, RangeError,
}

-- At most the maximum, and below it where the job waits for an attempt.
abbrev pub is_bounded : Job → Bool
is_bounded j =
    leb j.attempts j.max_attempts && (not (waits j.status) || ltb j.attempts j.max_attempts)

abbrev pub Bounded : List Job → Type 0
Bounded jobs = All (λ j. is_bounded j ≡ true) jobs

update_jobs-Bounded :
    (p : Job → Bool) (f : Job → Job) (jobs : List Job)
    → ((j : Job) → is_bounded j ≡ true → p j ≡ true → is_bounded (f j) ≡ true)
    → Bounded jobs
    → Bounded (update_jobs p f jobs)
unfolding update_jobs
update_jobs-Bounded p f [] h k = tt
update_jobs-Bounded p f (j ∷ js) h k = elim (Bool-cases (p j)) [
  | inl e ↦ rw e (h j k.0 e, update_jobs-Bounded p f js h k.1)
  | inr e ↦ rw e (k.0, update_jobs-Bounded p f js h k.1)
]

insert_unless-Bounded :
    (now : ℕ) (id : String) (from_block to_block : ℕ) (jobs : List Job) (o : Option Job)
    → Bounded jobs
    → Bounded (insert_unless now id from_block to_block jobs o).0
insert_unless-Bounded now id from_block to_block jobs (some j) k = k
insert_unless-Bounded now id from_block to_block jobs none k =
    All-append (λ j. is_bounded j ≡ true) jobs _ k (refl, tt)

enqueue_in_range-Bounded :
    (now : ℕ) (id : String) (from_block to_block : ℕ) (jobs : List Job) (o : Option RangeError)
    → Bounded jobs
    → Bounded (enqueue_in_range now id from_block to_block jobs o).0
enqueue_in_range-Bounded now id from_block to_block jobs (some e) k = k
enqueue_in_range-Bounded now id from_block to_block jobs none k =
    insert_unless-Bounded now id from_block to_block jobs _ k

apply_job-Bounded :
    (now : ℕ) (op : JobOp) (jobs : List Job) → Bounded jobs → Bounded (apply_job now op jobs)
unfolding apply_job enqueue_block_range_job claim_block_range_jobs complete_job fail_job
    enqueue_retry_job is_claimable
apply_job-Bounded now (enqueue id queue job_type from_block to_block max_attempts) jobs k =
    All-append (λ j. is_bounded j ≡ true) jobs _ k (ground arith, tt)
apply_job-Bounded now (claim queue worker limit locked) jobs k =
    update_jobs-Bounded (is_chosen (chosen_jobs now queue limit locked jobs) now queue)
      (set_running now worker) jobs (λ j b c. ground (arith, b, c)) k
apply_job-Bounded now (complete id) jobs k =
    update_jobs-Bounded (is_job id) (set_completed now) jobs (λ j b c. ground (arith, b)) k
apply_job-Bounded now (fail id msg retry_after) jobs k =
    update_jobs-Bounded (is_job id) (set_failed now msg retry_after) jobs
      (λ j b c. ground (arith, b)) k
apply_job-Bounded now (enqueue_retry id from_block to_block) jobs k =
    enqueue_in_range-Bounded now id from_block to_block jobs _ k

-- No job is tried more often than its maximum. After any history of statements on the queue, each
-- job counts at most as many attempts as its maximum, and fewer where it is `pending` or `failed`
-- and so can be claimed.
pub apply_jobs-Bounded :
    (ops : List (ℕ × JobOp)) (jobs : List Job) → Bounded jobs → Bounded (apply_jobs ops jobs)
unfolding apply_jobs
apply_jobs-Bounded [] jobs k = k
apply_jobs-Bounded ((now, op) ∷ ops) jobs k =
    apply_jobs-Bounded ops (apply_job now op jobs) (apply_job-Bounded now op jobs k)
