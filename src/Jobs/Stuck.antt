-- ===== src/Jobs/Stuck.antt =====
-- A replay job that a crash left behind (internal/db/db.go, internal/db/retry_jobs.go).
use tronvent.Base.{
  ℕ, String, Bool, true, false, Option, none, some, List, [], ◌∷◌, ◌++◌, ◌≡◌, ◌≢◌, refl, inl, inr,
  Bool-cases, Option-cases, arith, eq_iff, if◌then◌else◌,
}
use tronvent.Jobs.{
  Job, running, JobOp, enqueue, claim, complete, fail, enqueue_retry, apply_job, apply_jobs,
  update_jobs, is_claimable, is_chosen, is_job, chosen_jobs, set_running, set_completed, set_failed,
  enqueue_block_range_job, claim_block_range_jobs, complete_job, fail_job, enqueue_retry_job,
  enqueue_in_range, insert_unless, find_job, is_same_retry, RangeError,
}

-- A statement that gives no result for the job.
abbrev pub NoResult : String → JobOp → Type 0
NoResult i (enqueue id queue job_type from_block to_block max_attempts) = Unit
NoResult i (claim queue worker limit locked) = Unit
NoResult i (complete id) = id ≢ i
NoResult i (fail id msg retry_after) = id ≢ i
NoResult i (enqueue_retry id from_block to_block) = Unit

abbrev pub AllNoResult : String → List (ℕ × JobOp) → Type 0
AllNoResult i [] = Unit
AllNoResult i ((now, op) ∷ ops) = NoResult i op × AllNoResult i ops

find_job-append :
    (p : Job → Bool) (jobs more : List Job) (j : Job)
    → find_job p jobs ≡ some j
    → find_job p (jobs ++ more) ≡ some j
find_job-append p [] more j h = ground (arith, h)
find_job-append p (x ∷ xs) more j h = elim (Bool-cases (p x)) [
  | inl e ↦ rw e (rw e at h)
  | inr e ↦ rw e (find_job-append p xs more j (rw e at h))
]

find_job-update_jobs :
    (i : String) (p : Job → Bool) (f : Job → Job) (jobs : List Job) (j : Job)
    → ((x : Job) → (f x).id ≡ x.id)
    → p j ≡ false
    → find_job (is_job i) jobs ≡ some j
    → find_job (is_job i) (update_jobs p f jobs) ≡ some j
unfolding update_jobs
find_job-update_jobs i p f [] j same out h = h
find_job-update_jobs i p f (x ∷ xs) j same out h = ground (
  arith,
  h,
  out,
  same x,
  eq_iff x.id i,
  eq_iff (f x).id i,
  find_job-update_jobs i p f xs j same out,
)

find_job-some :
    (p q : Job → Bool) (jobs : List Job) (j : Job)
    → find_job p jobs ≡ some j
    → q j ≡ true
    → find_job q jobs ≢ none
find_job-some p q [] j h k = ground (arith, h)
find_job-some p q (x ∷ xs) j h k = ground (arith, h, k, find_job-some p q xs j)

find_job-holds :
    (p : Job → Bool) (jobs : List Job) (j : Job) → find_job p jobs ≡ some j → p j ≡ true
find_job-holds p [] j h = ground (arith, h)
find_job-holds p (x ∷ xs) j h = ground (arith, h, find_job-holds p xs j)

insert_unless-find_job :
    (now : ℕ) (id : String) (from_block to_block : ℕ) (i : String) (jobs : List Job)
    (o : Option Job)
    → (j : Job) → find_job (is_job i) jobs ≡ some j
    → find_job (is_job i) (insert_unless now id from_block to_block jobs o).0 ≡ some j
insert_unless-find_job now id from_block to_block i jobs (some x) j h = h
insert_unless-find_job now id from_block to_block i jobs none j h =
    find_job-append (is_job i) jobs _ j h

enqueue_in_range-find_job :
    (now : ℕ) (id : String) (from_block to_block : ℕ) (i : String) (jobs : List Job)
    → (o : Option RangeError) (j : Job) → find_job (is_job i) jobs ≡ some j
    → find_job (is_job i) (enqueue_in_range now id from_block to_block jobs o).0 ≡ some j
enqueue_in_range-find_job now id from_block to_block i jobs (some e) j h = h
enqueue_in_range-find_job now id from_block to_block i jobs none j h =
    insert_unless-find_job now id from_block to_block i jobs _ j h

apply_job-find_job :
    (now : ℕ) (op : JobOp) (i : String) (jobs : List Job) (j : Job)
    → j.status ≡ running
    → NoResult i op
    → find_job (is_job i) jobs ≡ some j
    → find_job (is_job i) (apply_job now op jobs) ≡ some j
unfolding apply_job enqueue_block_range_job claim_block_range_jobs complete_job fail_job
    enqueue_retry_job is_claimable
apply_job-find_job now (enqueue id queue job_type from_block to_block max_attempts) i jobs j s l h =
    find_job-append (is_job i) jobs _ j h
apply_job-find_job now (claim queue worker limit locked) i jobs j s l h =
    find_job-update_jobs i (is_chosen (chosen_jobs now queue limit locked jobs) now queue)
      (set_running now worker) jobs j (λ x. refl) (ground (arith, s)) h
apply_job-find_job now (complete id) i jobs j s l h =
    find_job-update_jobs i (is_job id) (set_completed now) jobs j (λ x. refl)
      (ground (arith, l, eq_iff j.id id, eq_iff j.id i, find_job-holds (is_job i) jobs j h)) h
apply_job-find_job now (fail id msg retry_after) i jobs j s l h =
    find_job-update_jobs i (is_job id) (set_failed now msg retry_after) jobs j (λ x. refl)
      (ground (arith, l, eq_iff j.id id, eq_iff j.id i, find_job-holds (is_job i) jobs j h)) h
apply_job-find_job now (enqueue_retry id from_block to_block) i jobs j s l h =
    enqueue_in_range-find_job now id from_block to_block i jobs _ j h

apply_jobs-find_job :
    (ops : List (ℕ × JobOp)) (i : String) (jobs : List Job) (j : Job)
    → j.status ≡ running
    → AllNoResult i ops
    → find_job (is_job i) jobs ≡ some j
    → find_job (is_job i) (apply_jobs ops jobs) ≡ some j
unfolding apply_jobs
apply_jobs-find_job [] i jobs j s l h = h
apply_jobs-find_job ((now, op) ∷ ops) i jobs j s l h =
    apply_jobs-find_job ops i (apply_job now op jobs) j s l.1
      (apply_job-find_job now op i jobs j s l.0 h)

enqueue_in_range-known :
    (now : ℕ) (id : String) (from_block to_block : ℕ) (jobs : List Job) (o : Option RangeError)
    → find_job (is_same_retry from_block to_block) jobs ≢ none
    → (enqueue_in_range now id from_block to_block jobs o).0 ≡ jobs
enqueue_in_range-known now id from_block to_block jobs (some e) h = refl
enqueue_in_range-known now id from_block to_block jobs none h =
    elim (Option-cases (find_job (is_same_retry from_block to_block) jobs)) [
      | inl e ↦ absurd (h e)
      | inr (j, e) ↦ rw e
    ]

-- A job whose worker died stays `running` for good: no claim takes it up again, at any time, in any
-- history of statements that gives no result for it, although the claim tests for stale locks.
-- Where it is the admin's retry of a range, EnqueueRetryJob for exactly that range adds no job either,
-- at any later time; for any other job this is left open.
pub running-stuck :
    (ops : List (ℕ × JobOp)) (i : String) (jobs : List Job) (j : Job) (later : ℕ) (id : String)
    → j.status ≡ running
    → AllNoResult i ops
    → find_job (is_job i) jobs ≡ some j
    → let jobs' = apply_jobs ops jobs in
      let after_retry = (enqueue_retry_job later id j.from_block j.to_block jobs').0 in
      (find_job (is_job i) jobs' ≡ some j)
      × ((if is_same_retry j.from_block j.to_block j then after_retry else jobs') ≡ jobs')
unfolding enqueue_retry_job
running-stuck ops i jobs j later id s l h =
    let found = apply_jobs-find_job ops i jobs j s l h in
    (
      found,
      elim (Bool-cases (is_same_retry j.from_block j.to_block j)) [
        | inl e ↦ rw e (
            enqueue_in_range-known later id j.from_block j.to_block (apply_jobs ops jobs) _ (
              find_job-some (is_job i) (is_same_retry j.from_block j.to_block) (apply_jobs ops jobs)
                j found e))
        | inr e ↦ rw e refl
      ],
    )
