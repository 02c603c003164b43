-- ===== src/Reconcile.antt =====
-- cmd/tronvent/main.go, runStartupReconcile: at the start, the blocks that each scope is behind become
-- jobs in batches, and its cursor jumps to the safe block. Parameters: for each insertion of a job
-- (by its scope and first block) the database's time, the job's id, and whether the database answers.
pub mod Covers
pub mod Examples
use tronvent.Base.{
  ℕ, zero, suc, ◌+◌, ◌-◌, String, Bool, true, false, ◌||◌, Option, none, some, List, [], ◌∷◌, ltb,
  leb, ◌==◌, if◌then◌else◌,
}
use tronvent.Jobs.{Job, enqueue_block_range_job}
use tronvent.Scanner.Replicas.{
  Shared, Claimed, claim_failed, held_elsewhere, claimed_at, get_highest_block, save_highest_block,
  renew_scope_lease, claim_scope, release_scope,
}

pub record Insertion : Type 0 where
  pub now : ℕ
  pub id : String
  pub answers : Bool

pub record World : Type 0 where
  pub shared : Shared
  pub jobs : List Job

pub data Batches : Type 0 where
  enqueued lease_lost unfinished : Batches

-- How a scope ends; with the cursor it had, where it counts as a gap.
pub data ScopeResult : Type 0 where
  cursor_failed up_to_date gap_too_small not_claimed : ScopeResult
  advanced not_advanced interrupted out_of_fuel : ℕ → ScopeResult

abbrev pub tron_reconcile : String
tron_reconcile = "tron-reconcile"

module _ (insertion : String → ℕ → Insertion) (worker : String) where
  module _ (batch_size : ℕ) (scope : String) where
    abbrev insert_at : Insertion → ℕ → ℕ → List Job → List Job
    insert_at i start last jobs =
        if i.answers
        then enqueue_block_range_job i.now i.id tron_reconcile "block-range" start last 10 jobs
        else jobs

    -- One batch; an error is only logged.
    unfoldable pub insert_batch : ℕ → ℕ → List Job → List Job
    insert_batch safe_block start jobs =
        let last = start + batch_size - 1 in
        insert_at (insertion scope start) start (if ltb safe_block last then safe_block else last)
          jobs

    abbrev pub on_renewed :
        Shared × Bool → ℕ → ℕ → List Job → (World → World × Batches) → World × Batches
    on_renewed (s, false) safe_block start jobs next =
        (record { shared = s; jobs = jobs }, lease_lost)
    on_renewed (s, true) safe_block start jobs next =
        next (record { shared = s; jobs = insert_batch safe_block start jobs })

    unfoldable pub enqueue_batches : ℕ → ℕ → ℕ → World → World × Batches
    enqueue_batches zero safe_block start w =
        if ltb safe_block start then (w, enqueued) else (w, unfinished)
    enqueue_batches (suc fuel) safe_block start w =
        let batch =
          on_renewed (renew_scope_lease worker scope w.shared) safe_block start w.jobs
            (λ w'. enqueue_batches fuel safe_block (start + batch_size) w') in
        if ltb safe_block start then (w, enqueued) else batch

    abbrev advanced_if : Bool → ℕ → ScopeResult
    advanced_if true cursor = advanced cursor
    advanced_if false cursor = not_advanced cursor

    abbrev saved : ℕ → List Job → Shared × Bool → World × ScopeResult
    saved cursor jobs (s, b) =
        (record { shared = (release_scope worker scope s).0; jobs = jobs }, advanced_if b cursor)

    -- SetScannedBlock after the last batch, and the release of the lease
    abbrev pub finish : ℕ → ℕ → World × Batches → World × ScopeResult
    finish safe_block cursor (w, enqueued) =
        saved cursor w.jobs (save_highest_block worker scope safe_block w.shared)
    finish safe_block cursor (w, lease_lost) =
        (record w { shared = (release_scope worker scope w.shared).0 }, interrupted cursor)
    finish safe_block cursor (w, unfinished) = (w, out_of_fuel cursor)

    abbrev pub on_claimed : Shared × Claimed → ℕ → ℕ → List Job → World × ScopeResult
    on_claimed (s, claim_failed) safe_block cursor jobs =
        (record { shared = s; jobs = jobs }, not_claimed)
    on_claimed (s, held_elsewhere) safe_block cursor jobs =
        (record { shared = s; jobs = jobs }, not_claimed)
    on_claimed (s, claimed_at block) safe_block cursor jobs = finish safe_block cursor (
        enqueue_batches (safe_block - cursor) safe_block (cursor + 1)
          (record { shared = s; jobs = jobs }))

    abbrev pub on_cursor : Shared × Option ℕ → ℕ → List Job → World × ScopeResult
    on_cursor (s, none) safe_block jobs = (record { shared = s; jobs = jobs }, cursor_failed)
    on_cursor (s, some cursor) safe_block jobs =
        if cursor == 0 || leb safe_block cursor
        then (record { shared = s; jobs = jobs }, up_to_date)
        else if ltb (safe_block - cursor) batch_size
        then (record { shared = s; jobs = jobs }, gap_too_small)
        else on_claimed (claim_scope worker scope s) safe_block cursor jobs

    -- The body of the loop over the scopes.
    unfoldable pub reconcile_scope : ℕ → World → World × ScopeResult
    reconcile_scope safe_block w = on_cursor (get_highest_block scope w.shared) safe_block w.jobs

  abbrev pub batch_size_of : ℕ → ℕ
  batch_size_of size = if size == 0 then 1000 else size

  unfoldable pub reconcile_scopes :
      ℕ → ℕ → List String → World → World × List (String × ScopeResult)
  reconcile_scopes batch_size safe_block [] w = (w, [])
  reconcile_scopes batch_size safe_block (scope ∷ scopes) w =
      let (w1, r) = reconcile_scope (batch_size_of batch_size) scope safe_block w in
      let (w2, rs) = reconcile_scopes batch_size safe_block scopes w1 in (w2, (scope, r) ∷ rs)

  -- `none` is an error of GetLatestBlockNumber. A tip at most as high as the required
  -- confirmations leaves no safe block.
  unfoldable pub run_startup_reconcile :
      ℕ → ℕ → List String → Option ℕ → World → World × List (String × ScopeResult)
  run_startup_reconcile batch_size required_confs contracts none w = (w, [])
  run_startup_reconcile batch_size required_confs contracts (some latest_block) w =
      if latest_block - required_confs == 0
      then (w, [])
      else reconcile_scopes batch_size (latest_block - required_confs) ("TRX" ∷ contracts) w
