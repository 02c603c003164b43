-- ===== src/Reconcile/Covers.antt =====
-- That the jobs of the startup reconciliation cover the blocks that its cursor jumps over
-- (cmd/tronvent/main.go, runStartupReconcile).
use mathlib.Core.Path.{subst}
use tronvent.Base.{
  ℕ, zero, suc, ◌+◌, ◌-◌, ◌≤◌, ◌<◌, String, Bool, true, false, ◌&&◌, ◌||◌, Option, none, some, List,
  ◌≡◌, ◌≢◌, ◌⊎◌, inl, inr, refl, ap, ◌∙◌, Bool-cases, arith, ltb, leb, ltb→lt, ◌==◌, str_eq,
  eq_refl, any, any-append,
}
use tronvent.Jobs.{Job, enqueue_block_range_job}
use tronvent.Scanner.Replicas.{
  Shared, Claimed, claim_failed, held_elsewhere, claimed_at, get_highest_block, save_highest_block,
  renew_scope_lease, claim_scope,
}
use tronvent.Reconcile.{
  Insertion, World, Batches, enqueued, lease_lost, unfinished, ScopeResult, cursor_failed,
  up_to_date, gap_too_small, not_claimed, advanced, not_advanced, interrupted, out_of_fuel, saved,
  tron_reconcile, insert_batch, on_renewed, enqueue_batches, finish, on_claimed, on_cursor,
  reconcile_scope,
}

-- A job of the reconciliation scans the block.
abbrev pub covers : ℕ → Job → Bool
covers b j = str_eq j.queue tron_reconcile && leb j.from_block b && leb b j.to_block

module _ (insertion : String → ℕ → Insertion) (worker : String) (batch_size : ℕ)
    (scope : String) where
  -- A batch with the block, whose insertion failed.
  abbrev pub Lost : ℕ → Type 0
  Lost b =
      (start : ℕ) × ((insertion scope start).answers ≡ false)
      × (start ≤ b)
      × (b < start + batch_size)

  abbrev pub Covered : ℕ → List Job → Type 0
  Covered b jobs = (any (covers b) jobs ≡ true) ⊎ Lost b

  insert_batch-grows :
      (b safe_block start : ℕ) (jobs : List Job)
      → Covered b jobs
      → Covered b (insert_batch insertion worker batch_size scope safe_block start jobs)
  unfolding insert_batch enqueue_block_range_job
  insert_batch-grows b safe_block start jobs (inr l) = inr l
  insert_batch-grows b safe_block start jobs (inl e) =
      inl (elim (Bool-cases (insertion scope start).answers) [
        | inl k ↦ rw k (any-append (covers b) jobs _ ∙ ground (arith, e))
        | inr k ↦ rw k e
      ])

  insert_batch-Covered :
      (b safe_block start : ℕ) (jobs : List Job)
      → start ≤ b
      → b ≤ safe_block
      → b < start + batch_size
      → Covered b (insert_batch insertion worker batch_size scope safe_block start jobs)
  unfolding insert_batch enqueue_block_range_job
  insert_batch-Covered b safe_block start jobs l s u =
      elim (Bool-cases (insertion scope start).answers) [
        | inl e ↦ inl (
            rw e (any-append (covers b) jobs _ ∙ ground (arith, eq_refl "tron-reconcile", l, s, u)))
        | inr e ↦ inr (start, e, l, u)
      ]

  -- What a run of the batches from `start` on has done.
  abbrev Done : ℕ → ℕ → List Job → World × Batches → Type 0
  Done safe_block start jobs (w, unfinished) = start ≢ start
  Done safe_block start jobs (w, lease_lost) = (b : ℕ) → Covered b jobs → Covered b w.jobs
  Done safe_block start jobs (w, enqueued) =
      (b : ℕ) → Covered b jobs ⊎ ((start ≤ b) × (b ≤ safe_block)) → Covered b w.jobs

  batch-Covered :
      (safe_block start : ℕ) (jobs : List Job) (b : ℕ)
      → Covered b jobs ⊎ ((start ≤ b) × (b ≤ safe_block))
      → Covered b (insert_batch insertion worker batch_size scope safe_block start jobs)
        ⊎ ((start + batch_size ≤ b) × (b ≤ safe_block))
  batch-Covered safe_block start jobs b (inl c) = inl (insert_batch-grows b safe_block start jobs c)
  batch-Covered safe_block start jobs b (inr (l, u)) =
      elim (Bool-cases (ltb b (start + batch_size))) [
        | inl e ↦ inl (insert_batch-Covered b safe_block start jobs l u (ltb→lt _ _ e))
        | inr e ↦ inr (ground (arith, e), u)
      ]

  Done-batch :
      (safe_block start : ℕ) (jobs : List Job) (r : World × Batches)
      → Done safe_block
          (start + batch_size)
          (insert_batch insertion worker batch_size scope safe_block start jobs)
          r
      → Done safe_block start jobs r
  Done-batch safe_block start jobs (w, unfinished) h = absurd (h refl)
  Done-batch safe_block start jobs (w, lease_lost) h =
      λ b c. h b (insert_batch-grows b safe_block start jobs c)
  Done-batch safe_block start jobs (w, enqueued) h =
      λ b c. h b (batch-Covered safe_block start jobs b c)

  on_renewed-Done :
      (r : Shared × Bool) (safe_block start : ℕ) (jobs : List Job) (next : World → World × Batches)
      → ((w : World) → Done safe_block (start + batch_size) w.jobs (next w))
      → Done safe_block start jobs
          (on_renewed insertion worker batch_size scope r safe_block start jobs next)
  on_renewed-Done (s, false) safe_block start jobs next h = λ b c. c
  on_renewed-Done (s, true) safe_block start jobs next h =
      let w : World = record {
        shared = s;
        jobs = insert_batch insertion worker batch_size scope safe_block start jobs;
      } in
      Done-batch safe_block start jobs (next w) (h w)

  no_batch_left :
      (safe_block start : ℕ) (w : World)
      → safe_block < start
      → Done safe_block start w.jobs (w, enqueued)
  no_batch_left safe_block start w l =
      λ b c. elim c [ inl k ↦ k | inr k ↦ absurd (omega (arith, k.0, k.1, l)) ]

  enqueue_batches-Done :
      (fuel safe_block start : ℕ) (w : World)
      → 0 < batch_size
      → safe_block < start + fuel
      → Done safe_block start w.jobs
          (enqueue_batches insertion worker batch_size scope fuel safe_block start w)
  unfolding enqueue_batches
  enqueue_batches-Done zero safe_block start w p l = elim (Bool-cases (ltb safe_block start)) [
    | inl e ↦ rw e (no_batch_left safe_block start w (ltb→lt _ _ e))
    | inr e ↦ absurd (ground (arith, e, l))
  ]
  enqueue_batches-Done (suc fuel) safe_block start w p l =
      elim (Bool-cases (ltb safe_block start)) [
        | inl e ↦ rw e (no_batch_left safe_block start w (ltb→lt _ _ e))
        | inr e ↦ rw e (
            on_renewed-Done (renew_scope_lease worker scope w.shared) safe_block start w.jobs _
              (λ w'.
                enqueue_batches-Done fuel safe_block (start + batch_size) w' p
                  (omega (arith, p, l))))
      ]

  -- What the reconciliation of a scope may end with.
  abbrev Fills : ℕ → World × ScopeResult → Type 0
  Fills safe_block (w, cursor_failed) = Unit
  Fills safe_block (w, up_to_date) = Unit
  Fills safe_block (w, gap_too_small) = Unit
  Fills safe_block (w, not_claimed) = Unit
  Fills safe_block (w, advanced cursor) =
      (b : ℕ) → ((cursor + 1 ≤ b) × (b ≤ safe_block)) → Covered b w.jobs
  Fills safe_block (w, not_advanced cursor) =
      (b : ℕ) → ((cursor + 1 ≤ b) × (b ≤ safe_block)) → Covered b w.jobs
  Fills safe_block (w, interrupted cursor) = Unit
  Fills safe_block (w, out_of_fuel cursor) = cursor ≢ cursor

  saved-Fills :
      (safe_block cursor : ℕ) (jobs : List Job) (r : Shared × Bool)
      → ((b : ℕ) → ((cursor + 1 ≤ b) × (b ≤ safe_block)) → Covered b jobs)
      → Fills safe_block (saved insertion worker batch_size scope cursor jobs r)
  saved-Fills safe_block cursor jobs (s, true) h = h
  saved-Fills safe_block cursor jobs (s, false) h = h

  finish-Fills :
      (safe_block cursor : ℕ) (before : List Job) (r : World × Batches)
      → Done safe_block (cursor + 1) before r
      → Fills safe_block (finish insertion worker batch_size scope safe_block cursor r)
  finish-Fills safe_block cursor before (w, unfinished) h = absurd (h refl)
  finish-Fills safe_block cursor before (w, lease_lost) h = tt
  finish-Fills safe_block cursor before (w, enqueued) h =
      saved-Fills safe_block cursor w.jobs (save_highest_block worker scope safe_block w.shared)
        (λ b l. h b (inr l))

  on_claimed-Fills :
      (r : Shared × Claimed) (safe_block cursor : ℕ) (jobs : List Job)
      → 0 < batch_size
      → cursor < safe_block
      → Fills safe_block (on_claimed insertion worker batch_size scope r safe_block cursor jobs)
  on_claimed-Fills (s, claim_failed) safe_block cursor jobs p l = tt
  on_claimed-Fills (s, held_elsewhere) safe_block cursor jobs p l = tt
  on_claimed-Fills (s, claimed_at block) safe_block cursor jobs p l =
      let w : World = record { shared = s; jobs = jobs } in
      finish-Fills safe_block cursor jobs
        (enqueue_batches insertion worker batch_size scope (safe_block - cursor) safe_block
          (cursor + 1) w)
        (enqueue_batches-Done (safe_block - cursor) safe_block (cursor + 1) w p (omega (arith, l)))

  on_cursor-Fills :
      (r : Shared × Option ℕ) (safe_block : ℕ) (jobs : List Job)
      → 0 < batch_size
      → Fills safe_block (on_cursor insertion worker batch_size scope r safe_block jobs)
  on_cursor-Fills (s, none) safe_block jobs p = tt
  on_cursor-Fills (s, some cursor) safe_block jobs p =
      elim (Bool-cases (cursor == 0 || leb safe_block cursor)) [
        | inl e ↦ rw e tt
        | inr e ↦ rw e (elim (Bool-cases (ltb (safe_block - cursor) batch_size)) [
          | inl k ↦ rw k tt
          | inr k ↦ rw k (
              on_claimed-Fills (claim_scope worker scope s) safe_block cursor jobs p
                (ground (arith, e)))
        ])
      ]

  reconcile_scope-Fills :
      (safe_block : ℕ) (w : World)
      → 0 < batch_size
      → Fills safe_block (reconcile_scope insertion worker batch_size scope safe_block w)
  unfolding reconcile_scope
  reconcile_scope-Fills safe_block w p =
      on_cursor-Fills (get_highest_block scope w.shared) safe_block w.jobs p

  -- Where the startup reconciliation moves the cursor of a scope from `cursor` to the safe block,
  -- every block in between is in the range of a job of the queue tron-reconcile, or in a batch whose
  -- insertion failed, which is logged only; whatever other replicas do in between.
  pub reconcile_scope-covers :
      (safe_block cursor b : ℕ) (w w' : World)
      → 0 < batch_size
      → reconcile_scope insertion worker batch_size scope safe_block w ≡ (w', advanced cursor)
      → cursor + 1 ≤ b
      → b ≤ safe_block
      → Covered b w'.jobs
  reconcile_scope-covers safe_block cursor b w w' p e l u =
      subst (Fills safe_block) e (reconcile_scope-Fills safe_block w p) b (l, u)

  -- The reconciliation of a scope ends: the loop over the batches never runs out of fuel, which is
  -- the number of blocks that the scope is behind, where the batch size is positive.
  pub reconcile_scope-ends :
      (safe_block cursor : ℕ) (w : World)
      → 0 < batch_size
      → (reconcile_scope insertion worker batch_size scope safe_block w).1 ≢ out_of_fuel cursor
  reconcile_scope-ends safe_block cursor w p e =
      subst (Fills safe_block)
        (ap (λ x. ((reconcile_scope insertion worker batch_size scope safe_block w).0, x)) e)
        (reconcile_scope-Fills safe_block w p) refl
