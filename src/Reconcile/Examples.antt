-- ===== src/Reconcile/Examples.antt =====
-- A scope that is three batches behind (cmd/tronvent/main.go, runStartupReconcile).
use tronvent.Base.{ℕ, String, true, some, none, [], ◌∷◌, ◌≡◌, ◌≢◌, refl, arith, not, ◌==◌}
use tronvent.Cursor.{
  Cursors, claim, run, step, get_scanned_block, try_claim_scanner_scope, renew_scanner_scope_lease,
  release_scanner_scope, set_scanned_block, lease_seconds,
}
use tronvent.Scanner.Replicas.{
  Turn, get_highest_block, save_highest_block, renew_scope_lease, claim_scope, release_scope,
}
use tronvent.Reconcile.{
  Insertion, World, advanced, out_of_fuel, reconcile_scope, enqueue_batches, insert_batch,
}
use tronvent.Reconcile.Covers.{Covered, reconcile_scope-covers, reconcile_scope-ends}

-- The insertion of the batch from block 16 fails.
abbrev insertion : String → ℕ → Insertion
insertion scope start = record { now = start; id = "job"; answers = not (start == 16) }

abbrev table : Cursors
table scope =
    some (record { highest_block = 5; locked_by = none; locked_until = none; updated_at = 0 })

-- Another replica tries to take the scope between any two statements.
abbrev turn : ℕ → Turn
turn at = record { others = (at, claim "TRX" "b" 60) ∷ []; now = at; clock = at; answers = true }

abbrev quiet : Turn
quiet = record { others = []; now = 1; clock = 1; answers = true }

abbrev start : World
start = record {
  shared = record {
    table = table;
    turns = quiet ∷ quiet ∷ turn 2 ∷ turn 3 ∷ turn 4 ∷ turn 5 ∷ turn 6 ∷ [];
  };
  jobs = [];
}

abbrev after : World
after = (reconcile_scope insertion "a" 10 "TRX" 27 start).0

three_batches : reconcile_scope insertion "a" 10 "TRX" 27 start ≡ (after, advanced 5)
unfolding reconcile_scope enqueue_batches insert_batch get_highest_block save_highest_block
    renew_scope_lease claim_scope release_scope run step get_scanned_block try_claim_scanner_scope
    renew_scanner_scope_lease release_scanner_scope set_scanned_block lease_seconds
three_batches = refl

reconcile_scope-covers_example : Covered insertion "a" 10 "TRX" 20 after.jobs
reconcile_scope-covers_example =
    reconcile_scope-covers insertion "a" 10 "TRX" 27 5 20 start after (omega arith) three_batches
      (omega arith) (omega arith)

reconcile_scope-ends_example : (reconcile_scope insertion "a" 10 "TRX" 27 start).1 ≢ out_of_fuel 5
reconcile_scope-ends_example = reconcile_scope-ends insertion "a" 10 "TRX" 27 5 start (omega arith)
