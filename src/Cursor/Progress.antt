-- ===== src/Cursor/Progress.antt =====
-- How the statements on scanner_cursors (internal/db/scanner.go) move the highest block.
use tronvent.Base.{
  ℕ, ◌≤◌, max, String, true, List, [], ◌∷◌, ◌≡◌, arith, str_eq, eq_iff, if◌then◌else◌,
}
use tronvent.Cursor.{
  Cursors, Call, claim, renew, release, set_block, step, run, get_scanned_block, set_scanned_block,
  try_claim_scanner_scope,
}

-- The block that a statement commits for a scope, if it is accepted.
abbrev pub write_of : String → Call → ℕ
write_of s (set_block clock scope block holder) = if str_eq scope s then block else 0
write_of s (claim scope worker lease) = 0
write_of s (renew scope worker lease) = 0
write_of s (release scope worker) = 0

abbrev pub committed : ℕ → Cursors → String → Call → ℕ
committed now t s c = if (step now t c).accepted then write_of s c else 0

-- The highest block that a history commits for a scope.
unfoldable pub best : Cursors → String → List (ℕ × Call) → ℕ
best t s [] = 0
best t s ((now, c) ∷ cs) = max (committed now t s c) (best (step now t c).table s cs)

pub step-highest :
    (now : ℕ) (t : Cursors) (s : String) (c : Call)
    → get_scanned_block (step now t c).table s ≡ max (get_scanned_block t s) (committed now t s c)
unfolding step get_scanned_block
step-highest now t s (claim scope worker lease) = ground (arith, eq_iff scope s)
step-highest now t s (renew scope worker lease) = ground (arith, eq_iff scope s)
step-highest now t s (release scope worker) = ground (arith, eq_iff scope s)
step-highest now t s (set_block clock scope block holder) = ground (arith, eq_iff scope s)

-- After any history of any replicas' statements, the cursor of a scope is the highest of the block
-- it had before and of the blocks that accepted SetScannedBlock statements for that scope wrote:
-- claims, renewals, releases and refused writes never move it, and it never falls.
pub run-highest :
    (t : Cursors) (s : String) (cs : List (ℕ × Call))
    → get_scanned_block (run t cs) s ≡ max (get_scanned_block t s) (best t s cs)
unfolding run best
run-highest t s [] = omega arith
run-highest t s ((now, c) ∷ cs) =
    omega (arith, step-highest now t s c, run-highest (step now t c).table s cs)

claim-highest :
    (now : ℕ) (t : Cursors) (scope worker : String) (lease : ℕ)
    → (try_claim_scanner_scope now t scope worker lease).2 ≡ true
    → (try_claim_scanner_scope now t scope worker lease).1 ≡ get_scanned_block t scope
unfolding try_claim_scanner_scope get_scanned_block
claim-highest now t scope worker lease h = ground arith

set_block-best :
    (now clock : ℕ) (t : Cursors) (scope : String) (block : ℕ) (holder : String)
    → (set_scanned_block now clock t scope block holder).1 ≡ true
    → block ≤ get_scanned_block (set_scanned_block now clock t scope block holder).0 scope
unfolding set_scanned_block get_scanned_block
set_block-best now clock t scope block holder h = ground (arith, eq_iff scope scope)

-- A restart resumes where the work was committed: once SetScannedBlock has accepted `block`, a
-- claim of the scope that is granted after any further history of any replicas returns at least
-- `block`.
pub claim-set_scanned_block :
    (now clock later : ℕ) (t : Cursors) (scope worker holder : String) (block lease : ℕ)
    → (cs : List (ℕ × Call))
    → let t' = (set_scanned_block now clock t scope block holder).0 in
      (set_scanned_block now clock t scope block holder).1 ≡ true
      → (try_claim_scanner_scope later (run t' cs) scope worker lease).2 ≡ true
      → block ≤ (try_claim_scanner_scope later (run t' cs) scope worker lease).1
claim-set_scanned_block now clock later t scope worker holder block lease cs h k =
    let t' = (set_scanned_block now clock t scope block holder).0 in
    omega (
      arith,
      claim-highest later (run t' cs) scope worker lease k,
      run-highest t' scope cs,
      set_block-best now clock t scope block holder h,
    )
