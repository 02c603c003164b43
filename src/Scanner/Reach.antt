-- ===== src/Scanner/Reach.antt =====
-- How the statements of a scan move the cursor of its scope (internal/scanner/scope_lease.go and
-- poller.go), with what other replicas run before each of them.
use tronvent.Base.{
  ℕ, ◌≤◌, String, true, false, some, List, [], ◌∷◌, ◌≡◌, inl, inr, Bool-cases, arith, eq_refl,
}
use tronvent.Cursor.{
  Cursors, Call, run, get_scanned_block, set_scanned_block, renew_scanner_scope_lease,
  scanner_scope_lease_duration,
}
use tronvent.Cursor.Progress.{run-highest}
use tronvent.Scanner.Replicas.{
  Turn, Shared, Statement, statement, save_highest_block, renew_scope_lease, cursor_after_claim,
  get_highest_block,
}

abbrev pub highest : String → Shared → ℕ
highest scope s = get_scanned_block s.table scope

module _ (scope : String) where
  run_grows :
      (t : Cursors) (cs : List (ℕ × Call))
      → get_scanned_block t scope ≤ get_scanned_block (run t cs) scope
  run_grows t cs = omega (arith, run-highest t scope cs)

  -- A statement of the own worker that never lowers the cursor, with what the others run before it.
  statement_grows :
      {R : Type 0} (f : Statement R) (failed : R) (table : Cursors) (turns : List Turn)
      → ((now clock : ℕ) (t : Cursors)
          → get_scanned_block t scope ≤ get_scanned_block (f now clock t).0 scope)
      → get_scanned_block table scope ≤ highest scope (statement f failed table turns).0
  statement_grows f failed table [] h = omega arith
  statement_grows f failed table (t ∷ ts) h = elim (Bool-cases t.answers) [
    | inl e ↦ rw e (omega (arith, run_grows table t.others, h t.now t.clock (run table t.others)))
    | inr e ↦ rw e (run_grows table t.others)
  ]

  set_grows :
      (now clock : ℕ) (t : Cursors) (block : ℕ) (worker : String)
      → get_scanned_block t scope
        ≤ get_scanned_block (set_scanned_block now clock t scope block worker).0 scope
  unfolding get_scanned_block set_scanned_block
  set_grows now clock t block worker = ground (arith, eq_refl scope)

  set_reaches :
      (now clock : ℕ) (t : Cursors) (block : ℕ) (worker : String)
      → (set_scanned_block now clock t scope block worker).1 ≡ true
      → block ≤ get_scanned_block (set_scanned_block now clock t scope block worker).0 scope
  unfolding get_scanned_block set_scanned_block
  set_reaches now clock t block worker h = ground (arith, h, eq_refl scope)

  renew_grows :
      (now clock : ℕ) (t : Cursors) (worker : String) (lease : ℕ)
      → get_scanned_block t scope
        ≤ get_scanned_block (renew_scanner_scope_lease now t scope worker lease).0 scope
  unfolding get_scanned_block renew_scanner_scope_lease
  renew_grows now clock t worker lease = ground (arith, eq_refl scope)

  pub save_highest_block_grows :
      (worker : String) (block : ℕ) (s : Shared)
      → highest scope s ≤ highest scope (save_highest_block worker scope block s).0
  unfolding save_highest_block
  save_highest_block_grows worker block s =
      statement_grows (λ now clock t. set_scanned_block now clock t scope block worker) false
        s.table s.turns (λ now clock t. set_grows now clock t block worker)

  pub renew_scope_lease_grows :
      (worker : String) (s : Shared)
      → highest scope s ≤ highest scope (renew_scope_lease worker scope s).0
  unfolding renew_scope_lease
  renew_scope_lease_grows worker s =
      statement_grows
        (λ now clock t. renew_scanner_scope_lease now t scope worker scanner_scope_lease_duration)
        false s.table s.turns
        (λ now clock t. renew_grows now clock t worker scanner_scope_lease_duration)

  pub save_highest_block_reaches :
      (worker : String) (block : ℕ) (table : Cursors) (turns : List Turn)
      → let r = save_highest_block worker scope block (record { table = table; turns = turns }) in
        r.1 ≡ true → block ≤ highest scope r.0
  unfolding save_highest_block
  save_highest_block_reaches worker block table [] = λ h. absurd (cc h)
  save_highest_block_reaches worker block table (t ∷ ts) = elim (Bool-cases t.answers) [
    | inl e ↦ rw e (set_reaches t.now t.clock (run table t.others) block worker)
    | inr e ↦ rw e (λ h. absurd (cc h))
  ]

  pub cursor_after_claim_bound :
      (at_claim : ℕ) (table : Cursors) (turns : List Turn) (from : ℕ)
      → let r = cursor_after_claim scope at_claim (record { table = table; turns = turns }) in
        at_claim ≤ get_scanned_block table scope → r.1 ≡ some from → from ≤ highest scope r.0
  unfolding cursor_after_claim get_highest_block
  cursor_after_claim_bound at_claim table [] from h e = ground (arith, e)
  cursor_after_claim_bound at_claim table (t ∷ ts) from h e =
      ground (arith, h, run_grows table t.others, e)
