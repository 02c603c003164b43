-- ===== src/Cursor/Lease.antt =====
-- Exclusion between replicas by the scope lease (internal/db/scanner.go).
use tronvent.Base.{
  ℕ, ◌≤◌, ◌<◌, max, String, true, false, Option, none, some, List, [], ◌∷◌, ◌≡◌, refl, ◌≢◌, ◌∙◌,
  arith, eq_iff,
}
use tronvent.Cursor.{
  CursorRow, Cursors, Call, claim, renew, release, set_block, step, run, get_scanned_block,
  set_scanned_block, try_claim_scanner_scope, lease_end, renew_scanner_scope_lease,
}

abbrev pub scope_of : Call → String
scope_of (claim scope worker lease) = scope
scope_of (renew scope worker lease) = scope
scope_of (release scope worker) = scope
scope_of (set_block clock scope block holder) = scope

-- A statement of another worker that names itself, while the lease that ends at `until` runs on
-- the database's clock and, where the code reads it, on the other worker's own clock.
abbrev pub Foreign : String → ℕ → ℕ → Call → Type 0
Foreign w until now (claim scope worker lease) = (now ≤ until) × (worker ≢ w)
Foreign w until now (renew scope worker lease) = (now ≤ until) × (worker ≢ w)
Foreign w until now (release scope worker) = (now ≤ until) × (worker ≢ w)
Foreign w until now (set_block clock scope block holder) =
    (clock < until) × (holder ≢ w) × (holder ≢ "")

abbrev pub AllForeign : String → ℕ → List (ℕ × Call) → Type 0
AllForeign w until [] = Unit
AllForeign w until ((now, c) ∷ cs) = Foreign w until now c × AllForeign w until cs

-- Each statement of the history that names the scope is refused.
abbrev pub Refused : String → Cursors → List (ℕ × Call) → Type 0
Refused s t [] = Unit
Refused s t ((now, c) ∷ cs) =
    (scope_of c ≡ s → (step now t c).accepted ≡ false) × Refused s (step now t c).table cs

-- The row says that `w` holds the lease until `until`.
abbrev pub Held : Option CursorRow → String → ℕ → Type 0
Held none w until = ⊥
Held (some r) w until = (r.locked_by ≡ some w) × (r.locked_until ≡ some until)

Foreign-step :
    (now : ℕ) (t : Cursors) (c : Call) (s w : String) (until : ℕ)
    → w ≢ ""
    → Held (t s) w until
    → Foreign w until now c
    → ((step now t c).table s ≡ t s) × (scope_of c ≡ s → (step now t c).accepted ≡ false)
unfolding step
Foreign-step now t (claim scope worker lease) s w until e h f =
    ground (arith, eq_iff scope s, eq_iff w worker)
Foreign-step now t (renew scope worker lease) s w until e h f =
    ground (arith, eq_iff scope s, eq_iff w worker)
Foreign-step now t (release scope worker) s w until e h f =
    ground (arith, eq_iff scope s, eq_iff w worker)
Foreign-step now t (set_block clock scope block holder) s w until e h f =
    ground (arith, eq_iff scope s, eq_iff w holder, eq_iff holder "", eq_iff w "")

claim-Held :
    (now : ℕ) (t : Cursors) (scope w : String) (lease : ℕ)
    → (try_claim_scanner_scope now t scope w lease).2 ≡ true
    → Held ((try_claim_scanner_scope now t scope w lease).0 scope) w (lease_end now lease)
unfolding try_claim_scanner_scope
claim-Held now t scope w lease h = ground (arith, eq_iff scope scope)

Foreign-run :
    (t : Cursors) (s w : String) (until : ℕ) (cs : List (ℕ × Call))
    → w ≢ ""
    → Held (t s) w until
    → AllForeign w until cs
    → (run t cs s ≡ t s) × Refused s t cs
unfolding run
Foreign-run t s w until [] e h f = (refl, tt)
Foreign-run t s w until ((now, c) ∷ cs) e h f =
    let (same, refused) = Foreign-step now t c s w until e h f.0 in
    let (rest, others) = Foreign-run (step now t c).table s w until cs e (rw same h) f.1 in
    (rest ∙ same, (refused, others))

-- Exclusion. From a granted claim of a scope until its lease ends, every claim, renewal, release and
-- cursor write of that scope by other workers that name themselves is refused, in any order and
-- number, and the row of the scope stays as the claim left it. The lease end is read on the
-- database's clock by the first three and on the other worker's clock by the write.
pub claim_exclusive :
    (now : ℕ) (t : Cursors) (scope w : String) (lease : ℕ) (cs : List (ℕ × Call))
    → let t' = (try_claim_scanner_scope now t scope w lease).0 in
      w ≢ ""
      → (try_claim_scanner_scope now t scope w lease).2 ≡ true
      → AllForeign w (lease_end now lease) cs
      → (run t' cs scope ≡ t' scope) × Refused scope t' cs
claim_exclusive now t scope w lease cs e h f =
    Foreign-run (try_claim_scanner_scope now t scope w lease).0 scope w (lease_end now lease) cs e
      (claim-Held now t scope w lease h) f

-- The holder is never shut out: while its row is `Held`, and after any foreign history before the
-- lease ends, its own cursor write is accepted, whatever the clocks say, and leaves the higher of
-- the two blocks; its renewal is accepted too.
pub holder_commits :
    (t : Cursors) (s w : String) (until now clock block lease : ℕ) (cs : List (ℕ × Call))
    → w ≢ ""
    → Held (t s) w until
    → AllForeign w until cs
    → let u = run t cs in
      ((set_scanned_block now clock u s block w).1 ≡ true)
      × (get_scanned_block (set_scanned_block now clock u s block w).0 s
          ≡ max (get_scanned_block t s) block)
      × ((renew_scanner_scope_lease now u s w lease).1 ≡ true)
unfolding set_scanned_block get_scanned_block renew_scanner_scope_lease
holder_commits t s w until now clock block lease cs e h f =
    let same = (Foreign-run t s w until cs e h f).0 in ground (arith, same, eq_iff w w, eq_iff s s)

-- The write of the cursor compares the lease with the writing worker's own clock (time.Now), the
-- claim with the database's (now()). A worker whose clock is at or past the lease end writes the
-- cursor of a scope that another worker holds, although the database refuses it the claim.
pub skewed_write :
    (t : Cursors) (s w other : String) (until now clock block lease : ℕ)
    → other ≢ w
    → Held (t s) w until
    → now ≤ until
    → until ≤ clock
    → ((try_claim_scanner_scope now t s other lease).2 ≡ false)
      × ((set_scanned_block now clock t s block other).1 ≡ true)
      × (block ≤ get_scanned_block (set_scanned_block now clock t s block other).0 s)
unfolding set_scanned_block get_scanned_block try_claim_scanner_scope
skewed_write t s w other until now clock block lease d h early late =
    ground (arith, eq_iff w other, eq_iff s s)
