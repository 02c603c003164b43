-- ===== src/Scanner/Replicas.antt =====
-- The table scanner_cursors as one replica's scan uses it (internal/scanner/scope_lease.go and
-- poller.go): between two of its statements, other replicas run theirs, and each statement of its
-- own can fail.
use tronvent.Base.{
  ℕ, String, Bool, true, false, Option, none, some, List, [], ◌∷◌, ltb, if◌then◌else◌,
}
use tronvent.Cursor.{
  Cursors, Call, run, get_scanned_block, set_scanned_block, try_claim_scanner_scope,
  renew_scanner_scope_lease, release_scanner_scope, scanner_scope_lease_duration,
}

-- What goes on around one statement: what the others ran before it, the database's clock and the
-- replica's, and whether the database answers.
pub record Turn : Type 0 where
  pub others : List (ℕ × Call)
  pub now : ℕ
  pub clock : ℕ
  pub answers : Bool

-- The turns to come; after the last, the database no longer answers.
pub record Shared : Type 0 where
  pub table : Cursors
  pub turns : List Turn

abbrev pub Statement : Type 0 → Type 0
Statement R = ℕ → ℕ → Cursors → Cursors × R

abbrev pub in_turn : {R : Type 0} → Cursors → List Turn → Bool → R → Cursors × R → Shared × R
in_turn before rest true failed (after, r) = (record { table = after; turns = rest }, r)
in_turn before rest false failed (after, r) = (record { table = before; turns = rest }, failed)

abbrev pub statement : {R : Type 0} → Statement R → R → Cursors → List Turn → Shared × R
statement f failed table [] = (record { table = table; turns = [] }, failed)
statement f failed table (t ∷ ts) =
    in_turn (run table t.others) ts t.answers failed (f t.now t.clock (run table t.others))

-- getHighestBlock; `none` is an error.
unfoldable pub get_highest_block : String → Shared → Shared × Option ℕ
get_highest_block scope s =
    statement (λ now clock t. (t, some (get_scanned_block t scope))) none s.table s.turns

-- saveHighestBlock by the worker; `false` is an error.
unfoldable pub save_highest_block : String → String → ℕ → Shared → Shared × Bool
save_highest_block worker scope block s =
    statement (λ now clock t. set_scanned_block now clock t scope block worker) false s.table
      s.turns

unfoldable pub renew_scope_lease : String → String → Shared → Shared × Bool
renew_scope_lease worker scope s =
    statement
      (λ now clock t. renew_scanner_scope_lease now t scope worker scanner_scope_lease_duration)
      false s.table s.turns

-- The claim at the start of withScopeLease: an error, another holder, or the cursor.
pub data Claimed : Type 0 where
  claim_failed held_elsewhere : Claimed
  claimed_at : ℕ → Claimed

abbrev claimed_if : Cursors × ℕ × Bool → Cursors × Claimed
claimed_if (t, block, true) = (t, claimed_at block)
claimed_if (t, block, false) = (t, held_elsewhere)

unfoldable pub claim_scope : String → String → Shared → Shared × Claimed
claim_scope worker scope s =
    statement
      (λ now clock t.
        claimed_if (try_claim_scanner_scope now t scope worker scanner_scope_lease_duration))
      claim_failed s.table s.turns

unfoldable pub release_scope : String → String → Shared → Shared × Bool
release_scope worker scope s =
    statement (λ now clock t. release_scanner_scope now t scope worker) false s.table s.turns

abbrev higher : ℕ → Option ℕ → Option ℕ
higher at_claim none = none
higher at_claim (some block) = some (if ltb block at_claim then at_claim else block)

-- cursorAfterClaim
unfoldable pub cursor_after_claim : String → ℕ → Shared → Shared × Option ℕ
cursor_after_claim scope at_claim s =
    let (s', block) = get_highest_block scope s in (s', higher at_claim block)
