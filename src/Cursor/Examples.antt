-- ===== src/Cursor/Examples.antt =====
-- Histories of two replicas on one scope of scanner_cursors (internal/db/scanner.go).
use tronvent.Base.{
  ℕ, ◌*◌, ◌≤◌, String, true, false, none, some, List, [], ◌∷◌, ◌≡◌, ◌≢◌, refl, max, arith, eq_iff,
}
use tronvent.Cursor.{
  Cursors, Call, claim, renew, release, set_block, step, run, put, get_scanned_block,
  set_scanned_block, try_claim_scanner_scope, renew_scanner_scope_lease, lease_end, second,
  lease_seconds, release_scanner_scope,
}
use tronvent.Cursor.Progress.{best, run-highest, claim-set_scanned_block}
use tronvent.Cursor.Lease.{AllForeign, Refused, claim_exclusive, holder_commits, skewed_write}

abbrev fresh : Cursors
fresh scope = none

abbrev minute : ℕ
minute = 60 * second

-- Replica `a` holds TRX from time 0 for a minute.
abbrev leased : Cursors
leased = put fresh "TRX" (record {
  highest_block = 40;
  locked_by = some "a";
  locked_until = some minute;
  updated_at = 0;
})

-- What replica `b` tries meanwhile.
abbrev intrusions : List (ℕ × Call)
intrusions =
    (1, claim "TRX" "b" minute)
    ∷ (2, set_block 2 "TRX" 90 "b")
    ∷ (3, renew "TRX" "b" minute)
    ∷ (4, release "TRX" "b")
    ∷ []

a_not_b : ◌≢◌ {A = String} "b" "a"
a_not_b = ground (arith, eq_iff "b" "a")

a_named : ◌≢◌ {A = String} "a" ""
a_named = ground (arith, eq_iff "a" "")

b_named : ◌≢◌ {A = String} "b" ""
b_named = ground (arith, eq_iff "b" "")

intrusions_foreign : AllForeign "a" minute intrusions
intrusions_foreign = (
  (omega arith, a_not_b),
  ((omega arith, a_not_b, b_named), ((omega arith, a_not_b), ((omega arith, a_not_b), tt))),
)

lease_default : lease_seconds 0 ≡ 600
unfolding lease_seconds
lease_default = refl

run-highest_example : get_scanned_block (run leased ((5, set_block 5 "TRX" 45 "a") ∷ [])) "TRX" ≡ 45
unfolding best step set_scanned_block get_scanned_block
run-highest_example = run-highest leased "TRX" ((5, set_block 5 "TRX" 45 "a") ∷ [])

claim-set_scanned_block_example :
    45
    ≤ (try_claim_scanner_scope 9
        (run (set_scanned_block 5 5 leased "TRX" 45 "a").0 ((6, release "TRX" "a") ∷ []))
        "TRX"
        "b"
        minute).1
unfolding set_scanned_block try_claim_scanner_scope run step release_scanner_scope
claim-set_scanned_block_example =
    claim-set_scanned_block 5 5 9 leased "TRX" "b" "a" 45 minute ((6, release "TRX" "a") ∷ []) refl
      refl

claim_exclusive_example :
    let t = (try_claim_scanner_scope 0 fresh "TRX" "a" minute).0 in
    (run t intrusions "TRX" ≡ t "TRX") × Refused "TRX" t intrusions
unfolding try_claim_scanner_scope lease_end
claim_exclusive_example =
    claim_exclusive 0 fresh "TRX" "a" minute intrusions a_named refl intrusions_foreign

holder_commits_example :
    let u = run leased intrusions in
    ((set_scanned_block 9 70 u "TRX" 52 "a").1 ≡ true)
    × (get_scanned_block (set_scanned_block 9 70 u "TRX" 52 "a").0 "TRX" ≡ max 40 52)
    × ((renew_scanner_scope_lease 9 u "TRX" "a" minute).1 ≡ true)
unfolding get_scanned_block
holder_commits_example =
    holder_commits leased "TRX" "a" minute 9 70 52 minute intrusions a_named (refl, refl)
      intrusions_foreign

skewed_write_example :
    ((try_claim_scanner_scope 9 leased "TRX" "b" minute).2 ≡ false)
    × ((set_scanned_block 9 minute leased "TRX" 52 "b").1 ≡ true)
    × (52 ≤ get_scanned_block (set_scanned_block 9 minute leased "TRX" 52 "b").0 "TRX")
skewed_write_example =
    skewed_write leased "TRX" "a" "b" minute 9 minute 52 minute a_not_b (refl, refl) (omega arith)
      (omega arith)
