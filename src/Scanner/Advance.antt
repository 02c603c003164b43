-- ===== src/Scanner/Advance.antt =====
-- How the forward scan moves the cursor (internal/scanner/poller.go).
use tronvent.Base.{
  ℕ, zero, suc, ◌+◌, ◌-◌, ◌≤◌, ◌<◌, String, Bool, true, false, Option, none, some, List, ◌≡◌, refl,
  inl, inr, Bool-cases, arith, ltb, ltb→lt, ◌==◌,
}
use tronvent.Payload.{Envelope}
use tronvent.Confirm.{Database}
use tronvent.Scanner.Match.{RawEvent, Block, Texts, Enqueued}
use tronvent.Scanner.Reach.{
  highest, save_highest_block_grows, renew_scope_lease_grows, save_highest_block_reaches,
  cursor_after_claim_bound,
}
use tronvent.Scanner.Replicas.{Shared}
use tronvent.Scanner.Trx.{
  World, ScanResult, scan_done, scan_failed, unfinished, batch_end_of, publish_block, save,
  and_then, commit_next, commit_blocks, renew, renew_then, with_blocks, fetch_then, commit_then,
  from_cursor, with_cursor, scan_batches, scan_trx_with_lease,
}

count_step : (count n h : ℕ) → n ≤ h → (1 ≤ count → n + 1 + count ≤ h + 1) → n + suc count ≤ h + 1
count_step zero n h a k = omega (arith, a)
count_step (suc count) n h a k = omega (arith, k (omega arith))

module _ {O : Type 0} (texts : Texts)
    (enqueue : O → String → String → RawEvent → Envelope → O × Enqueued) (db : Database)
    (contains : String → Bool) (chain_tip : ℕ) (fetch : ℕ → ℕ → ℕ → Option (List Block))
    (worker : String) where
  publish_shared :
      (n : ℕ) (blocks : List Block) (w : World O)
      → (publish_block texts enqueue db contains chain_tip fetch n blocks w).shared ≡ w.shared
  unfolding publish_block
  publish_shared n blocks w = refl

  commit_next_reaches :
      (n m : ℕ) (x : World O × Bool) (next : World O → World O × Bool)
      → (x.1 ≡ true → n ≤ highest "TRX" x.0.shared)
      → ((w : World O)
          → (highest "TRX" w.shared ≤ highest "TRX" (next w).0.shared)
            × ((next w).1 ≡ true
                → n ≤ highest "TRX" w.shared
                → m ≤ highest "TRX" (next w).0.shared + 1))
      → let r = commit_next texts enqueue db contains chain_tip fetch worker x next in
        (highest "TRX" x.0.shared ≤ highest "TRX" r.0.shared)
        × (r.1 ≡ true → m ≤ highest "TRX" r.0.shared + 1)
  commit_next_reaches n m (w, true) next h k = ((k w).0, (λ ok. (k w).1 ok (h refl)))
  commit_next_reaches n m (w, false) next h k = (omega arith, (λ ok. absurd (cc ok)))

  save-highest :
      (n : ℕ) (blocks : List Block) (w : World O)
      → let r =
          save texts enqueue db contains chain_tip fetch worker n
            (publish_block texts enqueue db contains chain_tip fetch n blocks w) in
        (highest "TRX" w.shared ≤ highest "TRX" r.0.shared)
        × (r.1 ≡ true → n ≤ highest "TRX" r.0.shared)
  unfolding publish_block
  save-highest n blocks w = (
    save_highest_block_grows "TRX" worker n w.shared,
    save_highest_block_reaches "TRX" worker n w.shared.table w.shared.turns,
  )

  commit_blocks_reach :
      (count n : ℕ) (blocks : List Block) (w : World O)
      → let r = commit_blocks texts enqueue db contains chain_tip fetch worker count n blocks w in
        (highest "TRX" w.shared ≤ highest "TRX" r.0.shared)
        × (r.1 ≡ true → 1 ≤ count → n + count ≤ highest "TRX" r.0.shared + 1)
  unfolding commit_blocks
  commit_blocks_reach zero n blocks w = (omega arith, (λ ok a. omega (arith, a)))
  commit_blocks_reach (suc count) n blocks w =
      let (grows, reaches) = save-highest n blocks w in
      let (grows', reaches') =
        commit_next_reaches n (n + suc count) _
          (λ w'.
            commit_blocks texts enqueue db contains chain_tip fetch worker count (n + 1) blocks w')
          reaches
          (λ w'.
            let (g, r) = commit_blocks_reach count (n + 1) blocks w' in
            (g, (λ ok a. count_step count n _ (omega (arith, a, g)) (r ok)))) in
      (omega (arith, grows, grows'), (λ ok a. reaches' ok))

  -- Where the scan came to its end, it reached the block; it never ran out of fuel.
  abbrev pub Ends : ℕ → World O × ScanResult → Type 0
  Ends latest (w, scan_done) = latest ≤ highest "TRX" w.shared
  Ends latest (w, scan_failed) = Unit
  Ends latest (w, unfinished) = ⊥

  and_then-Ends :
      (latest from : ℕ) (x : World O × Bool) (next : World O → World O × ScanResult)
      → (x.1 ≡ true → from ≤ highest "TRX" x.0.shared)
      → ((w : World O) → from ≤ highest "TRX" w.shared → Ends latest (next w))
      → Ends latest (and_then texts enqueue db contains chain_tip fetch worker x next)
  and_then-Ends latest from (w, true) next h k = k w (h refl)
  and_then-Ends latest from (w, false) next h k = tt

  renew_then-Ends :
      (latest from : ℕ) (w : World O) (next : World O → World O × ScanResult)
      → from ≤ highest "TRX" w.shared
      → ((w' : World O) → from ≤ highest "TRX" w'.shared → Ends latest (next w'))
      → Ends latest (renew_then texts enqueue db contains chain_tip fetch worker w next)
  unfolding renew_then
  renew_then-Ends latest from w next h k =
      and_then-Ends latest from (renew texts enqueue db contains chain_tip fetch worker w) next
        (λ ok. omega (arith, h, renew_scope_lease_grows "TRX" worker w.shared)) k

  with_blocks-Ends :
      (latest : ℕ) (blocks : Option (List Block)) (w : World O)
      → (next : List Block → World O → World O × ScanResult)
      → ((bs : List Block) (w' : World O) → Ends latest (next bs w'))
      → Ends latest (with_blocks texts enqueue db contains chain_tip fetch worker blocks w next)
  with_blocks-Ends latest none w next k = tt
  with_blocks-Ends latest (some bs) w next k = k bs w

  fetch_then-Ends :
      (latest start_num end_num : ℕ) (w : World O)
      → (next : List Block → World O → World O × ScanResult)
      → ((bs : List Block) (w' : World O) → Ends latest (next bs w'))
      → Ends latest
          (fetch_then texts enqueue db contains chain_tip fetch worker start_num end_num w next)
  unfolding fetch_then
  fetch_then-Ends latest start_num end_num w next k =
      with_blocks-Ends latest (fetch w.requests start_num end_num) _ next k

  commit_then-Ends :
      (latest batch_start batch_end : ℕ) (blocks : List Block) (w : World O)
      → (next : World O → World O × ScanResult) → batch_start ≤ batch_end
      → ((w' : World O) → batch_end ≤ highest "TRX" w'.shared → Ends latest (next w'))
      → Ends latest (
          commit_then texts enqueue db contains chain_tip fetch worker batch_start batch_end blocks
            w next)
  unfolding commit_then
  commit_then-Ends latest batch_start batch_end blocks w next a k =
      and_then-Ends latest batch_end
        (commit_blocks texts enqueue db contains chain_tip fetch worker
          (batch_end + 1 - batch_start) batch_start blocks w)
        next
        (λ ok. omega (
          arith,
          a,
          (commit_blocks_reach (batch_end + 1 - batch_start) batch_start blocks w).1 ok
              (omega (arith, a)),
        ))
        k

  scan_batches-Ends :
      (fuel latest batch_start : ℕ) (w : World O)
      → (latest < batch_start → latest ≤ highest "TRX" w.shared)
      → latest < batch_start + fuel
      → Ends latest
          (scan_batches texts enqueue db contains chain_tip fetch worker fuel latest batch_start w)
  unfolding scan_batches
  scan_batches-Ends zero latest batch_start w h f = elim (Bool-cases (ltb latest batch_start)) [
    | inl e ↦ rw e (h (ltb→lt latest batch_start e))
    | inr e ↦ absurd (ground (arith, e, f))
  ]
  scan_batches-Ends (suc fuel) latest batch_start w h f =
      elim (Bool-cases (ltb latest batch_start)) [
        | inl e ↦ rw e (h (ltb→lt latest batch_start e))
        | inr e ↦ rw e (
            renew_then-Ends latest 0 w _ (omega arith) (λ w1 h1.
              fetch_then-Ends latest batch_start _ w1 _ (λ blocks w2.
                renew_then-Ends latest 0 w2 _ (omega arith) (λ w3 h3.
                  commit_then-Ends latest batch_start _ blocks w3 _ (ground (arith, e)) (λ w4 h4.
                    renew_then-Ends latest _ w4 _ h4 (λ w5 h5.
                      scan_batches-Ends fuel latest (batch_end_of batch_start latest + 1) w5
                        (λ l. omega (arith, l, h5)) (ground (arith, e, f))))))))
      ]

  from_cursor-Ends :
      (start_block fuel latest from : ℕ) (w : World O)
      → from ≤ highest "TRX" w.shared
      → start_block < latest
      → latest ≤ fuel
      → Ends latest (
          from_cursor texts enqueue db contains chain_tip fetch worker start_block fuel latest from
            w)
  from_cursor-Ends start_block fuel latest from w h s f = elim (Bool-cases (from == 0)) [
    | inr e ↦ rw e (
        scan_batches-Ends fuel latest (from + 1) w (λ l. omega (arith, l, h))
          (ground (arith, e, f)))
    | inl e ↦ rw e (elim (Bool-cases (ltb 0 start_block)) [
      | inl b ↦ rw b (
          scan_batches-Ends fuel latest (start_block + 1) w (λ l. absurd (omega (arith, l, s)))
            (omega (arith, f)))
      | inr b ↦ rw b (
          and_then-Ends latest latest _ _
            (save_highest_block_reaches "TRX" worker latest w.shared.table w.shared.turns)
            (λ w' r. scan_batches-Ends fuel latest (latest + 1) w' (λ l. r) (omega (arith, f))))
    ])
  ]

  with_cursor-Ends :
      (start_block fuel latest : ℕ) (w : World O) (r : Shared × Option ℕ)
      → ((from : ℕ) → r.1 ≡ some from → from ≤ highest "TRX" r.0)
      → start_block < latest
      → latest ≤ fuel
      → Ends latest
          (with_cursor texts enqueue db contains chain_tip fetch worker start_block fuel latest w r)
  with_cursor-Ends start_block fuel latest w (s, none) h a f = tt
  with_cursor-Ends start_block fuel latest w (s, some from) h a f =
      from_cursor-Ends start_block fuel latest from (record w { shared = s }) (h from refl) a f

  -- The forward scan reaches the safe block. On the fuel of as many rounds as the safe block's
  -- number, scanTrxWithLease never runs out, and where it returns nil, the cursor of TRX is at the
  -- safe block or beyond: whatever the other replicas do in between, and whatever TronGrid returned
  -- and the outbox answered, so also past blocks that were missing in a response and blocks whose
  -- events the outbox refused. Conditions: the block that the claim returned is not beyond the
  -- cursor, and a configured start block is below the safe block.
  pub scan_trx_with_lease-Ends :
      (start_block fuel latest at_claim : ℕ) (w : World O)
      → at_claim ≤ highest "TRX" w.shared
      → start_block < latest
      → latest ≤ fuel
      → Ends latest (
          scan_trx_with_lease texts enqueue db contains chain_tip fetch worker start_block fuel
            latest at_claim w)
  unfolding scan_trx_with_lease
  scan_trx_with_lease-Ends start_block fuel latest at_claim w h s f =
      with_cursor-Ends start_block fuel latest w _
        (λ from e. cursor_after_claim_bound "TRX" at_claim w.shared.table w.shared.turns from h e) s
        f
