-- ===== src/Scanner/Trx.antt =====
-- internal/scanner/poller.go: the forward scan of native TRX transfers (scanTrx,
-- scanTrxWithLease) and the replay of a range (replayTrxRange). The loop over the batches runs on
-- fuel; `unfinished` means that there was too little.
use tronvent.Base.{
  ℕ, zero, suc, ◌+◌, ◌-◌, String, Bool, true, false, Option, none, some, List, [], ◌∷◌, ◌++◌, ltb,
  ◌==◌, if◌then◌else◌,
}
use tronvent.Payload.{Envelope}
use tronvent.Confirm.{AddressConfirm, Database, new_address_confirm, prefetch}
use tronvent.Scanner.Match.{
  RawEvent, Block, TrxTransferLeg, Texts, Enqueued, bloom_prefetch_from_trx_legs,
  parse_trx_transfer_legs, matched_transfer_events, enqueue_outbox_events,
}
use tronvent.Scanner.Replicas.{
  Shared, save_highest_block, renew_scope_lease, claim_scope, release_scope, cursor_after_claim,
  Claimed, claim_failed, held_elsewhere, claimed_at,
}

abbrev pub block_batch_size : ℕ
block_batch_size = 100

-- The shared table, the requests to TronGrid and the queries of the watchlist so far, the outbox.
pub record World (O : Type 0) : Type 0 where
  pub shared : Shared
  pub requests : ℕ
  pub queries : ℕ
  pub outbox : O

pub data ScanResult : Type 0 where
  scan_done scan_failed unfinished : ScanResult

-- blockMap[n]: the last block of the response with the number
unfoldable pub block_at : ℕ → List Block → Option Block
block_at n [] = none
block_at n (b ∷ bs) =
    let later = block_at n bs in
    elim later [ some c ↦ some c | none ↦ if b.number == n then some b else none ]

abbrev pub batch_end_of : ℕ → ℕ → ℕ
batch_end_of batch_start latest =
    if ltb latest (batch_start + block_batch_size - 1)
    then latest
    else batch_start + block_batch_size - 1

module _ {O : Type 0} (texts : Texts)
    (enqueue : O → String → String → RawEvent → Envelope → O × Enqueued) (db : Database)
    (contains : String → Bool) (chain_tip : ℕ) (fetch : ℕ → ℕ → ℕ → Option (List Block)) where
  -- The events of the legs, in order.
  unfoldable pub match_legs :
      ℕ → List TrxTransferLeg → AddressConfirm → AddressConfirm × List RawEvent
  match_legs block_num [] c = (c, [])
  match_legs block_num (leg ∷ legs) c =
      let (c1, matched) =
        matched_transfer_events db contains chain_tip
          (record {
            type = "TRX";
            direction = "";
            tx_hash = leg.tx_id;
            from_address = leg.from_addr;
            to_address = leg.to_addr;
            amount = leg.amount;
            token_contract_address = "";
            block_number = block_num;
            block_timestamp = leg.block_ts;
            confirmations = 0;
          })
          c in
      let (c2, rest) = match_legs block_num legs c1 in (c2, matched ++ rest)

  -- A block's events, by a confirmation cache of its own.
  unfoldable pub block_events : ℕ → Option Block → ℕ → ℕ × List RawEvent
  block_events block_num none queries = (queries, [])
  block_events block_num (some block) queries =
      let legs = parse_trx_transfer_legs texts (some block) in
      let (c, events) =
        match_legs block_num legs (
          prefetch db (bloom_prefetch_from_trx_legs contains legs) (new_address_confirm queries)) in
      (c.queries, events)

  -- The events of a block go to the outbox; an error is only logged.
  unfoldable pub publish_block : ℕ → List Block → World O → World O
  publish_block block_num blocks w =
      let (queries, events) = block_events block_num (block_at block_num blocks) w.queries in
      record w {
        queries = queries;
        outbox = (enqueue_outbox_events texts enqueue "TRX" events w.outbox 0).0;
      }

  module _ (worker : String) where
    abbrev on_shared : Shared × Bool → World O → World O × Bool
    on_shared (s, b) w = (record w { shared = s }, b)

    abbrev pub renew : World O → World O × Bool
    renew w = on_shared (renew_scope_lease worker "TRX" w.shared) w

    abbrev pub save : ℕ → World O → World O × Bool
    save block w = on_shared (save_highest_block worker "TRX" block w.shared) w

    abbrev pub and_then : World O × Bool → (World O → World O × ScanResult) → World O × ScanResult
    and_then (w, true) next = next w
    and_then (w, false) next = (w, scan_failed)

    abbrev pub commit_next : World O × Bool → (World O → World O × Bool) → World O × Bool
    commit_next (w, true) next = next w
    commit_next (w, false) next = (w, false)

    -- The commit of `count` blocks from `block_num` on: publish, then save the cursor.
    unfoldable pub commit_blocks : ℕ → ℕ → List Block → World O → World O × Bool
    commit_blocks zero block_num blocks w = (w, true)
    commit_blocks (suc count) block_num blocks w =
        commit_next (save block_num (publish_block block_num blocks w))
          (λ w'. commit_blocks count (block_num + 1) blocks w')

    -- The stages of a batch, each before what follows it: the renewal of the lease,
    unfoldable pub renew_then : World O → (World O → World O × ScanResult) → World O × ScanResult
    renew_then w next = and_then (renew w) next

    abbrev pub with_blocks :
        Option (List Block)
        → World O
        → (List Block → World O → World O × ScanResult)
        → World O × ScanResult
    with_blocks none w next = (w, scan_failed)
    with_blocks (some blocks) w next = next blocks w

    -- getBlockRange,
    unfoldable pub fetch_then :
        ℕ → ℕ → World O → (List Block → World O → World O × ScanResult) → World O × ScanResult
    fetch_then start_num end_num w next =
        with_blocks (fetch w.requests start_num end_num) (record w { requests = w.requests + 1 })
          next

    -- and the commit of the blocks from `batch_start` to `batch_end`.
    unfoldable pub commit_then :
        ℕ → ℕ → List Block → World O → (World O → World O × ScanResult) → World O × ScanResult
    commit_then batch_start batch_end blocks w next =
        and_then (commit_blocks (batch_end + 1 - batch_start) batch_start blocks w) next

    unfoldable pub scan_batches : ℕ → ℕ → ℕ → World O → World O × ScanResult
    scan_batches zero latest batch_start w =
        if ltb latest batch_start then (w, scan_done) else (w, unfinished)
    scan_batches (suc fuel) latest batch_start w =
        let batch_end = batch_end_of batch_start latest in
        let batch = renew_then w (λ w1. fetch_then batch_start (batch_end + 1) w1 (λ blocks w2.
          renew_then w2 (λ w3.
            commit_then batch_start batch_end blocks w3
              (λ w4. renew_then w4 (λ w5. scan_batches fuel latest (batch_end + 1) w5))))) in
        if ltb latest batch_start then (w, scan_done) else batch

    -- No cursor: from the start block, or from the safe tip, which is saved first.
    abbrev pub from_cursor : ℕ → ℕ → ℕ → ℕ → World O → World O × ScanResult
    from_cursor start_block fuel latest from w =
        if from == 0
        then if ltb 0 start_block
          then scan_batches fuel latest (start_block + 1) w
          else and_then (save latest w) (λ w'. scan_batches fuel latest (latest + 1) w')
        else scan_batches fuel latest (from + 1) w

    abbrev pub with_cursor : ℕ → ℕ → ℕ → World O → Shared × Option ℕ → World O × ScanResult
    with_cursor start_block fuel latest w (s, none) = (record w { shared = s }, scan_failed)
    with_cursor start_block fuel latest w (s, some from) =
        from_cursor start_block fuel latest from (record w { shared = s })

    unfoldable pub scan_trx_with_lease : ℕ → ℕ → ℕ → ℕ → World O → World O × ScanResult
    scan_trx_with_lease start_block fuel latest at_claim w =
        with_cursor start_block fuel latest w (cursor_after_claim "TRX" at_claim w.shared)

    abbrev released : World O × ScanResult → World O × ScanResult
    released (w, r) = (record w { shared = (release_scope worker "TRX" w.shared).0 }, r)

    abbrev with_claim : ℕ → ℕ → ℕ → World O → Shared × Claimed → World O × ScanResult
    with_claim start_block fuel latest w (s, claim_failed) = (record w { shared = s }, scan_failed)
    with_claim start_block fuel latest w (s, held_elsewhere) = (record w { shared = s }, scan_done)
    with_claim start_block fuel latest w (s, claimed_at block) =
        released (scan_trx_with_lease start_block fuel latest block (record w { shared = s }))

    -- scanTrx, by withScopeLease
    unfoldable pub scan_trx : ℕ → ℕ → ℕ → World O → World O × ScanResult
    scan_trx start_block fuel latest w =
        with_claim start_block fuel latest w (claim_scope worker "TRX" w.shared)

  abbrev replay_blocks : ℕ → ℕ → List Block → World O → World O
  replay_blocks zero block_num blocks w = w
  replay_blocks (suc count) block_num blocks w =
      replay_blocks count (block_num + 1) blocks (publish_block block_num blocks w)

  abbrev pub replay_fetched :
      Option (List Block)
      → ℕ
      → ℕ
      → World O
      → (World O → World O × ScanResult)
      → World O × ScanResult
  replay_fetched none count batch_start w next = (w, scan_failed)
  replay_fetched (some blocks) count batch_start w next =
      next (replay_blocks count batch_start blocks w)

  -- replayTrxRange: the cursor is neither read nor written.
  unfoldable pub replay_trx_range : ℕ → ℕ → ℕ → World O → World O × ScanResult
  replay_trx_range zero to_block batch_start w =
      if ltb to_block batch_start then (w, scan_done) else (w, unfinished)
  replay_trx_range (suc fuel) to_block batch_start w =
      let batch_end = batch_end_of batch_start to_block in
      let batch =
        replay_fetched (fetch w.requests batch_start (batch_end + 1)) (batch_end + 1 - batch_start)
          batch_start (record w { requests = w.requests + 1 })
          (λ w'. replay_trx_range fuel to_block (batch_end + 1) w') in
      if ltb to_block batch_start then (w, scan_done) else batch
