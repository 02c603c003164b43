-- ===== src/Scanner/Trc20.antt =====
-- internal/scanner/poller.go: the Transfer events of one TRC-20 contract in a batch of blocks, as the
-- forward scan (scanTrc20WithLease) and the replay (replayTrc20Range) match and publish them, and the
-- cursor after a batch (trc20CursorAfterBatch).
pub mod Scan
pub mod Batch
pub mod Watched
pub mod Pages
pub mod Statements
pub mod Ends
pub mod Examples
use tronvent.Base.{
  ℕ, zero, suc, ◌+◌, ◌-◌, String, Bool, true, false, ◌&&◌, ◌||◌, Option, none, some, List, [], ◌∷◌,
  ◌++◌, ltb, leb, ◌==◌, str_eq, any, if◌then◌else◌,
}
use tronvent.Payload.{Envelope}
use tronvent.Confirm.{AddressConfirm, Database, new_address_confirm, prefetch}
use tronvent.Scanner.Match.{
  RawEvent, Block, Texts, Enqueued, bloom_confirm_candidates, matched_transfer_events, check_role,
  transfer_event_key, enqueue_outbox_events,
}
use tronvent.Scanner.Trx.{World}

-- tronGridTrc20Event
pub record TransferEvent : Type 0 where
  pub transaction_id : String
  pub block_number : ℕ
  pub block_timestamp : ℕ
  pub from : String
  pub to : String
  pub value : String

-- The least and the highest time of the blocks, where 0 means that there is none yet.
unfoldable pub time_window : List Block → ℕ → ℕ → ℕ × ℕ
time_window [] min_ts max_ts = (min_ts, max_ts)
time_window (b ∷ bs) min_ts max_ts =
    time_window bs (if min_ts == 0 || ltb b.timestamp min_ts then b.timestamp else min_ts)
      (if ltb max_ts b.timestamp then b.timestamp else max_ts)

abbrev pub in_window : ℕ → ℕ → TransferEvent → Bool
in_window batch_start batch_end e = leb batch_start e.block_number && leb e.block_number batch_end

-- trc20CursorAfterBatch; a difference below 0 is below every block of a batch.
unfoldable pub trc20_cursor_after_batch : ℕ → ℕ → ℕ → ℕ → ℕ
trc20_cursor_after_batch retain from_block batch_start batch_end =
    let candidate =
      if ltb (batch_end - retain) (batch_start - 1) then batch_start - 1 else batch_end - retain in
    if retain == 0 then batch_end else if ltb candidate from_block then from_block else candidate

-- eventsByBlock
abbrev pub EventsByBlock : Type 0
EventsByBlock = ℕ → List RawEvent

abbrev pub put_event : ℕ → RawEvent → EventsByBlock → EventsByBlock
put_event block ev by_block = λ n. if block == n then by_block n ++ ev ∷ [] else by_block n

-- The loop over the events that one transfer gives, less those whose key was seen in the batch.
unfoldable pub add_unseen :
    ℕ → List RawEvent → List String → EventsByBlock → List String × EventsByBlock
add_unseen block [] seen by_block = (seen, by_block)
add_unseen block (ev ∷ evs) seen by_block =
    let key = transfer_event_key ev in
    let skip = any (λ k. str_eq k key) seen in
    add_unseen block evs (if skip then seen else key ∷ seen)
      (if skip then by_block else put_event block ev by_block)

module _ (texts : Texts) (db : Database) (contains : String → Bool) (chain_tip : ℕ)
    (contract : String) where
  abbrev pub transfer_of : TransferEvent → RawEvent
  transfer_of e = record {
    type = "TRC20";
    direction = "";
    tx_hash = e.transaction_id;
    from_address = texts.hex_to_base58 e.from;
    to_address = texts.hex_to_base58 e.to;
    amount = e.value;
    token_contract_address = contract;
    block_number = e.block_number;
    block_timestamp = e.block_timestamp;
    confirmations = 0;
  }

  -- The addresses that one query confirms for the batch.
  unfoldable pub prefetch_addresses : ℕ → ℕ → List TransferEvent → List String
  prefetch_addresses batch_start batch_end [] = []
  prefetch_addresses batch_start batch_end (e ∷ es) =
      (if in_window batch_start batch_end e
        then bloom_confirm_candidates contains (texts.hex_to_base58 e.from)
            (texts.hex_to_base58 e.to)
        else [])
      ++ prefetch_addresses batch_start batch_end es

  -- The replay asks for both roles of a transfer first, for its log.
  abbrev pub probe_roles : Bool → RawEvent → AddressConfirm → AddressConfirm
  probe_roles false ev c = c
  probe_roles true ev c =
      (check_role db contains chain_tip ev.from_address
        (check_role db contains chain_tip ev.to_address c).0).0

  abbrev pub match_event : Bool → TransferEvent → AddressConfirm → AddressConfirm × List RawEvent
  match_event replay e c =
      matched_transfer_events db contains chain_tip (transfer_of e)
        (probe_roles replay (transfer_of e) c)

  unfoldable pub collect :
      Bool
      → ℕ
      → ℕ
      → List TransferEvent
      → AddressConfirm
      → List String
      → EventsByBlock
      → AddressConfirm × EventsByBlock
  collect replay batch_start batch_end [] c seen by_block = (c, by_block)
  collect replay batch_start batch_end (e ∷ es) c seen by_block =
      let (c', matched) = match_event replay e c in
      let (seen', by_block') = add_unseen e.block_number matched seen by_block in
      let within = in_window batch_start batch_end e in
      collect replay batch_start batch_end es (if within then c' else c)
        (if within then seen' else seen) (if within then by_block' else by_block)

  -- The events of the batch by block, and the queries made, with a confirmation cache of its own.
  unfoldable pub batch_events :
      Bool → ℕ → ℕ → List TransferEvent → ℕ → AddressConfirm × EventsByBlock
  batch_events replay batch_start batch_end events queries =
      collect replay batch_start batch_end events
        (prefetch db (prefetch_addresses batch_start batch_end events)
          (new_address_confirm queries))
        [] (λ n. [])

module _ {O : Type 0} (texts : Texts)
    (enqueue : O → String → String → RawEvent → Envelope → O × Enqueued) where
  -- `count` blocks from `block_num` on, in order; an error is only logged.
  unfoldable pub publish_blocks : String → ℕ → ℕ → EventsByBlock → O → O
  publish_blocks contract zero block_num by_block o = o
  publish_blocks contract (suc count) block_num by_block o =
      publish_blocks contract count (block_num + 1) by_block
        (enqueue_outbox_events texts enqueue contract (by_block block_num) o 0).0

  unfoldable pub publish_batch :
      Database
      → (String → Bool)
      → ℕ
      → String
      → Bool
      → ℕ
      → ℕ
      → List TransferEvent
      → World O
      → World O
  publish_batch db contains chain_tip contract replay batch_start batch_end events w =
      let (c, by_block) =
        batch_events texts db contains chain_tip contract replay batch_start batch_end events
          w.queries in
      record w {
        queries = c.queries;
        outbox =
            publish_blocks contract (batch_end + 1 - batch_start) batch_start by_block w.outbox;
      }
