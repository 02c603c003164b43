-- ===== src/Scanner/Match.antt =====
-- internal/scanner/matched_events.go, trx_block.go and transfer_key.go, and the part of poller.go
-- that hands events to the outbox.
use tronvent.Base.{
  ℕ, ◌+◌, ◌-◌, String, ◌<>◌, Bool, true, false, not, ◌&&◌, Option, none, some, List, [], ◌∷◌, ◌++◌,
  leb, str_eq, if◌then◌else◌,
}
use tronvent.Payload.{
  Envelope, direction_received, direction_broadcasted, transfer_event_type, transfer_dedupe_key,
  new_directed_transaction_envelope,
}
use tronvent.Confirm.{AddressConfirm, Database, is_active}

pub record RawEvent : Type 0 where
  pub type : String
  pub direction : String
  pub tx_hash : String
  pub from_address : String
  pub to_address : String
  pub amount : String
  pub token_contract_address : String
  pub block_number : ℕ
  pub block_timestamp : ℕ
  pub confirmations : ℕ

pub record Contract : Type 0 where
  pub type : String
  pub amount : ℕ
  pub to_address : String
  pub owner_address : String

pub record Transaction : Type 0 where
  pub tx_id : String
  pub contracts : List Contract

-- tronGridBlock
pub record Block : Type 0 where
  pub number : ℕ
  pub timestamp : ℕ
  pub transactions : List Transaction

pub record TrxTransferLeg : Type 0 where
  pub tx_id : String
  pub from_addr : String
  pub to_addr : String
  pub amount : String
  pub block_ts : ℕ

pub record Texts : Type 0 where
  pub hex_to_base58 : String → String
  pub sun_to_trx : ℕ → String
  pub event_occurred_at : ℕ → String

unfoldable pub confirmations_at : ℕ → ℕ → ℕ
confirmations_at chain_tip block_number =
    if leb chain_tip block_number then 0 else chain_tip - block_number

-- transferEventKey
unfoldable pub transfer_event_key : RawEvent → String
transfer_event_key ev =
    ev.tx_hash
    <> (":"
        <> (ev.direction <> (":" <> transfer_dedupe_key ev.from_address ev.to_address ev.amount)))

-- bloomConfirmCandidates
unfoldable pub bloom_confirm_candidates : (String → Bool) → String → String → List String
bloom_confirm_candidates contains from to =
    (if contains to then to ∷ [] else [])
    ++ (if contains from && not (str_eq from to) then from ∷ [] else [])

unfoldable pub bloom_prefetch_from_trx_legs : (String → Bool) → List TrxTransferLeg → List String
bloom_prefetch_from_trx_legs contains [] = []
bloom_prefetch_from_trx_legs contains (leg ∷ legs) =
    bloom_confirm_candidates contains leg.from_addr leg.to_addr
    ++ bloom_prefetch_from_trx_legs contains legs

module _ (texts : Texts) where
  abbrev leg_of : ℕ → String → List Contract → Option TrxTransferLeg
  leg_of ts tx_id [] = none
  leg_of ts tx_id (c ∷ cs) =
      if not (str_eq c.type "TransferContract")
      then none
      else some (record {
        tx_id = tx_id;
        from_addr = texts.hex_to_base58 c.owner_address;
        to_addr = texts.hex_to_base58 c.to_address;
        amount = texts.sun_to_trx c.amount;
        block_ts = ts;
      })

  abbrev cons_leg : Option TrxTransferLeg → List TrxTransferLeg → List TrxTransferLeg
  cons_leg none legs = legs
  cons_leg (some leg) legs = leg ∷ legs

  unfoldable pub legs_of : ℕ → List Transaction → List TrxTransferLeg
  legs_of ts [] = []
  legs_of ts (tx ∷ txs) = cons_leg (leg_of ts tx.tx_id tx.contracts) (legs_of ts txs)

  unfoldable pub parse_trx_transfer_legs : Option Block → List TrxTransferLeg
  parse_trx_transfer_legs none = []
  parse_trx_transfer_legs (some block) = legs_of block.timestamp block.transactions

  unfoldable pub raw_to_webhook_envelope : RawEvent → Envelope
  raw_to_webhook_envelope ev =
      new_directed_transaction_envelope texts.event_occurred_at ev.type ev.direction
        ev.block_timestamp
        (record {
          id = "";
          tx_hash = ev.tx_hash;
          from_address = ev.from_address;
          to_address = ev.to_address;
          amount = ev.amount;
          token_contract_address = ev.token_contract_address;
          block_number = ev.block_number;
          block_timestamp = ev.block_timestamp;
          confirmations = ev.confirmations;
        })

abbrev pub directed : String → RawEvent → Bool → List RawEvent
directed direction base true = record base { direction = direction } ∷ []
directed direction base false = []

module _ (db : Database) (contains : String → Bool) (chain_tip : ℕ) where
  -- contains(address) && confirm.IsActive(address): the second is asked only after the first.
  abbrev pub check_role : String → AddressConfirm → AddressConfirm × Bool
  check_role address c = if contains address then is_active db address c else (c, false)

  -- The receiver's event and the sender's.
  abbrev pub both_roles : RawEvent → RawEvent → AddressConfirm → AddressConfirm × List RawEvent
  both_roles base ev c =
      let (c1, to_active) = check_role ev.to_address c in
      let (c2, from_active) = check_role ev.from_address c1 in
      (
        c2,
        directed direction_received base to_active
            ++ directed direction_broadcasted base from_active,
      )

  -- matchedTransferEvents, on the event without its direction and confirmations
  unfoldable pub matched_transfer_events :
      RawEvent → AddressConfirm → AddressConfirm × List RawEvent
  matched_transfer_events ev c =
      if not (contains ev.to_address) && not (contains ev.from_address)
      then (c, [])
      else both_roles (record ev { confirmations = confirmations_at chain_tip ev.block_number }) ev
          c

-- What EnqueueWebhookEvent returned: an error, or the id ("" is `none`).
pub data Enqueued : Type 0 where
  enqueue_failed : Enqueued
  enqueued : Option String → Enqueued

module _ {O : Type 0} (texts : Texts)
    (enqueue : O → String → String → RawEvent → Envelope → O × Enqueued) where
  -- enqueueOutboxEvents: the number of new events, and whether there was no error.
  unfoldable pub enqueue_outbox_events : String → List RawEvent → O → ℕ → O × ℕ × Bool
  enqueue_outbox_events scope [] o n = (o, n, true)
  enqueue_outbox_events scope (ev ∷ evs) o n =
      after_enqueue
        (enqueue o scope (transfer_event_type ev.type ev.direction) ev
          (raw_to_webhook_envelope texts ev))
        n (λ o' n'. enqueue_outbox_events scope evs o' n')
    where
      after_enqueue : O × Enqueued → ℕ → (O → ℕ → O × ℕ × Bool) → O × ℕ × Bool
      after_enqueue (o', enqueue_failed) n next = (o', n, false)
      after_enqueue (o', enqueued none) n next = next o' n
      after_enqueue (o', enqueued (some id)) n next = next o' (n + 1)
