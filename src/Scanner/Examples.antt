-- ===== src/Scanner/Examples.antt =====
-- Witnesses for the scan of TRX (internal/scanner).
use tronvent.Base.{ℕ, ◌+◌, ◌≤◌, String, true, some, [], ◌∷◌, ◌≡◌, arith, any, eq_iff, refl}
use tronvent.Payload.{Envelope, direction_received}
use tronvent.Cursor.{Cursors, claim, get_scanned_block}
use tronvent.Confirm.{new_address_confirm}
use tronvent.Confirm.FailOpen.{new_address_confirm-KeepsWatched}
use tronvent.Confirm.Examples.{on_list, failing, failing-Truthful}
use tronvent.Scanner.Match.{RawEvent, Texts, Enqueued, enqueue_failed, matched_transfer_events}
use tronvent.Scanner.Replicas.{Turn}
use tronvent.Scanner.Trx.{World, scan_trx_with_lease}
use tronvent.Scanner.Matched.{receiver, is_leg, matched_transfer_events-watched}
use tronvent.Scanner.Reach.{highest}
use tronvent.Scanner.Advance.{Ends, scan_trx_with_lease-Ends}

abbrev pub texts : Texts
texts = record { hex_to_base58 = λ s. s; sun_to_trx = λ n. "1"; event_occurred_at = λ n. "t" }

abbrev transfer : RawEvent
transfer = record {
  type = "TRX";
  direction = "";
  tx_hash = "aa";
  from_address = "Ta";
  to_address = "Tb";
  amount = "5";
  token_contract_address = "";
  block_number = 7;
  block_timestamp = 70;
  confirmations = 0;
}

matched_transfer_events-watched_example :
    any
      (is_leg transfer direction_received)
      (matched_transfer_events failing on_list 27 transfer (new_address_confirm 0)).1
    ≡ true
matched_transfer_events-watched_example =
    matched_transfer_events-watched failing on_list on_list failing-Truthful 27 receiver transfer
      (new_address_confirm 0) (new_address_confirm-KeepsWatched on_list 0)
      (ground (arith, eq_iff "Tb" "")) refl refl

-- An outbox that refuses every event.
abbrev pub refuse : ℕ → String → String → RawEvent → Envelope → ℕ × Enqueued
refuse n scope type ev payload = (n + 1, enqueue_failed)

-- The lease is held by `a`; another replica tries to take it in the meantime.
abbrev pub table : Cursors
table scope =
    some (record {
      highest_block = 40;
      locked_by = some "a";
      locked_until = some 1000;
      updated_at = 0;
    })

abbrev pub turn : Turn
turn = record { others = (5, claim "TRX" "b" 60) ∷ []; now = 6; clock = 6; answers = true }

abbrev start : World ℕ
start = record {
  shared = record { table = table; turns = turn ∷ turn ∷ turn ∷ turn ∷ turn ∷ turn ∷ [] };
  requests = 0;
  queries = 0;
  outbox = 0;
}

table_at : 40 ≤ highest "TRX" start.shared
unfolding get_scanned_block
table_at = omega arith

scan_trx_with_lease-Ends_example :
    Ends texts refuse failing on_list 62
      (λ n from to. some [])
      "a"
      42
      (scan_trx_with_lease texts refuse failing on_list 62
        (λ n from to. some [])
        "a"
        0
        42
        42
        40
        start)
scan_trx_with_lease-Ends_example =
    scan_trx_with_lease-Ends texts refuse failing on_list 62 (λ n from to. some []) "a" 0 42 42 40
      start table_at (omega arith) (omega arith)
