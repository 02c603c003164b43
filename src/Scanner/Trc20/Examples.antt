-- ===== src/Scanner/Trc20/Examples.antt =====
-- Witnesses for the scan of a TRC-20 contract (internal/scanner/poller.go).
use tronvent.Base.{
  ℕ, ◌-◌, ◌≤◌, max, String, true, false, some, List, [], ◌∷◌, ◌≡◌, refl, arith, eq_iff,
}
use tronvent.Cursor.{get_scanned_block}
use tronvent.Confirm.Examples.{on_list, failing, failing-Truthful}
use tronvent.Scanner.Matched.{receiver, role_direction}
use tronvent.Scanner.Reach.{highest}
use tronvent.Scanner.Trx.{World}
use tronvent.Scanner.Steps.{Holds}
use tronvent.Scanner.Examples.{texts, refuse, table, turn}
use tronvent.Scanner.Trc20.{TransferEvent, trc20_cursor_after_batch, transfer_of, batch_events}
use tronvent.Scanner.Trc20.Scan.{EventsPage, TronGrid, Settings, scan_trc20_with_lease}
use tronvent.Scanner.Trc20.Pages.{Paged, pages_end}
use tronvent.Scanner.Trc20.Batch.{
  has_key, distinct, in_block, window_matches, prefetched, batch_events-distinct,
}
use tronvent.Scanner.Trc20.Watched.{key_of, batch_events-watched}
use tronvent.Scanner.Trc20.Ends.{
  Retained, trc20_cursor_after_batch_lem, scan_trc20_with_lease-Retained,
}

-- The batch is shorter than the retain window, and the cursor is within it.
trc20_cursor_after_batch_lem_example :
    (trc20_cursor_after_batch 50 103 101 105 ≡ max 103 (max (101 - 1) (105 - 50)))
    × (103 ≤ trc20_cursor_after_batch 50 103 101 105)
trc20_cursor_after_batch_lem_example = trc20_cursor_after_batch_lem 50 103 101 105

abbrev transfer : TransferEvent
transfer = record {
  transaction_id = "aa";
  block_number = 41;
  block_timestamp = 410;
  from = "Ta";
  to = "Tb";
  value = "5";
}

-- The same transfer on two pages.
abbrev events : List TransferEvent
events = transfer ∷ transfer ∷ []

batch_events-distinct_example :
    (batch_events texts failing on_list 62 "Tc" true 41 42 events 0).1 41
    ≡ in_block 41 (
        distinct [] (
          window_matches texts failing on_list 62 "Tc" true 41 42 events
            (prefetched texts failing on_list 62 "Tc" true 41 42 events 0)))
batch_events-distinct_example =
    batch_events-distinct texts failing on_list 62 "Tc" true 41 42 events 0 41

batch_events-watched_example :
    (block : ℕ) × (41 ≤ block)
    × (block ≤ 42)
    × (has_key
          (key_of (transfer_of texts failing on_list 62 "Tc" transfer) (role_direction receiver))
          ((batch_events texts failing on_list 62 "Tc" false 41 42 (transfer ∷ transfer ∷ []) 0).1
            block)
        ≡ true)
batch_events-watched_example =
    batch_events-watched texts failing on_list on_list failing-Truthful 62 "Tc" false 41 42 transfer
      receiver (transfer ∷ []) [] 0 refl (ground (arith, eq_iff "Tb" "")) refl refl

-- Two pages at most.
abbrev page : String → EventsPage
page fingerprint = record { events = transfer ∷ []; fingerprint = fingerprint }

abbrev grid : TronGrid
grid = record {
  block_range =
      λ n from to. some (record { number = from; timestamp = 410; transactions = [] } ∷ []);
  events_page = λ n contract from to fingerprint. some (page "");
  wait_cancelled = λ n. false;
}

abbrev settings : Settings
settings = record {
  start_block = 0;
  trc20_cursor_retain = 50;
  trc20_event_retries = 3;
  page_fuel = 2;
}

grid_paged : Paged grid 2
unfolding pages_end
grid_paged = record { ends = λ n contract from to. refl }

abbrev start : World ℕ
start = record {
  shared = record {
    table = table;
    turns = turn ∷ turn ∷ turn ∷ turn ∷ turn ∷ turn ∷ turn ∷ turn ∷ [];
  };
  requests = 0;
  queries = 0;
  outbox = 0;
}

cursor_at : 40 ≤ highest "Tc" start.shared
unfolding get_scanned_block
cursor_at = omega arith

scan_trc20_with_lease-Retained_example :
    Holds
      (Retained texts refuse failing on_list 62 grid settings "a" "Tc" grid_paged 45)
      (scan_trc20_with_lease texts refuse failing on_list 62 grid settings "a" 45 "Tc" 45 40 start)
scan_trc20_with_lease-Retained_example =
    scan_trc20_with_lease-Retained texts refuse failing on_list 62 grid settings "a" "Tc" grid_paged
      45 45 40 start cursor_at (omega arith) (omega arith)
