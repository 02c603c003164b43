-- ===== src/Scanner/Trc20/Scan.antt =====
-- internal/scanner/poller.go: the forward scan of a TRC-20 contract (scanTrc20, scanTrc20WithLease),
-- its requests (getAllTrc20EventsByTimeRange, fetchTrc20EventsWithRetry, getBlockRange), and the
-- replay of a range (replayTrc20Range). The pages of an answer and the batches of a scan run on fuel.
use tronvent.Base.{
  ℕ, zero, suc, ◌+◌, String, Bool, true, false, not, ◌||◌, Option, none, some, List, [], ◌∷◌, ◌++◌,
  ltb, leb, ◌==◌, str_eq, length, if◌then◌else◌,
}
use tronvent.Payload.{Envelope}
use tronvent.Confirm.{Database}
use tronvent.Scanner.Match.{RawEvent, Block, Texts, Enqueued}
use tronvent.Scanner.Replicas.{
  Shared, save_highest_block, renew_scope_lease, claim_scope, release_scope, cursor_after_claim,
  Claimed, claim_failed, held_elsewhere, claimed_at,
}
use tronvent.Scanner.Trx.{World, batch_end_of}
use tronvent.Scanner.Steps.{
  Result, done, failed, Scan, pure, out_of_fuel, modify, ◌>>=◌, ◌>>◌, given, required,
}
use tronvent.Scanner.Trc20.{TransferEvent, time_window, trc20_cursor_after_batch, publish_batch}

-- tronGridTrc20EventsResp
pub record EventsPage : Type 0 where
  pub events : List TransferEvent
  pub fingerprint : String

-- What the scan needs of the outside: TronGrid's answers by the number of requests made before,
-- and whether the context ends in the wait after that many.
pub record TronGrid : Type 0 where
  pub block_range : ℕ → ℕ → ℕ → Option (List Block)
  pub events_page : ℕ → String → ℕ → ℕ → String → Option EventsPage
  pub wait_cancelled : ℕ → Bool

pub record Settings : Type 0 where
  pub start_block : ℕ
  pub trc20_cursor_retain : ℕ
  pub trc20_event_retries : ℕ
  -- How many pages one answer has at most.
  pub page_fuel : ℕ

abbrev pub retries_of : ℕ → ℕ
retries_of retries = if retries == 0 then 3 else retries

abbrev pub is_empty {ℓ} : {A : Type ℓ} → List A → Bool
is_empty [] = true
is_empty (x ∷ xs) = false

abbrev pub is_last_page : EventsPage → Bool
is_last_page page = str_eq page.fingerprint "" || is_empty page.events

module _ {O : Type 0} (texts : Texts)
    (enqueue : O → String → String → RawEvent → Envelope → O × Enqueued) (db : Database)
    (contains : String → Bool) (chain_tip : ℕ) (grid : TronGrid) (settings : Settings)
    (worker : String) where
  abbrev pub on_shared {ℓ} : {A : Type ℓ} → World O → Shared × Result A → World O × Result A
  on_shared w (s, r) = (record w { shared = s }, r)

  abbrev pub accepted : Shared × Bool → Shared × Result (Unit {0})
  accepted (s, true) = (s, done tt)
  accepted (s, false) = (s, failed)

  unfoldable pub renew : String → Scan (World O) (Unit {0})
  renew scope w = on_shared w (accepted (renew_scope_lease worker scope w.shared))

  unfoldable pub save : String → ℕ → Scan (World O) (Unit {0})
  save scope block w = on_shared w (accepted (save_highest_block worker scope block w.shared))

  -- The next request to TronGrid
  unfoldable pub request {ℓ} : {A : Type ℓ} → (ℕ → Option A) → Scan (World O) A
  request ask w = given (ask w.requests) (record w { requests = w.requests + 1 })

  unfoldable pub get_block_range : ℕ → ℕ → Scan (World O) (List Block)
  get_block_range start_num end_num = request (λ n. grid.block_range n start_num end_num)

  -- A replay passes the empty scope, and renews nothing.
  abbrev pub renew_unless_blank : String → Scan (World O) (Unit {0})
  renew_unless_blank scope = if str_eq scope "" then pure tt else renew scope

  unfoldable pub get_all_trc20_events :
      ℕ → String → String → ℕ → ℕ → String → Scan (World O) (List TransferEvent)
  get_all_trc20_events zero scope contract min_ts max_ts fingerprint = out_of_fuel
  get_all_trc20_events (suc pages) scope contract min_ts max_ts fingerprint = do
    renew_unless_blank scope
    page ← request (λ n. grid.events_page n contract min_ts max_ts fingerprint)
    let more = get_all_trc20_events pages scope contract min_ts max_ts page.fingerprint
    if is_last_page page then pure page.events else (more >>= λ rest. pure (page.events ++ rest))

  unfoldable pub wait : Scan (World O) (Unit {0})
  wait w = required (not (grid.wait_cancelled w.requests)) w

  -- The attempts of fetchTrc20EventsWithRetry, `left` of which remain after this one.
  unfoldable pub attempts : ℕ → String → String → ℕ → ℕ → ℕ → Scan (World O) (List TransferEvent)
  attempts zero scope contract min_ts max_ts block_count = pure []
  attempts (suc left) scope contract min_ts max_ts block_count = do
    all ← get_all_trc20_events settings.page_fuel scope contract min_ts max_ts ""
    let again = attempts left scope contract min_ts max_ts block_count
    if not (is_empty all) || (block_count == 0 || left == 0)
        then pure all
        else (renew scope >> (wait >> again))

  abbrev pub fetch_trc20_events_with_retry :
      String → String → ℕ → ℕ → ℕ → Scan (World O) (List TransferEvent)
  fetch_trc20_events_with_retry scope contract min_ts max_ts block_count =
      attempts (retries_of settings.trc20_event_retries) scope contract min_ts max_ts block_count

  abbrev pub cursor_after : ℕ → ℕ → ℕ → ℕ
  cursor_after from_block batch_start batch_end =
      trc20_cursor_after_batch settings.trc20_cursor_retain from_block batch_start batch_end

  -- A batch whose blocks were returned: its events, then its cursor.
  unfoldable pub commit_batch : String → ℕ → ℕ → ℕ → List Block → Scan (World O) (Unit {0})
  commit_batch contract from_block batch_start batch_end blocks = do
    let (min_ts, max_ts) = time_window blocks 0 0
    events ← fetch_trc20_events_with_retry contract contract min_ts max_ts (length blocks)
    renew contract
    modify (
        publish_batch texts enqueue db contains chain_tip contract false batch_start batch_end
          events)
    save contract (cursor_after from_block batch_start batch_end)
    renew contract

  -- One round of the loop before `rest`. `false`: the scan breaks off, since TronGrid returned no block.
  unfoldable pub scan_batch : String → ℕ → ℕ → ℕ → Scan (World O) Bool → Scan (World O) Bool
  scan_batch contract from_block batch_start batch_end rest = do
    renew contract
    blocks ← get_block_range batch_start (batch_end + 1)
    renew contract
    if is_empty blocks
        then pure false
        else (commit_batch contract from_block batch_start batch_end blocks >> rest)

  unfoldable pub scan_batches : ℕ → String → ℕ → ℕ → ℕ → Scan (World O) Bool
  scan_batches zero contract latest_block from_block batch_start =
      if ltb latest_block batch_start then pure true else out_of_fuel
  scan_batches (suc fuel) contract latest_block from_block batch_start =
      let batch_end = batch_end_of batch_start latest_block in
      let batch = scan_batch contract from_block batch_start batch_end (
        scan_batches fuel contract latest_block (cursor_after from_block batch_start batch_end)
          (batch_end + 1)) in
      if ltb latest_block batch_start then pure true else batch

  abbrev pub read_cursor : Shared × Option ℕ → Shared × Result ℕ
  read_cursor (s, none) = (s, failed)
  read_cursor (s, some block) = (s, done block)

  unfoldable pub cursor : String → ℕ → Scan (World O) ℕ
  cursor scope at_claim w = on_shared w (read_cursor (cursor_after_claim scope at_claim w.shared))

  -- No cursor: from the start block, or from the safe tip, which is saved first.
  unfoldable pub start_from : String → ℕ → ℕ → Scan (World O) ℕ
  start_from contract latest_block from_block =
      if from_block == 0
      then if ltb 0 settings.start_block
        then pure settings.start_block
        else (save contract latest_block >> pure latest_block)
      else pure from_block

  unfoldable pub scan_trc20_with_lease : ℕ → String → ℕ → ℕ → Scan (World O) Bool
  scan_trc20_with_lease fuel contract latest_block at_claim = do
    found ← cursor contract at_claim
    from_block ← start_from contract latest_block found
    if leb latest_block from_block
        then pure true
        else scan_batches fuel contract latest_block from_block (from_block + 1)

  abbrev pub released {ℓ} : {A : Type ℓ} → String → World O × Result A → World O × Result A
  released scope (w, r) = (record w { shared = (release_scope worker scope w.shared).0 }, r)

  abbrev pub with_claim : ℕ → String → ℕ → World O → Shared × Claimed → World O × Result Bool
  with_claim fuel contract latest_block w (s, claim_failed) = (record w { shared = s }, failed)
  with_claim fuel contract latest_block w (s, held_elsewhere) =
      (record w { shared = s }, done false)
  with_claim fuel contract latest_block w (s, claimed_at block) =
      released contract
        (scan_trc20_with_lease fuel contract latest_block block (record w { shared = s }))

  -- scanTrc20, by withScopeLease; `false` where it ended before the safe block without an error.
  unfoldable pub scan_trc20 : ℕ → String → ℕ → Scan (World O) Bool
  scan_trc20 fuel contract latest_block w =
      with_claim fuel contract latest_block w (claim_scope worker contract w.shared)

  -- The events of a replayed batch. Without blocks there is no time to ask for.
  unfoldable pub replay_batch : String → ℕ → ℕ → List Block → Scan (World O) (Unit {0})
  replay_batch contract batch_start batch_end [] = pure tt
  replay_batch contract batch_start batch_end (b ∷ bs) = do
    let (min_ts, max_ts) = time_window (b ∷ bs) 0 0
    events ← get_all_trc20_events settings.page_fuel "" contract min_ts max_ts ""
    modify (
        publish_batch texts enqueue db contains chain_tip contract true batch_start batch_end
          events)

  unfoldable pub replay_then :
      String → ℕ → ℕ → Scan (World O) (Unit {0}) → Scan (World O) (Unit {0})
  replay_then contract batch_start batch_end rest = do
    blocks ← get_block_range batch_start (batch_end + 1)
    replay_batch contract batch_start batch_end blocks
    rest

  -- replayTrc20Range: the cursor is neither read nor written.
  unfoldable pub replay_trc20_range : ℕ → String → ℕ → ℕ → Scan (World O) (Unit {0})
  replay_trc20_range zero contract to_block batch_start =
      if ltb to_block batch_start then pure tt else out_of_fuel
  replay_trc20_range (suc fuel) contract to_block batch_start =
      let batch_end = batch_end_of batch_start to_block in
      let batch =
        replay_then contract batch_start batch_end
          (replay_trc20_range fuel contract to_block (batch_end + 1)) in
      if ltb to_block batch_start then pure tt else batch
