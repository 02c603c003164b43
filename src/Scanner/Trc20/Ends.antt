-- ===== src/Scanner/Trc20/Ends.antt =====
-- How the forward scan of a TRC-20 contract moves its cursor, and that it ends
-- (internal/scanner/poller.go).

use tronvent.Base.{
  ℕ, zero, suc, ◌+◌, ◌-◌, ◌≤◌, ◌<◌, max, String, Bool, true, false, Option, none, some, List, [],
  ◌∷◌, ◌≡◌, ap, ◌∙◌, refl, arith, ltb, leb, ltb→lt, leb→le, ◌==◌, length, if◌then◌else◌,
}
use tronvent.Payload.{Envelope}
use tronvent.Confirm.{Database}
use tronvent.Scanner.Match.{RawEvent, Block, Texts, Enqueued}
use tronvent.Scanner.Replicas.{Shared, cursor_after_claim}
use tronvent.Scanner.Reach.{highest, cursor_after_claim_bound}
use tronvent.Scanner.Trx.{World, batch_end_of}
use tronvent.Scanner.Steps.{Scan, modify, Holds, Ensures, bind-Ensures, if-Ensures}
use tronvent.Scanner.Trc20.{TransferEvent, time_window, trc20_cursor_after_batch, publish_batch}
use tronvent.Scanner.Trc20.Scan.{
  TronGrid, Settings, is_empty, retries_of, commit_batch, scan_batch, scan_batches, on_shared,
  read_cursor, cursor, start_from, scan_trc20_with_lease,
}
use tronvent.Scanner.Trc20.Pages.{Paged}
use tronvent.Scanner.Trc20.Statements.{
  AtLeast, LastAnswer, renew-LastAnswer, renew-Ensures, save-Ensures, blocks-Ensures,
  attempts-Ensures,
}

-- The cursor after a batch. Without a retain window it is the batch's last block. With one, it is the
-- highest of the cursor before the batch, the block before the batch, and the batch's last block less
-- the window. So it never falls below the cursor
-- before the batch, unless the batch ends below that cursor.
pub trc20_cursor_after_batch_lem :
    (retain from_block batch_start batch_end : ℕ)
    → let c = trc20_cursor_after_batch retain from_block batch_start batch_end in
      (c ≡ (
        if retain == 0
        then batch_end
        else max from_block (max (batch_start - 1) (batch_end - retain))))
      × ((if leb from_block batch_end then from_block else batch_end) ≤ c)
unfolding trc20_cursor_after_batch
trc20_cursor_after_batch_lem retain from_block batch_start batch_end = (ground arith, ground arith)

cursor_in_order :
    (retain from_block batch_start batch_end : ℕ)
    → from_block < batch_start
    → batch_start ≤ batch_end
    → trc20_cursor_after_batch retain from_block batch_start batch_end
      ≡ max (batch_start - 1) (batch_end - retain)
cursor_in_order retain from_block batch_start batch_end l k =
    ground (arith, l, k, (trc20_cursor_after_batch_lem retain from_block batch_start batch_end).0)

module _ {O : Type 0} (texts : Texts)
    (enqueue : O → String → String → RawEvent → Envelope → O × Enqueued) (db : Database)
    (contains : String → Bool) (chain_tip : ℕ) (grid : TronGrid) (settings : Settings)
    (worker : String) where
  module _ (contract : String) (paged : Paged grid settings.page_fuel) where
    is_empty-nil : {A : Type 0} (xs : List A) → is_empty xs ≡ true → xs ≡ []
    is_empty-nil [] h = refl
    is_empty-nil (x ∷ xs) h = absurd (cc h)

    publish-Ensures :
        (n batch_start batch_end : ℕ) (events : List TransferEvent)
        → Ensures
            ((AtLeast texts enqueue db contains chain_tip grid settings worker contract) n)
            (modify (
              publish_batch texts enqueue db contains chain_tip contract false batch_start batch_end
                events))
            (λ u. (AtLeast texts enqueue db contains chain_tip grid settings worker contract) n)
    unfolding publish_batch
    publish-Ensures n batch_start batch_end events = record { at = λ w h. h }

    commit_batch-Ensures :
        (n from_block batch_start batch_end : ℕ) (blocks : List Block)
        → Ensures
            ((AtLeast texts enqueue db contains chain_tip grid settings worker contract) n)
            (commit_batch texts enqueue db contains chain_tip grid settings worker contract
              from_block batch_start batch_end blocks)
            (λ u. (AtLeast texts enqueue db contains chain_tip grid settings worker contract) (
              trc20_cursor_after_batch settings.trc20_cursor_retain from_block batch_start
                batch_end))
    unfolding commit_batch
    commit_batch-Ensures n from_block batch_start batch_end blocks =
        let block =
          trc20_cursor_after_batch settings.trc20_cursor_retain from_block batch_start batch_end in
        bind-Ensures
          (λ events. (AtLeast texts enqueue db contains chain_tip grid settings worker contract) n)
          (attempts-Ensures texts enqueue db contains chain_tip grid settings worker contract paged
            (retries_of settings.trc20_event_retries) n (time_window blocks 0 0).0
            (time_window blocks 0 0).1 (length blocks))
          (λ events.
            bind-Ensures
              (λ u. (AtLeast texts enqueue db contains chain_tip grid settings worker contract) n)
              (renew-Ensures texts enqueue db contains chain_tip grid settings worker contract n)
              (λ u.
                bind-Ensures
                  (λ v.
                    (AtLeast texts enqueue db contains chain_tip grid settings worker contract) n)
                  (publish-Ensures n batch_start batch_end events)
                  (λ v.
                    bind-Ensures
                      (λ x w.
                        (AtLeast texts enqueue db contains chain_tip grid settings worker contract)
                          n w
                        × (AtLeast texts enqueue db contains chain_tip grid settings worker
                              contract)
                            block w)
                      (save-Ensures texts enqueue db contains chain_tip grid settings worker
                        contract n block)
                      (λ x. record {
                        at = λ w h.
                            (renew-Ensures texts enqueue db contains chain_tip grid settings worker
                                contract block).at
                              w h.1;
                      }))))

    -- Where the scan reached its end, the cursor is at most the retain window behind the block. Where it
    -- broke off, its last request was for blocks of the range, and TronGrid returned none.
    abbrev pub Retained : ℕ → Bool → World O → Type 0
    Retained latest_block true w =
        latest_block ≤ highest contract w.shared + settings.trc20_cursor_retain
    Retained latest_block false w =
        (start_num end_num : ℕ) × (start_num ≤ latest_block)
        × (LastAnswer texts enqueue db contains chain_tip grid settings worker contract) start_num
            end_num [] w

    scan_batch-Ensures :
        (n latest_block from_block batch_start batch_end : ℕ) (rest : Scan (World O) Bool)
        → batch_start ≤ latest_block
        → Ensures
            ((AtLeast texts enqueue db contains chain_tip grid settings worker contract) (
              trc20_cursor_after_batch settings.trc20_cursor_retain from_block batch_start
                batch_end))
            rest
            (Retained latest_block)
        → Ensures
            ((AtLeast texts enqueue db contains chain_tip grid settings worker contract) n)
            (scan_batch texts enqueue db contains chain_tip grid settings worker contract from_block
              batch_start batch_end rest)
            (Retained latest_block)
    unfolding scan_batch
    scan_batch-Ensures n latest_block from_block batch_start batch_end rest b h =
        bind-Ensures
          (λ u. (AtLeast texts enqueue db contains chain_tip grid settings worker contract) n)
          (renew-Ensures texts enqueue db contains chain_tip grid settings worker contract n)
          (λ u.
            bind-Ensures
              (λ blocks w.
                (AtLeast texts enqueue db contains chain_tip grid settings worker contract) n w
                × (LastAnswer texts enqueue db contains chain_tip grid settings worker contract)
                    batch_start (batch_end + 1) blocks w)
              (blocks-Ensures texts enqueue db contains chain_tip grid settings worker contract n
                batch_start (batch_end + 1))
              (λ blocks.
                bind-Ensures
                  (λ v w.
                    (AtLeast texts enqueue db contains chain_tip grid settings worker contract) n w
                    × (LastAnswer texts enqueue db contains chain_tip grid settings worker contract)
                        batch_start (batch_end + 1) blocks w)
                  (renew-LastAnswer texts enqueue db contains chain_tip grid settings worker
                    contract n batch_start (batch_end + 1) blocks)
                  (λ v.
                    if-Ensures _ _ (is_empty blocks) _ _
                      (λ e. record {
                        at = λ w (p, (m, r, a)). (
                          batch_start,
                          batch_end + 1,
                          b,
                          (m, r, a ∙ ap some (is_empty-nil blocks e)),
                        );
                      })
                      (λ e.
                        bind-Ensures
                          (λ x.
                            (AtLeast texts enqueue db contains chain_tip grid settings worker
                                contract)
                              (trc20_cursor_after_batch settings.trc20_cursor_retain from_block
                                batch_start batch_end))
                          (record {
                            at = λ w p.
                                (commit_batch-Ensures n from_block batch_start batch_end blocks).at
                                  w p.0;
                          })
                          (λ x. h)))))

    scan_batches-Ensures :
        (fuel n latest_block from_block batch_start : ℕ)
        → from_block < batch_start
        → (latest_block < batch_start → latest_block ≤ n + settings.trc20_cursor_retain)
        → latest_block < batch_start + fuel
        → Ensures
            ((AtLeast texts enqueue db contains chain_tip grid settings worker contract) n)
            (scan_batches texts enqueue db contains chain_tip grid settings worker fuel contract
              latest_block from_block batch_start)
            (Retained latest_block)
    unfolding scan_batches
    scan_batches-Ensures zero n latest_block from_block batch_start l k f =
        if-Ensures _ _ (ltb latest_block batch_start) _ _
          (λ e. record { at = λ w h. omega (arith, h, k (ltb→lt _ _ e)) })
          (λ e. record { at = λ w h. ground (arith, e, f) })
    scan_batches-Ensures (suc fuel) n latest_block from_block batch_start l k f =
        if-Ensures _ _ (ltb latest_block batch_start) _ _
          (λ e. record { at = λ w h. omega (arith, h, k (ltb→lt _ _ e)) })
          (λ e.
            let batch_end = batch_end_of batch_start latest_block in
            let c =
              cursor_in_order settings.trc20_cursor_retain from_block batch_start batch_end l
                (ground (arith, e)) in
            scan_batch-Ensures n latest_block from_block batch_start batch_end _ (ground (arith, e))
              (scan_batches-Ensures fuel
                (trc20_cursor_after_batch settings.trc20_cursor_retain from_block batch_start
                  batch_end)
                latest_block
                (trc20_cursor_after_batch settings.trc20_cursor_retain from_block batch_start
                  batch_end)
                (batch_end + 1) (ground (arith, c, e)) (λ b. ground (arith, c, b))
                (ground (arith, e, f))))

    cursor-Ensures :
        (at_claim : ℕ)
        → Ensures
            ((AtLeast texts enqueue db contains chain_tip grid settings worker contract) at_claim)
            (cursor texts enqueue db contains chain_tip grid settings worker contract at_claim)
            (AtLeast texts enqueue db contains chain_tip grid settings worker contract)
    unfolding cursor
    cursor-Ensures at_claim = record {
      at = λ w h. read-Holds w (cursor_after_claim contract at_claim w.shared) (λ from e.
          cursor_after_claim_bound contract at_claim w.shared.table w.shared.turns from h e);
    }
      where
        read-Holds :
            (w : World O) (r : Shared × Option ℕ)
            → ((from : ℕ) → r.1 ≡ some from → from ≤ highest contract r.0)
            → Holds (AtLeast texts enqueue db contains chain_tip grid settings worker contract) (
                on_shared texts enqueue db contains chain_tip grid settings worker w
                  (read_cursor texts enqueue db contains chain_tip grid settings worker r))
        read-Holds w (s, none) h = tt
        read-Holds w (s, some from) h = h from refl

    start_from-Ensures :
        (latest_block from_block : ℕ)
        → settings.start_block < latest_block
        → Ensures
            ((AtLeast texts enqueue db contains chain_tip grid settings worker contract) from_block)
            (start_from texts enqueue db contains chain_tip grid settings worker contract
              latest_block from_block)
            (λ from w.
              latest_block ≤ from
              → (AtLeast texts enqueue db contains chain_tip grid settings worker contract) from w)
    unfolding start_from
    start_from-Ensures latest_block from_block b =
        if-Ensures _ _ (from_block == 0) _ _
          (λ e.
            if-Ensures _ _ (ltb 0 settings.start_block) _ _
              (λ f. record { at = λ w h l. absurd (omega (arith, l, b)) })
              (λ f.
                bind-Ensures
                  (λ u w.
                    (AtLeast texts enqueue db contains chain_tip grid settings worker contract)
                      from_block w
                    × (AtLeast texts enqueue db contains chain_tip grid settings worker contract)
                        latest_block w)
                  (save-Ensures texts enqueue db contains chain_tip grid settings worker contract
                    from_block latest_block)
                  (λ u. record { at = λ w h l. h.1 })))
          (λ e. record { at = λ w h l. h })

    scan-Ensures :
        (fuel latest_block at_claim : ℕ)
        → settings.start_block < latest_block
        → latest_block ≤ fuel
        → Ensures
            ((AtLeast texts enqueue db contains chain_tip grid settings worker contract) at_claim)
            (scan_trc20_with_lease texts enqueue db contains chain_tip grid settings worker fuel
              contract latest_block at_claim)
            (Retained latest_block)
    unfolding scan_trc20_with_lease
    scan-Ensures fuel latest_block at_claim b f =
        bind-Ensures (AtLeast texts enqueue db contains chain_tip grid settings worker contract)
          (cursor-Ensures at_claim)
          (λ found.
            bind-Ensures
              (λ from (w : World O).
                latest_block ≤ from
                → (AtLeast texts enqueue db contains chain_tip grid settings worker contract) from
                    w)
              (start_from-Ensures latest_block found b)
              (λ from.
                if-Ensures _ _ (leb latest_block from) _ _
                  (λ e. record { at = λ w k. omega (arith, leb→le _ _ e, k (leb→le _ _ e)) })
                  (λ e. record {
                    at = λ w k.
                        (scan_batches-Ensures fuel 0 latest_block from (from + 1) (omega arith)
                            (λ l. absurd (ground (arith, e, l))) (omega (arith, f))).at
                          w (omega arith);
                  })))

    -- The forward scan of a TRC-20 contract reaches the safe block. On the fuel of as many rounds as
    -- the safe block's number, scanTrc20WithLease never runs out, and where it returns nil, it broke
    -- off right after TronGrid answered its last request, for a range of blocks that starts at the safe
    -- block or before it, with no block, or the contract's cursor is at most the retain window behind the
    -- safe block: whatever other replicas do in between, and whatever TronGrid and
    -- the outbox answered. Conditions: each answer of TronGrid's events API has at most as many pages
    -- as the fuel for pages, the block that the claim returned is not beyond the cursor, and a
    -- configured start block is below the safe block.
    pub scan_trc20_with_lease-Retained :
        (fuel latest_block at_claim : ℕ) (w : World O)
        → at_claim ≤ highest contract w.shared
        → settings.start_block < latest_block
        → latest_block ≤ fuel
        → Holds (Retained latest_block) (
            scan_trc20_with_lease texts enqueue db contains chain_tip grid settings worker fuel
              contract latest_block at_claim w)
    scan_trc20_with_lease-Retained fuel latest_block at_claim w h b f =
        (scan-Ensures fuel latest_block at_claim b f).at w h
