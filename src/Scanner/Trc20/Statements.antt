-- ===== src/Scanner/Trc20/Statements.antt =====
-- What the statements and requests of a scan of a TRC-20 contract leave of its cursor
-- (internal/scanner/poller.go, fetchTrc20EventsWithRetry).

use tronvent.Base.{
  ℕ, zero, suc, ◌+◌, List, some, ◌≤◌, String, Bool, true, false, not, ◌||◌, ◌≡◌, refl, inl, inr,
  Bool-cases, Option-cases, arith, ◌==◌, str_eq,
}
use tronvent.Payload.{Envelope}
use tronvent.Confirm.{Database}
use tronvent.Scanner.Match.{RawEvent, Block, Texts, Enqueued}
use tronvent.Scanner.Replicas.{Shared, save_highest_block, renew_scope_lease}
use tronvent.Scanner.Reach.{
  highest, save_highest_block_grows, renew_scope_lease_grows, save_highest_block_reaches,
}
use tronvent.Scanner.Trx.{World}
use tronvent.Scanner.Steps.{Holds, Ensures, bind-Ensures, if-Ensures}
use tronvent.Scanner.Trc20.Scan.{
  TronGrid, Settings, is_empty, renew, save, request, get_block_range, renew_unless_blank,
  get_all_trc20_events, wait, attempts, accepted, on_shared,
}
use tronvent.Scanner.Trc20.Pages.{Paged, get_all-Ensures}

module _ {O : Type 0} (texts : Texts)
    (enqueue : O → String → String → RawEvent → Envelope → O × Enqueued) (db : Database)
    (contains : String → Bool) (chain_tip : ℕ) (grid : TronGrid) (settings : Settings)
    (worker : String) where
  accepted-Holds :
      (Q : Unit {0} → World O → Type 0) (w : World O) (r : Shared × Bool)
      → (r.1 ≡ true → Q tt (record w { shared = r.0 }))
      → Holds Q (
          on_shared texts enqueue db contains chain_tip grid settings worker w
            (accepted texts enqueue db contains chain_tip grid settings worker r))
  accepted-Holds Q w (s, true) h = h refl
  accepted-Holds Q w (s, false) h = tt

  module _ (contract : String) where
    -- The cursor of the contract is at the block or beyond.
    abbrev pub AtLeast : ℕ → World O → Type 0
    AtLeast n w = n ≤ highest contract w.shared

    abbrev Kept : ℕ → World O → World O → Type 0
    Kept n w w' = (n ≤ highest contract w'.shared) × (w'.requests ≡ w.requests)

    pub renew-Kept :
        (n : ℕ) (w : World O)
        → AtLeast n w
        → Holds
            (λ u w'. Kept n w w')
            (renew texts enqueue db contains chain_tip grid settings worker contract w)
    unfolding renew
    renew-Kept n w h =
        accepted-Holds (λ u w'. Kept n w w') w (renew_scope_lease worker contract w.shared)
          (λ ok. (omega (arith, h, renew_scope_lease_grows contract worker w.shared), refl))

    pub renew-Ensures :
        (n : ℕ)
        → Ensures
            (AtLeast n)
            (renew texts enqueue db contains chain_tip grid settings worker contract)
            (λ u. AtLeast n)
    unfolding renew
    renew-Ensures n = record {
      at = λ w h.
          accepted-Holds (λ u. AtLeast n) w (renew_scope_lease worker contract w.shared)
            (λ ok. omega (arith, h, renew_scope_lease_grows contract worker w.shared));
    }

    renew_unless_blank-Kept :
        (n : ℕ) (w : World O)
        → AtLeast n w
        → Holds
            (λ u w'. Kept n w w')
            (renew_unless_blank texts enqueue db contains chain_tip grid settings worker contract w)
    renew_unless_blank-Kept n w h = elim (Bool-cases (str_eq contract "")) [
      | inl e ↦ rw e (h, refl)
      | inr e ↦ rw e (renew-Kept n w h)
    ]

    pub save-Ensures :
        (n block : ℕ)
        → Ensures
            (AtLeast n)
            (save texts enqueue db contains chain_tip grid settings worker contract block)
            (λ u w. AtLeast n w × AtLeast block w)
    unfolding save
    save-Ensures n block = record {
      at = λ w h.
          accepted-Holds (λ u w'. AtLeast n w' × AtLeast block w') w
            (save_highest_block worker contract block w.shared)
            (λ ok. (
              omega (arith, h, save_highest_block_grows contract worker block w.shared),
              save_highest_block_reaches contract worker block w.shared.table w.shared.turns ok,
            ));
    }

    -- The last request was for this range of blocks, and TronGrid answered with these.
    abbrev pub LastAnswer : ℕ → ℕ → List Block → World O → Type 0
    LastAnswer start_num end_num blocks w =
        (m : ℕ) × (w.requests ≡ m + 1) × (grid.block_range m start_num end_num ≡ some blocks)

    pub renew-LastAnswer :
        (n start_num end_num : ℕ) (blocks : List Block)
        → Ensures
            (λ w. AtLeast n w × LastAnswer start_num end_num blocks w)
            (renew texts enqueue db contains chain_tip grid settings worker contract)
            (λ u w. AtLeast n w × LastAnswer start_num end_num blocks w)
    unfolding renew
    renew-LastAnswer n start_num end_num blocks = record {
      at = λ w h.
          accepted-Holds (λ u w'. AtLeast n w' × LastAnswer start_num end_num blocks w') w
            (renew_scope_lease worker contract w.shared)
            (λ ok. (omega (arith, h.0, renew_scope_lease_grows contract worker w.shared), h.1));
    }

    pub blocks-Ensures :
        (n start_num end_num : ℕ)
        → Ensures
            (AtLeast n)
            (get_block_range texts enqueue db contains chain_tip grid settings worker start_num
              end_num)
            (λ blocks w. AtLeast n w × LastAnswer start_num end_num blocks w)
    unfolding get_block_range request
    blocks-Ensures n start_num end_num = record {
      at = λ w h. elim (Option-cases (grid.block_range w.requests start_num end_num)) [
        | inl e ↦ rw e tt
        | inr (bs, e) ↦ rw e (h, (w.requests, refl, e))
      ];
    }

    wait-Ensures :
        (n : ℕ)
        → Ensures
            (AtLeast n)
            (wait texts enqueue db contains chain_tip grid settings worker)
            (λ u. AtLeast n)
    unfolding wait
    wait-Ensures n = record {
      at = λ w h. elim (Bool-cases (grid.wait_cancelled w.requests)) [
        | inl e ↦ rw e tt
        | inr e ↦ rw e h
      ];
    }

    module _ (paged : Paged grid settings.page_fuel) where
      events-Ensures :
          (n min_ts max_ts : ℕ)
          → Ensures
              (AtLeast n)
              (get_all_trc20_events texts enqueue db contains chain_tip grid settings worker
                settings.page_fuel contract contract min_ts max_ts "")
              (λ events. AtLeast n)
      events-Ensures n min_ts max_ts = record {
        at = λ w h.
            (get_all-Ensures texts enqueue db contains chain_tip grid settings worker
                (λ s. n ≤ highest contract s) contract (renew_unless_blank-Kept n)
                settings.page_fuel contract min_ts max_ts "" w.requests
                (paged.ends w.requests contract min_ts max_ts)).at
              w (h, refl);
      }

      pub attempts-Ensures :
          (left n min_ts max_ts block_count : ℕ)
          → Ensures
              (AtLeast n)
              (attempts texts enqueue db contains chain_tip grid settings worker left contract
                contract min_ts max_ts block_count)
              (λ events. AtLeast n)
      unfolding attempts
      attempts-Ensures zero n min_ts max_ts block_count = record { at = λ w h. h }
      attempts-Ensures (suc left) n min_ts max_ts block_count =
          bind-Ensures (λ events. AtLeast n) (events-Ensures n min_ts max_ts)
            (λ events.
              if-Ensures _ _ (not (is_empty events) || (block_count == 0 || left == 0)) _ _
                (λ e. record { at = λ w h. h })
                (λ e.
                  bind-Ensures (λ u. AtLeast n) (renew-Ensures n)
                    (λ u.
                      bind-Ensures (λ v. AtLeast n) (wait-Ensures n)
                        (λ v. attempts-Ensures left n min_ts max_ts block_count))))
