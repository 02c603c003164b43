-- ===== src/Scanner/Trc20/Pages.antt =====
-- That an answer of TronGrid's events API is read to its end (internal/scanner/poller.go,
-- getAllTrc20EventsByTimeRange).
use mathlib.Core.Path.{subst}
use tronvent.Base.{
  ℕ, zero, suc, ◌+◌, String, Bool, true, false, ◌||◌, Option, none, some, ◌++◌, ◌≡◌, refl, inl, inr,
  Option-cases, arith,
}
use tronvent.Payload.{Envelope}
use tronvent.Confirm.{Database}
use tronvent.Scanner.Match.{RawEvent, Texts, Enqueued}
use tronvent.Scanner.Replicas.{Shared}
use tronvent.Scanner.Trx.{World}
use tronvent.Scanner.Steps.{pure, ◌>>=◌, Holds, Ensures, bind-Ensures, if-Ensures}
use tronvent.Scanner.Trc20.Scan.{
  EventsPage, TronGrid, Settings, is_last_page, request, renew_unless_blank, get_all_trc20_events,
}

abbrev on_page : Option EventsPage → (String → Bool) → Bool
on_page none more = true
on_page (some page) more = is_last_page page || more page.fingerprint

-- TronGrid's answer that starts with the page after the fingerprint, at request `n`, has at most
-- so many pages, or fails before.
unfoldable pub pages_end : TronGrid → ℕ → ℕ → String → ℕ → ℕ → String → Bool
pages_end grid zero n contract min_ts max_ts fingerprint = false
pages_end grid (suc pages) n contract min_ts max_ts fingerprint =
    on_page (grid.events_page n contract min_ts max_ts fingerprint)
      (λ f. pages_end grid pages (n + 1) contract min_ts max_ts f)

-- So has every answer.
pub record Paged (grid : TronGrid) (pages : ℕ) : Type 0 where
  pub ends :
      (n : ℕ) (contract : String) (min_ts max_ts : ℕ)
      → pages_end grid pages n contract min_ts max_ts "" ≡ true

module _ {O : Type 0} (texts : Texts)
    (enqueue : O → String → String → RawEvent → Envelope → O × Enqueued) (db : Database)
    (contains : String → Bool) (chain_tip : ℕ) (grid : TronGrid) (settings : Settings)
    (worker : String) where
  -- What a scan's requests keep: a fact about the table.
  module _ (P : Shared → Type 0) (scope : String)
      (kept : (w : World O)
        → P w.shared
        → Holds
            (λ u w'. P w'.shared × (w'.requests ≡ w.requests))
            (renew_unless_blank texts enqueue db contains chain_tip grid settings worker scope
              w)) where
    renew_unless_blank-Ensures :
        (n : ℕ)
        → Ensures
            (λ (w : World O). P w.shared × (w.requests ≡ n))
            (renew_unless_blank texts enqueue db contains chain_tip grid settings worker scope)
            (λ u w. P w.shared × (w.requests ≡ n))
    renew_unless_blank-Ensures n = record {
      at = λ w h.
          subst
            (λ k.
              Holds (λ u (w' : World O). P w'.shared × (w'.requests ≡ k))
                (renew_unless_blank texts enqueue db contains chain_tip grid settings worker scope
                  w))
            h.1 (kept w h.0);
    }

    request-Ensures :
        {A : Type 0} (ask : ℕ → Option A) (n : ℕ)
        → Ensures
            (λ (w : World O). P w.shared × (w.requests ≡ n))
            (request texts enqueue db contains chain_tip grid settings worker ask)
            (λ a w. P w.shared × (w.requests ≡ n + 1) × (ask n ≡ some a))
    unfolding request
    request-Ensures ask n = record {
      at = λ w h. elim (Option-cases (ask n)) [
        | inl e ↦ rw (h.1, e) tt
        | inr (a, e) ↦ rw (h.1, e) (h.0, omega (arith, h.1), refl)
      ];
    }

    next_ends :
        (pages : ℕ) (contract : String) (min_ts max_ts : ℕ) (fingerprint : String) (n : ℕ)
        (page : EventsPage)
        → pages_end grid (suc pages) n contract min_ts max_ts fingerprint ≡ true
        → is_last_page page ≡ false
        → grid.events_page n contract min_ts max_ts fingerprint ≡ some page
        → pages_end grid pages (n + 1) contract min_ts max_ts page.fingerprint ≡ true
    unfolding pages_end
    next_ends pages contract min_ts max_ts fingerprint n page e l q = ground (arith, e, l, q)

    more-Ensures :
        (pages : ℕ) (contract : String) (min_ts max_ts : ℕ) (page : EventsPage) (n : ℕ)
        → Ensures
            (λ (w : World O). P w.shared × (w.requests ≡ n + 1))
            (get_all_trc20_events texts enqueue db contains chain_tip grid settings worker pages
              scope contract min_ts max_ts page.fingerprint)
            (λ events w. P w.shared)
        → Ensures
            (λ (w : World O). P w.shared × (w.requests ≡ n + 1))
            (get_all_trc20_events texts enqueue db contains chain_tip grid settings worker pages
                scope contract min_ts max_ts page.fingerprint
              >>= λ rest. pure (page.events ++ rest))
            (λ events w. P w.shared)
    more-Ensures pages contract min_ts max_ts page n h =
        bind-Ensures (λ events (w : World O). P w.shared) h (λ rest. record { at = λ w p. p })

    pub get_all-Ensures :
        (pages : ℕ) (contract : String) (min_ts max_ts : ℕ) (fingerprint : String) (n : ℕ)
        → pages_end grid pages n contract min_ts max_ts fingerprint ≡ true
        → Ensures
            (λ (w : World O). P w.shared × (w.requests ≡ n))
            (get_all_trc20_events texts enqueue db contains chain_tip grid settings worker pages
              scope contract min_ts max_ts fingerprint)
            (λ events w. P w.shared)
    unfolding get_all_trc20_events pages_end
    get_all-Ensures zero contract min_ts max_ts fingerprint n e = absurd (cc e)
    get_all-Ensures (suc pages) contract min_ts max_ts fingerprint n e =
        bind-Ensures (λ u (w : World O). P w.shared × (w.requests ≡ n))
          (renew_unless_blank-Ensures n)
          (λ u.
            bind-Ensures
              (λ page (w : World O).
                P w.shared
                × (w.requests ≡ n + 1)
                × (grid.events_page n contract min_ts max_ts fingerprint ≡ some page))
              (request-Ensures (λ k. grid.events_page k contract min_ts max_ts fingerprint) n)
              (λ page.
                if-Ensures _ _ (is_last_page page) _ _ (λ l. record { at = λ w h. h.0 })
                  (λ l. record {
                    at = λ w h.
                        (more-Ensures pages contract min_ts max_ts page n (
                            get_all-Ensures pages contract min_ts max_ts page.fingerprint (n + 1) (
                              next_ends pages contract min_ts max_ts fingerprint n page e l
                                h.2))).at
                          w (h.0, h.1);
                  })))
