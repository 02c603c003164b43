-- ===== src/Scanner/Trc20/Batch.antt =====
-- Which events of a TRC-20 contract a batch publishes (internal/scanner/poller.go).
use tronvent.Base.{
  ℕ, String, Bool, true, false, not, ◌&&◌, List, [], ◌∷◌, ◌++◌, ◌≡◌, refl, ◌∙◌, sym, ap, inl, inr,
  Bool-cases, arith, ◌==◌, str_eq, any, keep, All, if◌then◌else◌,
}
use mathlib.Core.List.{append_assoc, append-nil}
use tronvent.Payload.{direction_received, direction_broadcasted}
use tronvent.Confirm.{AddressConfirm, Database, new_address_confirm, prefetch}
use tronvent.Scanner.Match.{
  RawEvent, Texts, directed, check_role, matched_transfer_events, transfer_event_key,
  confirmations_at,
}
use tronvent.Scanner.Trc20.{
  TransferEvent, in_window, EventsByBlock, put_event, add_unseen, prefetch_addresses, match_event,
  collect, batch_events,
}

abbrev pub has_key : String → List RawEvent → Bool
has_key k evs = any (λ ev. str_eq (transfer_event_key ev) k) evs

abbrev pub is_seen : List String → RawEvent → Bool
is_seen seen ev = any (λ k. str_eq k (transfer_event_key ev)) seen

-- The first event of each key that is not in `seen`.
unfoldable pub distinct : List String → List RawEvent → List RawEvent
distinct seen [] = []
distinct seen (ev ∷ evs) =
    let old = distinct seen evs in
    let new = ev ∷ distinct (transfer_event_key ev ∷ seen) evs in
    if is_seen seen ev then old else new

seen_after : List String → List RawEvent → List String
seen_after seen [] = seen
seen_after seen (ev ∷ evs) =
    seen_after (if is_seen seen ev then seen else transfer_event_key ev ∷ seen) evs

distinct-append :
    (seen : List String) (xs ys : List RawEvent)
    → distinct seen (xs ++ ys) ≡ distinct seen xs ++ distinct (seen_after seen xs) ys
unfolding distinct seen_after
distinct-append seen [] ys = refl
distinct-append seen (x ∷ xs) ys = elim (Bool-cases (is_seen seen x)) [
  | inl e ↦ rw e (distinct-append seen xs ys)
  | inr e ↦
      rw e (ap (λ (l : List RawEvent). x ∷ l) (distinct-append (transfer_event_key x ∷ seen) xs ys))
]

abbrev pub in_block : ℕ → List RawEvent → List RawEvent
in_block n evs = keep (λ ev. ev.block_number == n) evs

abbrev pub InBlock : ℕ → List RawEvent → Type 0
InBlock block evs = All (λ ev. ev.block_number ≡ block) evs

in_block-append :
    (n : ℕ) (xs ys : List RawEvent) → in_block n (xs ++ ys) ≡ in_block n xs ++ in_block n ys
in_block-append n [] ys = refl
in_block-append n (x ∷ xs) ys = ground (arith, in_block-append n xs ys)

add_unseen-seen :
    (block : ℕ) (evs : List RawEvent) (seen : List String) (m : EventsByBlock)
    → (add_unseen block evs seen m).0 ≡ seen_after seen evs
unfolding add_unseen seen_after
add_unseen-seen block [] seen m = refl
add_unseen-seen block (ev ∷ evs) seen m = add_unseen-seen block evs _ _

put_event-append :
    (block : ℕ) (ev : RawEvent) (m : EventsByBlock) (n : ℕ) (rest : List RawEvent)
    → ev.block_number ≡ block
    → put_event block ev m n ++ in_block n rest ≡ m n ++ in_block n (ev ∷ rest)
put_event-append block ev m n rest h =
    ground (arith, h, append_assoc (m n) (ev ∷ []) (in_block n rest))

add_step :
    (b : Bool) (block : ℕ) (ev : RawEvent) (evs : List RawEvent) (seen : List String)
    (m : EventsByBlock)
    → (n : ℕ) → ev.block_number ≡ block
    → ((s : List String) (m' : EventsByBlock)
        → (add_unseen block evs s m').1 n ≡ m' n ++ in_block n (distinct s evs))
    → (add_unseen block evs
          (if b then seen else transfer_event_key ev ∷ seen)
          (if b then m else put_event block ev m)).1
        n
      ≡ m n
        ++ in_block n
            (if b then distinct seen evs else ev ∷ distinct (transfer_event_key ev ∷ seen) evs)
add_step true block ev evs seen m n h ih = ih seen m
add_step false block ev evs seen m n h ih =
    ih (transfer_event_key ev ∷ seen) (put_event block ev m) ∙ put_event-append block ev m n _ h

add_unseen-events :
    (block : ℕ) (evs : List RawEvent) (seen : List String) (m : EventsByBlock) (n : ℕ)
    → InBlock block evs
    → (add_unseen block evs seen m).1 n ≡ m n ++ in_block n (distinct seen evs)
unfolding add_unseen distinct
add_unseen-events block [] seen m n h = sym (append-nil (m n))
add_unseen-events block (ev ∷ evs) seen m n h =
    add_step (is_seen seen ev) block ev evs seen m n h.0
      (λ s m'. add_unseen-events block evs s m' n h.1)

module _ (texts : Texts) (db : Database) (contains : String → Bool) (chain_tip : ℕ)
    (contract : String) (replay : Bool) (batch_start batch_end : ℕ) where
  abbrev matched_of : TransferEvent → AddressConfirm → AddressConfirm × List RawEvent
  matched_of = match_event texts db contains chain_tip contract replay

  -- All events that the transfers in the window give, one after another.
  unfoldable pub window_matches : List TransferEvent → AddressConfirm → List RawEvent
  window_matches [] c = []
  window_matches (e ∷ es) c =
      let (c', matched) = matched_of e c in
      let within = in_window batch_start batch_end e in
      (if within then matched else []) ++ window_matches es (if within then c' else c)

  both-InBlock :
      (base : RawEvent) (received sent : Bool) (block : ℕ)
      → base.block_number ≡ block
      → InBlock block
          (directed direction_received base received ++ directed direction_broadcasted base sent)
  both-InBlock base true true block h = (h, (h, tt))
  both-InBlock base true false block h = (h, tt)
  both-InBlock base false true block h = (h, tt)
  both-InBlock base false false block h = tt

  pub matched-InBlock :
      (ev : RawEvent) (c : AddressConfirm)
      → InBlock ev.block_number (matched_transfer_events db contains chain_tip ev c).1
  unfolding matched_transfer_events
  matched-InBlock ev c =
      elim (Bool-cases (not (contains ev.to_address) && not (contains ev.from_address))) [
        | inl e ↦ rw e tt
        | inr e ↦ rw e (
            both-InBlock (record ev { confirmations = confirmations_at chain_tip ev.block_number })
              (check_role db contains chain_tip ev.to_address c).1
              (check_role db contains chain_tip ev.from_address
                (check_role db contains chain_tip ev.to_address c).0).1
              ev.block_number refl)
      ]

  -- One round of the loop before the events `es`.
  collect_step :
      (within : Bool) (block : ℕ) (matched : List RawEvent) (es : List TransferEvent)
      → (c c' : AddressConfirm) (seen : List String) (m : EventsByBlock) (n : ℕ)
      → InBlock block matched
      → ((c1 : AddressConfirm) (s : List String) (m1 : EventsByBlock)
          → (collect texts db contains chain_tip contract replay batch_start batch_end es c1 s m1).1
              n
            ≡ m1 n ++ in_block n (distinct s (window_matches es c1)))
      → let r = add_unseen block matched seen m in
        (collect texts db contains chain_tip contract replay batch_start batch_end es
            (if within then c' else c)
            (if within then r.0 else seen)
            (if within then r.1 else m)).1
          n
        ≡ m n
          ++ in_block n (
              distinct seen
                ((if within then matched else []) ++ window_matches es (if within then c' else c)))
  collect_step false block matched es c c' seen m n h ih = ih c seen m
  collect_step true block matched es c c' seen m n h ih =
      ih c' (add_unseen block matched seen m).0 (add_unseen block matched seen m).1
      ∙ rw
          (
            add_unseen-seen block matched seen m,
            add_unseen-events block matched seen m n h,
            distinct-append seen matched (window_matches es c'),
          )
          (append_assoc (m n) _ _
            ∙ ap (λ (l : List RawEvent). m n ++ l)
                (sym (in_block-append n (distinct seen matched) _)))

  collect-events :
      (es : List TransferEvent) (c : AddressConfirm) (seen : List String) (m : EventsByBlock)
      (n : ℕ)
      → (collect texts db contains chain_tip contract replay batch_start batch_end es c seen m).1 n
        ≡ m n ++ in_block n (distinct seen (window_matches es c))
  unfolding collect window_matches distinct
  collect-events [] c seen m n = sym (append-nil (m n))
  collect-events (e ∷ es) c seen m n =
      collect_step (in_window batch_start batch_end e) e.block_number (matched_of e c).1 es c
        (matched_of e c).0 seen m n (matched-InBlock _ _) (λ c1 s m1. collect-events es c1 s m1 n)

  abbrev pub prefetched : List TransferEvent → ℕ → AddressConfirm
  prefetched events queries =
      prefetch db
        (prefetch_addresses texts db contains chain_tip contract batch_start batch_end events)
        (new_address_confirm queries)

  -- What a batch publishes for a block, in the forward scan and in a replay: of all events that the
  -- transfers in the batch's window give, in TronGrid's order, the first of each transfer key, and of
  -- these the ones of the block.
  pub batch_events-distinct :
      (events : List TransferEvent) (queries n : ℕ)
      → (batch_events texts db contains chain_tip contract replay batch_start batch_end events
            queries).1
          n
        ≡ in_block n (distinct [] (window_matches events (prefetched events queries)))
  unfolding batch_events
  batch_events-distinct events queries n =
      collect-events events (prefetched events queries) [] (λ k. []) n
