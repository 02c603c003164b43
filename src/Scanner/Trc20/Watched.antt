-- ===== src/Scanner/Trc20/Watched.antt =====
-- That a batch of a TRC-20 contract misses no watched address (internal/scanner/poller.go).
use tronvent.Base.{
  ℕ, String, Bool, true, false, not, ◌&&◌, List, [], ◌∷◌, ◌++◌, ◌≡◌, ◌≢◌, refl, inl, inr,
  Bool-cases, arith, str_eq, eq_iff, eq_refl, any, any-append, All, All-append, All-weaken, ◌≤◌,
}
use tronvent.Confirm.{AddressConfirm, Database}
use tronvent.Confirm.FailOpen.{
  Truthful, KeepsWatched, new_address_confirm-KeepsWatched, prefetch-KeepsWatched,
}
use tronvent.Scanner.Match.{RawEvent, Texts, matched_transfer_events, transfer_event_key}
use tronvent.Scanner.Matched.{
  Role, role_address, role_direction, is_leg, check_role-KeepsWatched,
  matched_transfer_events-watched,
}
use tronvent.Scanner.Trc20.{
  TransferEvent, in_window, transfer_of, probe_roles, match_event, batch_events,
}
use tronvent.Scanner.Trc20.Batch.{
  has_key, is_seen, distinct, in_block, window_matches, prefetched, matched-InBlock,
  batch_events-distinct,
}

-- The key of the transfer in the direction.
abbrev pub key_of : RawEvent → String → String
key_of ev direction = transfer_event_key (record ev { direction = direction })

has_key_of_leg :
    (ev : RawEvent) (direction : String) (evs : List RawEvent)
    → any (is_leg ev direction) evs ≡ true
    → has_key (key_of ev direction) evs ≡ true
unfolding transfer_event_key
has_key_of_leg ev direction [] h = h
has_key_of_leg ev direction (x ∷ xs) h = ground (
  arith,
  h,
  eq_iff x.direction direction,
  eq_iff x.tx_hash ev.tx_hash,
  eq_iff x.from_address ev.from_address,
  eq_iff x.to_address ev.to_address,
  eq_iff x.amount ev.amount,
  eq_refl (key_of ev direction),
  has_key_of_leg ev direction xs,
)

has_key_left :
    (k : String) (xs ys : List RawEvent) → has_key k xs ≡ true → has_key k (xs ++ ys) ≡ true
has_key_left k xs ys h =
    ground (arith, h, any-append (λ ev. str_eq (transfer_event_key ev) k) xs ys)

has_key_right :
    (k : String) (xs ys : List RawEvent) → has_key k ys ≡ true → has_key k (xs ++ ys) ≡ true
has_key_right k xs ys h =
    ground (arith, h, any-append (λ ev. str_eq (transfer_event_key ev) k) xs ys)

has_key-distinct :
    (k : String) (evs : List RawEvent) (seen : List String)
    → has_key k evs ≡ true
    → any (λ s. str_eq s k) seen ≡ false
    → has_key k (distinct seen evs) ≡ true
unfolding distinct
has_key-distinct k [] seen h s = h
has_key-distinct k (x ∷ xs) seen h s = elim (Bool-cases (str_eq (transfer_event_key x) k)) [
  | inl e ↦
      let unseen : is_seen seen x ≡ false = rw ((eq_iff (transfer_event_key x) k).0 e) s in
      rw unseen (ground (arith, e))
  | inr e ↦ elim (Bool-cases (is_seen seen x)) [
    | inl b ↦ rw b (has_key-distinct k xs seen (ground (arith, h, e)) s)
    | inr b ↦
        rw (b, e)
          (has_key-distinct k xs (transfer_event_key x ∷ seen) (ground (arith, h, e))
            (ground (arith, s, e)))
  ]
]

-- The events are of blocks of the batch.
abbrev Within : ℕ → ℕ → List RawEvent → Type 0
Within batch_start batch_end evs =
    All (λ ev. (batch_start ≤ ev.block_number) × (ev.block_number ≤ batch_end)) evs

distinct-Within :
    (batch_start batch_end : ℕ) (evs : List RawEvent) (seen : List String)
    → Within batch_start batch_end evs
    → Within batch_start batch_end (distinct seen evs)
unfolding distinct
distinct-Within batch_start batch_end [] seen h = h
distinct-Within batch_start batch_end (x ∷ xs) seen h = elim (Bool-cases (is_seen seen x)) [
  | inl e ↦ rw e (distinct-Within batch_start batch_end xs seen h.1)
  | inr e ↦ rw e (h.0, distinct-Within batch_start batch_end xs (transfer_event_key x ∷ seen) h.1)
]

has_key-in_block :
    (k : String) (batch_start batch_end : ℕ) (evs : List RawEvent)
    → Within batch_start batch_end evs
    → has_key k evs ≡ true
    → (n : ℕ) × (batch_start ≤ n) × (n ≤ batch_end) × (has_key k (in_block n evs) ≡ true)
has_key-in_block k batch_start batch_end [] p h = absurd (cc h)
has_key-in_block k batch_start batch_end (x ∷ xs) p h =
    elim (Bool-cases (str_eq (transfer_event_key x) k)) [
      | inl e ↦ (x.block_number, p.0.0, p.0.1, ground (arith, e))
      | inr e ↦
          let (n, l, u, g) =
            has_key-in_block k batch_start batch_end xs p.1 (ground (arith, h, e)) in
          (n, l, u, ground (arith, g))
    ]

module _ (texts : Texts) (db : Database) (contains watched : String → Bool)
    (answers : Truthful db watched) (chain_tip : ℕ) (contract : String) (replay : Bool)
    (batch_start batch_end : ℕ) where
  probe-KeepsWatched :
      (b : Bool) (ev : RawEvent) (c : AddressConfirm)
      → KeepsWatched watched c
      → KeepsWatched watched (probe_roles texts db contains chain_tip contract b ev c)
  probe-KeepsWatched false ev c k = k
  probe-KeepsWatched true ev c k =
      check_role-KeepsWatched db contains watched answers chain_tip ev.from_address _
        (check_role-KeepsWatched db contains watched answers chain_tip ev.to_address c k)

  matched-KeepsWatched :
      (ev : RawEvent) (c : AddressConfirm)
      → KeepsWatched watched c
      → KeepsWatched watched (matched_transfer_events db contains chain_tip ev c).0
  unfolding matched_transfer_events
  matched-KeepsWatched ev c k =
      elim (Bool-cases (not (contains ev.to_address) && not (contains ev.from_address))) [
        | inl e ↦ rw e k
        | inr e ↦ rw e (
            check_role-KeepsWatched db contains watched answers chain_tip ev.from_address _
              (check_role-KeepsWatched db contains watched answers chain_tip ev.to_address c k))
      ]

  matched-Within :
      (x : TransferEvent) (c : AddressConfirm)
      → in_window batch_start batch_end x ≡ true
      → Within batch_start batch_end (match_event texts db contains chain_tip contract replay x c).1
  matched-Within x c i =
      All-weaken (λ (ev : RawEvent). ev.block_number ≡ x.block_number)
        (λ (ev : RawEvent). (batch_start ≤ ev.block_number) × (ev.block_number ≤ batch_end)) _
        (λ ev h. (ground (arith, i, h), ground (arith, i, h)))
        (matched-InBlock texts db contains chain_tip contract replay batch_start batch_end
          (transfer_of texts db contains chain_tip contract x) _)

  window_matches-Within :
      (es : List TransferEvent) (c : AddressConfirm)
      → Within batch_start batch_end
          (window_matches texts db contains chain_tip contract replay batch_start batch_end es c)
  unfolding window_matches
  window_matches-Within [] c = tt
  window_matches-Within (x ∷ xs) c = elim (Bool-cases (in_window batch_start batch_end x)) [
    | inl o ↦ rw o (
        All-append
          (λ (ev : RawEvent). (batch_start ≤ ev.block_number) × (ev.block_number ≤ batch_end)) _ _
          (matched-Within x c o) (window_matches-Within xs _))
    | inr o ↦ rw o (window_matches-Within xs c)
  ]

  module _ (e : TransferEvent) (role : Role) where
    abbrev own : RawEvent
    own = transfer_of texts db contains chain_tip contract e

    window_matches-watched :
        (before after : List TransferEvent) (c : AddressConfirm)
        → in_window batch_start batch_end e ≡ true
        → role_address role own ≢ ""
        → contains (role_address role own) ≡ true
        → watched (role_address role own) ≡ true
        → KeepsWatched watched c
        → has_key (key_of own (role_direction role)) (
            window_matches texts db contains chain_tip contract replay batch_start batch_end
              (before ++ e ∷ after)
              c)
          ≡ true
    unfolding window_matches
    window_matches-watched [] after c i n b w k = rw i (
        has_key_left (key_of own (role_direction role))
          (match_event texts db contains chain_tip contract replay e c).1 _
          (has_key_of_leg own (role_direction role) _ (
            matched_transfer_events-watched db contains watched answers chain_tip role own
              (probe_roles texts db contains chain_tip contract replay own c)
              (probe-KeepsWatched replay own c k) n b w)))
    window_matches-watched (x ∷ xs) after c i n b w k =
        elim (Bool-cases (in_window batch_start batch_end x)) [
          | inl o ↦ rw o (
              has_key_right (key_of own (role_direction role))
                (match_event texts db contains chain_tip contract replay x c).1 _
                (window_matches-watched xs after _ i n b w
                  (matched-KeepsWatched _ _ (probe-KeepsWatched replay _ c k))))
          | inr o ↦ rw o (window_matches-watched xs after c i n b w k)
        ]

    -- No watched role of a TRC-20 transfer is missed. Where the database's answers are the watchlist, a
    -- transfer that TronGrid returned, of a block of the batch, and whose receiver (or sender) is on the
    -- watchlist and in the set of addresses, is published under its key as received (or broadcasted)
    -- with a block of the batch, by the scan and by the replay, however many queries fail.
    pub batch_events-watched :
        (before after : List TransferEvent) (queries : ℕ)
        → in_window batch_start batch_end e ≡ true
        → role_address role own ≢ ""
        → contains (role_address role own) ≡ true
        → watched (role_address role own) ≡ true
        → (block : ℕ) × (batch_start ≤ block)
          × (block ≤ batch_end)
          × (has_key (key_of own (role_direction role)) (
                (batch_events texts db contains chain_tip contract replay batch_start batch_end
                    (before ++ e ∷ after)
                    queries).1
                  block)
              ≡ true)
    batch_events-watched before after queries i n b w =
        let events = before ++ e ∷ after in
        let found =
          has_key-distinct (key_of own (role_direction role)) _ []
            (window_matches-watched before after
              (prefetched texts db contains chain_tip contract replay batch_start batch_end events
                queries)
              i n b w
              (prefetch-KeepsWatched db watched answers _ _
                (new_address_confirm-KeepsWatched watched queries)))
            refl in
        let (block, l, u, at) =
          has_key-in_block _ batch_start batch_end _
            (distinct-Within batch_start batch_end _ [] (window_matches-Within events _)) found in
        (
          block,
          l,
          u,
          rw
              (batch_events-distinct texts db contains chain_tip contract replay batch_start
                batch_end events queries block)
              at,
        )
