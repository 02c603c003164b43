-- ===== src/Outbox/Enqueue/Dedupe.antt =====
-- The deduplication of the outbox (internal/db/scanner.go): its key, and what a repeated call adds.

use tronvent.Base.{
  ℕ, suc, String, ◌<>◌, Bool, true, false, none, List, [], ◌∷◌, ◌++◌, ◌≡◌, refl, sym, ◌∙◌, ◌≢◌, inl,
  inr, Bool-cases, arith, str_eq, eq_iff, any-append, trim_space,
}
use tronvent.Payload.{Envelope, is_known_event_type, normalize_event_type, transfer_dedupe_key}
use tronvent.Payload.Keys.{NoColon, split_unique, transfer_dedupe_key_unique}
use tronvent.Outbox.{Event, WebhookEndpoint}
use tronvent.Outbox.Enqueue.Loop.{
  OnOk, OnOk-bind, OnOk-and, OnOk-weaken, covered, AllCovered, covered-append, covered-new_row,
  for_cases, loop_inv,
}
use tronvent.Outbox.Enqueue.{
  Request, Batch, Result, ok, err, ◌>>=◌, dedupe_key, request_key, has_key, wants, new_row,
  enqueue_for, enqueue_loop, enqueue_webhook_event, rows_after,
}

-- The parts of a key hold no ':', and the endpoint has an id.
pub record Plain (r : Request) (ep : WebhookEndpoint) : Type 0 where
  pub scope : NoColon r.scope
  pub tx_hash : NoColon r.tx_hash
  pub std_type : NoColon r.std_type
  pub from_address : NoColon r.payload.payload.from_address
  pub to_address : NoColon r.payload.payload.to_address
  pub amount : NoColon r.payload.payload.amount
  pub named : ep.id ≢ ""

key_parts :
    (r : Request) (ep : WebhookEndpoint)
    → ep.id ≢ ""
    → request_key r ep
      ≡ r.scope
        <> (":"
            <> (r.tx_hash
                <> (":"
                    <> (r.std_type
                        <> (":"
                            <> (transfer_dedupe_key r.payload.payload.from_address
                                  r.payload.payload.to_address r.payload.payload.amount
                                <> (":" <> ep.id)))))))
unfolding dedupe_key
key_parts r ep h = ground (arith, eq_iff ep.id "")

-- Two matched legs that go to endpoints with an id have the same dedupe key only if they agree in
-- scope, transaction, event type, endpoint, and, trimmed, in both addresses and the amount. None
-- of the parts before the endpoint holds a ':'.
pub request_key_unique :
    (r r' : Request) (ep ep' : WebhookEndpoint)
    → Plain r ep
    → Plain r' ep'
    → request_key r ep ≡ request_key r' ep'
    → (r.scope ≡ r'.scope)
      × (r.tx_hash ≡ r'.tx_hash)
      × (r.std_type ≡ r'.std_type)
      × (trim_space r.payload.payload.from_address ≡ trim_space r'.payload.payload.from_address)
      × (trim_space r.payload.payload.to_address ≡ trim_space r'.payload.payload.to_address)
      × (trim_space r.payload.payload.amount ≡ trim_space r'.payload.payload.amount)
      × (ep.id ≡ ep'.id)
request_key_unique r r' ep ep' p p' e =
    let e0 = sym (key_parts r ep p.named) ∙ e ∙ key_parts r' ep' p'.named in
    let (a, e1) = split_unique _ _ _ _ p.scope p'.scope e0 in
    let (b, e2) = split_unique _ _ _ _ p.tx_hash p'.tx_hash e1 in
    let (c, e3) = split_unique _ _ _ _ p.std_type p'.std_type e2 in
    let (f, t, m, g) =
      transfer_dedupe_key_unique _ _ _ _ _ _ _ _ p.from_address p.to_address p.amount
        p'.from_address p'.to_address p'.amount e3 in
    (a, b, c, f, t, m, g)

-- The keys of the table are distinct.
abbrev pub KeysUnique : List Event → Type 0
KeysUnique [] = Unit
KeysUnique (e ∷ es) = (has_key e.dedupe_key es ≡ false) × KeysUnique es

KeysUnique-append :
    (rows : List Event) (e : Event)
    → has_key e.dedupe_key rows ≡ false
    → KeysUnique rows
    → KeysUnique (rows ++ e ∷ [])
KeysUnique-append [] e h u = (refl, tt)
KeysUnique-append (x ∷ xs) e h u = (
  ground (
    arith,
    any-append (λ y. str_eq y.dedupe_key x.dedupe_key) xs (e ∷ []),
    eq_iff x.dedupe_key e.dedupe_key,
    eq_iff e.dedupe_key x.dedupe_key,
  ),
  KeysUnique-append xs e (ground arith) u.1,
)

module _ (marshal : Envelope → String) (new_uuid : ℕ → String) where
  for-Unique :
      (now : ℕ) (r : Request) (ep : WebhookEndpoint) (b : Batch)
      → KeysUnique b.rows
      → OnOk (λ b'. KeysUnique b'.rows) (enqueue_for marshal new_uuid now r ep b)
  unfolding new_row
  for-Unique now r ep b u =
      for_cases marshal new_uuid (OnOk (λ b'. KeysUnique b'.rows)) now r ep b (λ e. tt) (λ c. u)
        (λ c. KeysUnique-append b.rows _ (ground arith) u)

  -- The properties of the table that the whole call keeps.
  pub call_inv :
      (P : Batch → Type 0) (now : ℕ) (eps : List WebhookEndpoint) (present : String → Bool)
      → (r : Request) (rows : List Event) (drawn : ℕ)
      → P (record { rows = rows; drawn = drawn; first_id = none })
      → ((r' : Request) (b : Batch)
          → P b
          → OnOk P (enqueue_loop marshal new_uuid now present r' eps b))
      → OnOk P (enqueue_webhook_event marshal new_uuid now eps present r rows drawn)
  unfolding enqueue_webhook_event
  call_inv P now [] present r rows drawn h k = h
  call_inv P now (ep ∷ eps) present r rows drawn h k =
      elim (Bool-cases (is_known_event_type (normalize_event_type r.std_type))) [
        | inl e ↦ rw e (k _ _ h)
        | inr e ↦ rw e tt
      ]

  pub OnOk-rows_after :
      (P : List Event → Type 0) (rows : List Event) (res : Result Batch)
      → P rows
      → OnOk (λ b. P b.rows) res
      → P (rows_after rows res)
  OnOk-rows_after P rows (ok b) h k = k
  OnOk-rows_after P rows (err e) h k = h

  -- The dedupe keys of the table stay distinct, whatever is enqueued for whatever endpoints.
  pub enqueue-KeysUnique :
      (now : ℕ) (eps : List WebhookEndpoint) (present : String → Bool) (r : Request)
      → (rows : List Event) (drawn : ℕ) → KeysUnique rows
      → KeysUnique
          (rows_after rows (enqueue_webhook_event marshal new_uuid now eps present r rows drawn))
  enqueue-KeysUnique now eps present r rows drawn u = OnOk-rows_after KeysUnique rows _ u (
      call_inv (λ b. KeysUnique b.rows) now eps present r rows drawn u
        (λ r' b h.
          loop_inv marshal new_uuid (λ b'. KeysUnique b'.rows) now present r'
            (λ ep b' v. for-Unique now r' ep b' v) eps b h))

  for-covered :
      (now : ℕ) (r : Request) (ep : WebhookEndpoint) (b : Batch)
      → OnOk (λ b'. covered r ep b'.rows ≡ true) (enqueue_for marshal new_uuid now r ep b)
  for-covered now r ep b =
      for_cases marshal new_uuid (OnOk (λ b'. covered r ep b'.rows ≡ true)) now r ep b (λ e. tt)
        (λ c. c) (λ c. covered-new_row now r ep (new_uuid b.drawn) b.rows)

  -- What is covered stays so while any request is enqueued.
  pub loop-covered_still :
      (now : ℕ) (present : String → Bool) (q r : Request) (other : WebhookEndpoint)
      → (eps : List WebhookEndpoint) (b : Batch) → covered r other b.rows ≡ true
      → OnOk
          (λ b'. covered r other b'.rows ≡ true)
          (enqueue_loop marshal new_uuid now present q eps b)
  loop-covered_still now present q r other eps b h =
      loop_inv marshal new_uuid (λ b'. covered r other b'.rows ≡ true) now present q
        (λ ep b' k.
          for_cases marshal new_uuid (OnOk (λ b''. covered r other b''.rows ≡ true)) now q ep b'
            (λ e. tt) (λ c. k) (λ c. covered-append r other b'.rows _ k))
        eps b h

  head_covered :
      (now : ℕ) (present : String → Bool) (r : Request) (ep : WebhookEndpoint)
      → (eps : List WebhookEndpoint) (b : Batch) → wants present r.std_type ep ≡ true
      → ((b' : Batch)
          → OnOk
              (λ b''. AllCovered present r eps b''.rows)
              (enqueue_loop marshal new_uuid now present r eps b'))
      → OnOk
          (λ b'. (covered r ep b'.rows ≡ true) × AllCovered present r eps b'.rows)
          (enqueue_loop marshal new_uuid now present r (ep ∷ eps) b)
  unfolding enqueue_loop
  head_covered now present r ep eps b w ih = rw w (
      OnOk-bind (λ b'. covered r ep b'.rows ≡ true)
        (λ b'. (covered r ep b'.rows ≡ true) × AllCovered present r eps b'.rows)
        (enqueue_for marshal new_uuid now r ep b) (enqueue_loop marshal new_uuid now present r eps)
        (for-covered now r ep b)
        (λ b' c.
          OnOk-and (λ b''. covered r ep b''.rows ≡ true) (λ b''. AllCovered present r eps b''.rows)
            _ (loop-covered_still now present r r ep eps b' c) (ih b')))

  unwanted_skipped :
      (now : ℕ) (present : String → Bool) (r : Request) (ep : WebhookEndpoint)
      → (eps : List WebhookEndpoint) (b : Batch) → wants present r.std_type ep ≡ false
      → enqueue_loop marshal new_uuid now present r (ep ∷ eps) b
        ≡ enqueue_loop marshal new_uuid now present r eps b
  unfolding enqueue_loop
  unwanted_skipped now present r ep eps b w = rw w

  -- Every wanted endpoint is covered once the loop is through.
  pub loop-AllCovered :
      (now : ℕ) (present : String → Bool) (r : Request) (eps : List WebhookEndpoint) (b : Batch)
      → OnOk
          (λ b'. AllCovered present r eps b'.rows)
          (enqueue_loop marshal new_uuid now present r eps b)
  unfolding enqueue_loop
  loop-AllCovered now present r [] b = tt
  loop-AllCovered now present r (ep ∷ eps) b = elim (Bool-cases (wants present r.std_type ep)) [
    | inl w ↦
        OnOk-weaken _ _ (enqueue_loop marshal new_uuid now present r (ep ∷ eps) b)
          (head_covered now present r ep eps b w (λ b'. loop-AllCovered now present r eps b'))
          (λ b' c. ((λ _. c.0), c.1))
    | inr w ↦
        OnOk-weaken _ _ (enqueue_loop marshal new_uuid now present r (ep ∷ eps) b)
          (rw (unwanted_skipped now present r ep eps b w) (loop-AllCovered now present r eps b))
          (λ b' c. ((λ w'. cc), c))
  ]

  -- Nothing is inserted where every wanted endpoint is covered already.
  pub loop-noop :
      (now : ℕ) (present : String → Bool) (r : Request) (eps : List WebhookEndpoint) (b : Batch)
      → AllCovered present r eps b.rows
      → OnOk
          (λ b'. (b'.rows ≡ b.rows) × (b'.first_id ≡ b.first_id))
          (enqueue_loop marshal new_uuid now present r eps b)
  unfolding enqueue_loop
  loop-noop now present r [] b h = (refl, refl)
  loop-noop now present r (ep ∷ eps) b h = elim (Bool-cases (wants present r.std_type ep)) [
    | inl w ↦ rw w (
        for_cases marshal new_uuid
          (λ res.
            OnOk (λ b'. (b'.rows ≡ b.rows) × (b'.first_id ≡ b.first_id))
              (res >>= enqueue_loop marshal new_uuid now present r eps))
          now r ep b (λ e. tt)
          (λ c. loop-noop now present r eps (record b { drawn = suc b.drawn }) h.1)
          (λ c. absurd (cc (h.0 w))))
    | inr w ↦ rw w (loop-noop now present r eps b h.1)
  ]
