-- ===== src/Outbox/Enqueue/Fanout.antt =====
-- Which rows EnqueueWebhookEvent inserts (internal/db/scanner.go).
use mathlib.Core.Path.{subst}
use mathlib.Core.List.{append-nil, append_assoc}
use tronvent.Base.{
  ℕ, suc, String, Bool, true, false, ◌&&◌, Option, none, some, List, [], ◌∷◌, ◌++◌, ◌≡◌, sym, ◌∙◌,
  inl, inr, Bool-cases, arith, str_eq, eq_refl, any, All,
}
use tronvent.Payload.{Envelope, is_known_event_type, normalize_event_type}
use tronvent.Outbox.{Event, WebhookEndpoint, pending}
use tronvent.Outbox.Enqueue.{
  Request, Batch, ok, ◌>>=◌, request_key, wants, stamp, new_row, or_first, enqueue_for,
  enqueue_loop, enqueue_webhook_event,
}
use tronvent.Outbox.Enqueue.Loop.{OnOk, OnOk-weaken, OnOk-and, AllCovered, for_cases}
use tronvent.Outbox.Enqueue.Dedupe.{loop-AllCovered}

abbrev pub is_sent_to : WebhookEndpoint → Option String → Bool
is_sent_to ep none = str_eq ep.id ""
is_sent_to ep (some id) = str_eq id ep.id

-- The row is this request's for an endpoint of the list that wants it, to be sent to that endpoint.
abbrev pub is_for : (String → Bool) → Request → List WebhookEndpoint → Event → Bool
is_for present r eps e =
    any
      (λ ep.
        wants present r.std_type ep
        && str_eq e.dedupe_key (request_key r ep)
        && is_sent_to ep e.endpoint_id)
      eps

abbrev pub first_id_after : Option String → List Event → Option String
first_id_after (some first) added = some first
first_id_after none [] = none
first_id_after none (e ∷ added) = some e.id

-- A row as it is inserted: of the request's type, scope, transaction and block, with its payload, still to be
-- delivered.
abbrev pub IsNew : ℕ → (String → Bool) → Request → List WebhookEndpoint → Event → Type 0
IsNew now present r eps e =
    (is_for present r eps e ≡ true)
    × (e.event_type ≡ r.std_type)
    × (e.scope ≡ r.scope)
    × (e.tx_hash ≡ r.tx_hash)
    × (e.block_number ≡ r.block_number)
    × (e.block_timestamp ≡ r.block_timestamp)
    × (e.payload ≡ stamp r.payload r.std_type e.id)
    × (e.status ≡ pending)
    × (e.attempt_count ≡ 0)
    × (e.next_attempt_at ≡ now)

-- The table grew by new rows only, and the batch has the first one's id.
abbrev pub Grown : ℕ → (String → Bool) → Request → List WebhookEndpoint → Batch → Batch → Type 0
Grown now present r eps b b' =
    (added : List Event) × (b'.rows ≡ b.rows ++ added)
    × All (IsNew now present r eps) added
    × (b'.first_id ≡ first_id_after b.first_id added)

IsNew-cons :
    (now : ℕ) (present : String → Bool) (r : Request) (ep : WebhookEndpoint)
    → (eps : List WebhookEndpoint) (added : List Event) → All (IsNew now present r eps) added
    → All (IsNew now present r (ep ∷ eps)) added
IsNew-cons now present r ep eps [] h = tt
IsNew-cons now present r ep eps (e ∷ es) (h, hs) =
    (ground (arith, h), IsNew-cons now present r ep eps es hs)

Grown-cons :
    (now : ℕ) (present : String → Bool) (r : Request) (ep : WebhookEndpoint)
    → (eps : List WebhookEndpoint) (b b' : Batch) → Grown now present r eps b b'
    → Grown now present r (ep ∷ eps) b b'
Grown-cons now present r ep eps b b' (added, rows, new, first) =
    (added, rows, IsNew-cons now present r ep eps added new, first)

Grown-new_row :
    (now : ℕ) (present : String → Bool) (r : Request) (ep : WebhookEndpoint) (id : String)
    → (eps : List WebhookEndpoint) (b b' : Batch) → wants present r.std_type ep ≡ true
    → Grown now present r eps
        (record {
          rows = b.rows ++ new_row now r ep id ∷ [];
          drawn = suc b.drawn;
          first_id = or_first b.first_id id;
        })
        b'
    → Grown now present r (ep ∷ eps) b b'
unfolding new_row
Grown-new_row now present r ep id eps b b' w (added, rows, new, first) = (
  new_row now r ep id ∷ added,
  rows ∙ append_assoc b.rows (new_row now r ep id ∷ []) added,
  (
    ground (arith, eq_refl (request_key r ep), eq_refl ep.id, Bool-cases (str_eq ep.id "")),
    IsNew-cons now present r ep eps added new,
  ),
  ground (arith, first),
)

module _ (marshal : Envelope → String) (new_uuid : ℕ → String) where
  for-Grown :
      (now : ℕ) (present : String → Bool) (r : Request) (ep : WebhookEndpoint)
      → (eps : List WebhookEndpoint) (b : Batch) → wants present r.std_type ep ≡ true
      → ((b' : Batch)
          → OnOk (Grown now present r eps b') (enqueue_loop marshal new_uuid now present r eps b'))
      → OnOk (Grown now present r (ep ∷ eps) b) (
          enqueue_for marshal new_uuid now r ep b
          >>= enqueue_loop marshal new_uuid now present r eps)
  for-Grown now present r ep eps b w ih =
      for_cases marshal new_uuid
        (λ res.
          OnOk (Grown now present r (ep ∷ eps) b)
            (res >>= enqueue_loop marshal new_uuid now present r eps))
        now r ep b (λ e. tt)
        (λ c. OnOk-weaken _ _ _ (ih _) (λ b' g. Grown-cons now present r ep eps b b' g))
        (λ c.
          OnOk-weaken _ _ _ (ih _)
            (λ b' g. Grown-new_row now present r ep (new_uuid b.drawn) eps b b' w g))

  loop_wanted :
      (now : ℕ) (present : String → Bool) (r : Request) (ep : WebhookEndpoint)
      → (eps : List WebhookEndpoint) (b : Batch) → wants present r.std_type ep ≡ true
      → enqueue_loop marshal new_uuid now present r (ep ∷ eps) b ≡ (
          enqueue_for marshal new_uuid now r ep b
          >>= enqueue_loop marshal new_uuid now present r eps)
  unfolding enqueue_loop
  loop_wanted now present r ep eps b w = rw w

  loop_unwanted :
      (now : ℕ) (present : String → Bool) (r : Request) (ep : WebhookEndpoint)
      → (eps : List WebhookEndpoint) (b : Batch) → wants present r.std_type ep ≡ false
      → enqueue_loop marshal new_uuid now present r (ep ∷ eps) b
        ≡ enqueue_loop marshal new_uuid now present r eps b
  unfolding enqueue_loop
  loop_unwanted now present r ep eps b w = rw w

  loop-Grown :
      (now : ℕ) (present : String → Bool) (r : Request) (eps : List WebhookEndpoint) (b : Batch)
      → OnOk (Grown now present r eps b) (enqueue_loop marshal new_uuid now present r eps b)
  unfolding enqueue_loop
  loop-Grown now present r [] b = ([], sym (append-nil b.rows), tt, ground arith)
  loop-Grown now present r (ep ∷ eps) b = elim (Bool-cases (wants present r.std_type ep)) [
    | inl w ↦
        subst (OnOk (Grown now present r (ep ∷ eps) b)) (sym (loop_wanted now present r ep eps b w))
          (for-Grown now present r ep eps b w (λ b'. loop-Grown now present r eps b'))
    | inr w ↦
        subst (OnOk (Grown now present r (ep ∷ eps) b))
          (sym (loop_unwanted now present r ep eps b w))
          (OnOk-weaken _ _ _ (loop-Grown now present r eps b)
            (λ b' g. Grown-cons now present r ep eps b b' g))
  ]

  -- Fanout. A call that succeeds for a known event type appends to the table, and what it appends
  -- are pending rows of this event with its payload, due now, each with the id and the dedupe key of an
  -- endpoint of the list that is active, subscribes to the type and still exists; every such endpoint is covered afterwards, by its new
  -- row or by one that was there; and the returned id is the first new row's, none if there is none.
  pub enqueue_fanout :
      (now : ℕ) (eps : List WebhookEndpoint) (present : String → Bool) (r : Request)
      → (rows : List Event) (drawn : ℕ) (b : Batch)
      → is_known_event_type (normalize_event_type r.std_type) ≡ true
      → enqueue_webhook_event marshal new_uuid now eps present r rows drawn ≡ ok b
      → let q = record r { std_type = normalize_event_type r.std_type } in
        Grown now present q eps (record { rows = rows; drawn = drawn; first_id = none }) b
        × AllCovered present q eps b.rows
  unfolding enqueue_webhook_event
  enqueue_fanout now [] present r rows drawn b k h =
      (([], ground (arith, append-nil rows), tt, ground arith), tt)
  enqueue_fanout now (ep ∷ eps) present r rows drawn b k h =
      let q = record r { std_type = normalize_event_type r.std_type } in
      let start : Batch = record { rows = rows; drawn = drawn; first_id = none } in
      subst
        (OnOk
          (λ b'. Grown now present q (ep ∷ eps) start b' × AllCovered present q (ep ∷ eps) b'.rows))
        (rw k at h)
        (OnOk-and (Grown now present q (ep ∷ eps) start)
          (λ b'. AllCovered present q (ep ∷ eps) b'.rows) _
          (loop-Grown now present q (ep ∷ eps) start)
          (loop-AllCovered marshal new_uuid now present q (ep ∷ eps) start))
