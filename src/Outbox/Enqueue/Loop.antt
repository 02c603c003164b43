-- ===== src/Outbox/Enqueue/Loop.antt =====
-- The rules by which the proofs about EnqueueWebhookEvent (internal/db/scanner.go) go through its
-- loop over the endpoints.
use Prim.Native.String.{len}
use tronvent.Base.{
  ℕ, suc, String, Bool, true, false, not, ◌&&◌, ◌||◌, List, [], ◌∷◌, ◌++◌, ◌≡◌, inl, inr,
  Bool-cases, arith, str_eq, eq_refl, ltb, any-append,
}
use tronvent.Payload.{Envelope}
use tronvent.Outbox.{Event, WebhookEndpoint}
use tronvent.Outbox.Enqueue.{
  Request, Batch, Result, ok, err, ◌>>=◌, request_key, request_legacy, has_key, wants, new_row,
  EnqueueError, type_mismatch, payload_too_large, is_legacy, stamp, or_first, enqueue_for,
  enqueue_loop, legacy_webhook_dedupe_exists,
}

-- A property of the batch, if the call did not fail.
abbrev pub OnOk {ℓ} : (Batch → Type ℓ) → Result Batch → Type ℓ
OnOk P (ok b) = P b
OnOk P (err e) = Unit

pub OnOk-bind {ℓ κ} :
    (P : Batch → Type ℓ) (Q : Batch → Type κ) (res : Result Batch) (f : Batch → Result Batch)
    → OnOk P res
    → ((b : Batch) → P b → OnOk Q (f b))
    → OnOk Q (res >>= f)
OnOk-bind P Q (ok b) f h k = k b h
OnOk-bind P Q (err e) f h k = tt

pub OnOk-weaken {ℓ κ} :
    (P : Batch → Type ℓ) (Q : Batch → Type κ) (res : Result Batch)
    → OnOk P res
    → ((b : Batch) → P b → Q b)
    → OnOk Q res
OnOk-weaken P Q (ok b) h k = k b h
OnOk-weaken P Q (err e) h k = tt

pub OnOk-and {ℓ κ} :
    (P : Batch → Type ℓ) (Q : Batch → Type κ) (res : Result Batch)
    → OnOk P res
    → OnOk Q res
    → OnOk (λ b. P b × Q b) res
OnOk-and P Q (ok b) h k = (h, k)
OnOk-and P Q (err e) h k = tt

-- The table has the row of this request for this endpoint, in the present or in an older format.
abbrev pub covered : Request → WebhookEndpoint → List Event → Bool
covered r ep rows = request_legacy r ep rows || has_key (request_key r ep) rows

-- Every endpoint of the list that wants the event is covered.
abbrev pub AllCovered : (String → Bool) → Request → List WebhookEndpoint → List Event → Type 0
AllCovered present r [] rows = Unit
AllCovered present r (ep ∷ eps) rows =
    (wants present r.std_type ep ≡ true → covered r ep rows ≡ true) × AllCovered present r eps rows

pub covered-append :
    (r : Request) (ep : WebhookEndpoint) (rows more : List Event)
    → covered r ep rows ≡ true
    → covered r ep (rows ++ more) ≡ true
unfolding legacy_webhook_dedupe_exists
covered-append r ep rows more h = ground (
  arith,
  any-append (λ e. str_eq e.dedupe_key (request_key r ep)) rows more,
  any-append
      (is_legacy r.scope r.tx_hash r.payload.payload.from_address r.payload.payload.to_address
        r.payload.payload.amount ep.id)
      rows more,
)

pub covered-new_row :
    (now : ℕ) (r : Request) (ep : WebhookEndpoint) (id : String) (rows : List Event)
    → covered r ep (rows ++ new_row now r ep id ∷ []) ≡ true
unfolding new_row
covered-new_row now r ep id rows = ground (
  arith,
  any-append (λ e. str_eq e.dedupe_key (request_key r ep)) rows (new_row now r ep id ∷ []),
  eq_refl (request_key r ep),
)

module _ (marshal : Envelope → String) (new_uuid : ℕ → String) where
  -- The cases of the loop's body.
  pub for_cases {ℓ} :
      (P : Result Batch → Type ℓ) (now : ℕ) (r : Request) (ep : WebhookEndpoint) (b : Batch)
      → ((e : EnqueueError) → P (err e))
      → (covered r ep b.rows ≡ true → P (ok (record b { drawn = suc b.drawn })))
      → (covered r ep b.rows ≡ false
          → P (
              ok (record b {
                drawn = suc b.drawn;
                rows = b.rows ++ new_row now r ep (new_uuid b.drawn) ∷ [];
                first_id = or_first b.first_id (new_uuid b.drawn);
              })))
      → P (enqueue_for marshal new_uuid now r ep b)
  unfolding enqueue_for
  for_cases P now r ep b failed known fresh =
      elim (Bool-cases (not (str_eq r.payload.type "") && not (str_eq r.payload.type r.std_type))) [
        | inl e ↦ rw e (failed type_mismatch)
        | inr e ↦
            rw e
              (elim (Bool-cases
                (ltb 20480 (len (marshal (stamp r.payload r.std_type (new_uuid b.drawn)))))) [
                  | inl f ↦ rw f (failed payload_too_large)
                  | inr f ↦ rw f (elim (Bool-cases (covered r ep b.rows)) [
                    | inl c ↦ rw c (known c)
                    | inr c ↦ rw c (fresh c)
                  ])
                ])
      ]

  -- An invariant of the batch that each insertion keeps holds of the loop's result.
  pub loop_inv {ℓ} :
      (P : Batch → Type ℓ) (now : ℕ) (present : String → Bool) (r : Request)
      → ((ep : WebhookEndpoint) (b : Batch)
          → P b
          → OnOk P (enqueue_for marshal new_uuid now r ep b))
      → (eps : List WebhookEndpoint) (b : Batch) → P b
      → OnOk P (enqueue_loop marshal new_uuid now present r eps b)
  unfolding enqueue_loop
  loop_inv P now present r keeps [] b h = h
  loop_inv P now present r keeps (ep ∷ eps) b h = elim (Bool-cases (wants present r.std_type ep)) [
    | inl w ↦ rw w (
        OnOk-bind P P (enqueue_for marshal new_uuid now r ep b)
          (enqueue_loop marshal new_uuid now present r eps) (keeps ep b h)
          (λ b' k. loop_inv P now present r keeps eps b' k))
    | inr w ↦ rw w (loop_inv P now present r keeps eps b h)
  ]
