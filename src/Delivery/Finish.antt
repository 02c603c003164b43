-- ===== src/Delivery/Finish.antt =====
-- The attempts of one event come to an end (internal/webhook/worker.go).
use mathlib.Core.Path.{subst}
use tronvent.Base.{
  ℕ, suc, ◌+◌, ◌≤◌, String, Bool, true, false, ◌&&◌, ◌||◌, Option, none, some, List, [], ◌∷◌, ◌≡◌,
  refl, sym, ◌∙◌, inl, inr, Bool-cases, Option-cases, arith, ltb, leb, ◌==◌, eq_iff, length,
  if◌then◌else◌,
}
use tronvent.Outbox.{Event, pending, delivering, delivered, failed, dead, is_id, update}
use tronvent.Outbox.Lifecycle.{set_delivering}
use tronvent.Outbox.Lifecycle.Claims.{AllWithId}
use tronvent.Delivery.{Environment, World, deliver_one}
use tronvent.Delivery.Outcome.{is_settled, deliver_one-settles}

-- The row with the id.
abbrev pub find_event : String → List Event → Option Event
find_event i [] = none
find_event i (e ∷ es) = let rest = find_event i es in if is_id i e then some e else rest

abbrev pub is_final : Event → Bool
is_final e = elim e.status [
  | delivered ↦ true
  | dead ↦ true
  | failed ↦ false
  | pending ↦ false
  | delivering ↦ false
]

abbrev pub found_final : Option Event → Bool
found_final none = true
found_final (some e) = is_final e

OnFound : (Event → Bool) → Option Event → Type 0
OnFound p none = Unit
OnFound p (some e) = p e ≡ true

OnFound-weaken :
    (p q : Event → Bool) (o : Option Event)
    → ((e : Event) → p e ≡ true → q e ≡ true)
    → OnFound p o
    → OnFound q o
unfolding OnFound
OnFound-weaken p q none k h = tt
OnFound-weaken p q (some e) k h = k e h

set_delivering_id : (now : ℕ) (e : Event) → (set_delivering now e).id ≡ e.id
unfolding set_delivering
set_delivering_id now e = refl

find_event-OnFound :
    (i : String) (p : Event → Bool) (rows : List Event)
    → AllWithId i (λ e. p e ≡ true) rows
    → OnFound p (find_event i rows)
unfolding OnFound
find_event-OnFound i p [] h = tt
find_event-OnFound i p (e ∷ es) h = elim (Bool-cases (is_id i e)) [
  | inl t ↦ rw t (h.0 (sym ((eq_iff i e.id).0 t)))
  | inr t ↦ rw t (find_event-OnFound i p es h.1)
]

find_event-id : (i : String) (rows : List Event) (e : Event) → find_event i rows ≡ some e → e.id ≡ i
find_event-id i [] e h = ground (arith, h)
find_event-id i (x ∷ xs) e h = ground (arith, h, eq_iff i x.id, find_event-id i xs e)

module _ (env : Environment) (max_attempts : ℕ) where
  -- The claim of the row that was found, and its delivery; nothing, where the event is through.
  abbrev pub claim_and_deliver : ℕ → String → World → Event → World × Bool
  claim_and_deliver now i w e =
      if is_final e
      then (w, true)
      else deliver_one env max_attempts now (set_delivering now e)
          (record w { rows = update (is_id i) (set_delivering now) w.rows })

  abbrev pub deliver_found : ℕ → String → World → Option Event → World × Bool
  deliver_found now i w none = (w, true)
  deliver_found now i w (some e) = claim_and_deliver now i w e

  -- One round: at time `now` the event with the id is claimed and delivered.
  unfoldable pub round : ℕ → String → World → World × Bool
  round now i w = deliver_found now i w (find_event i w.rows)

  unfoldable pub rounds : List ℕ → String → World → World
  rounds [] i w = w
  rounds (now ∷ later) i w = rounds later i (round now i w).0

  -- Every round's deliverOne returns nil.
  abbrev pub AllReturn : List ℕ → String → World → Type 0
  AllReturn [] i w = Unit
  AllReturn (now ∷ later) i w = ((round now i w).1 ≡ true) × AllReturn later i (round now i w).0

  -- Through, or with `n` attempts counted and one left.
  abbrev counted : ℕ → Event → Bool
  counted n e =
      is_final e || (leb n e.attempt_count && (n == 0 || ltb e.attempt_count max_attempts))

  settled-counted :
      (now n : ℕ) (e x : Event)
      → is_final e ≡ false
      → counted n e ≡ true
      → is_settled max_attempts ((set_delivering now e).attempt_count + 1) x ≡ true
      → counted (suc n) x ≡ true
  unfolding set_delivering
  settled-counted now n e x t h s = ground (arith, t, h, s)

  delivered-counted :
      (now n : ℕ) (i : String) (w : World) (e : Event)
      → e.id ≡ i
      → is_final e ≡ false
      → counted n e ≡ true
      → (deliver_one env max_attempts now (set_delivering now e) w).1 ≡ true
      → OnFound
          (counted (suc n))
          (find_event i (deliver_one env max_attempts now (set_delivering now e) w).0.rows)
  delivered-counted now n i w e d t h ok =
      let settled = is_settled max_attempts ((set_delivering now e).attempt_count + 1) in
      OnFound-weaken settled (counted (suc n)) _ (λ x s. settled-counted now n e x t h s)
        (find_event-OnFound i settled _ (
          subst
            (λ k.
              AllWithId k (λ x. settled x ≡ true)
                (deliver_one env max_attempts now (set_delivering now e) w).0.rows)
            (set_delivering_id now e ∙ d)
            (deliver_one-settles env max_attempts now (set_delivering now e) w ok)))

  claim_and_deliver-counted :
      (now n : ℕ) (i : String) (w : World) (e : Event)
      → find_event i w.rows ≡ some e
      → counted n e ≡ true
      → (claim_and_deliver now i w e).1 ≡ true
      → OnFound (counted (suc n)) (find_event i (claim_and_deliver now i w e).0.rows)
  unfolding OnFound set_delivering
  claim_and_deliver-counted now n i w e f h ok = elim (Bool-cases (is_final e)) [
    | inl t ↦ rw (t, f, t)
    | inr t ↦ rw t (delivered-counted now n i _ e (find_event-id i w.rows e f) t h (rw t at ok))
  ]

  round-counted :
      (now n : ℕ) (i : String) (w : World)
      → OnFound (counted n) (find_event i w.rows)
      → (round now i w).1 ≡ true
      → OnFound (counted (suc n)) (find_event i (round now i w).0.rows)
  unfolding round OnFound
  round-counted now n i w h ok = elim (Option-cases (find_event i w.rows)) [
    | inl e ↦ rw (e, e) tt
    | inr (x, e) ↦ rw e (claim_and_deliver-counted now n i w x e (rw e at h) (rw e at ok))
  ]

  rounds-counted :
      (times : List ℕ) (n : ℕ) (i : String) (w : World)
      → OnFound (counted n) (find_event i w.rows)
      → AllReturn times i w
      → OnFound (counted (length times + n)) (find_event i (rounds times i w).rows)
  unfolding rounds
  rounds-counted [] n i w h ok =
      subst (λ k. OnFound (counted k) (find_event i w.rows)) (omega arith) h
  rounds-counted (now ∷ later) n i w h ok =
      subst (λ k. OnFound (counted k) (find_event i (rounds later i (round now i w).0).rows))
        (omega arith)
        (rounds-counted later (suc n) i (round now i w).0 (round-counted now n i w h ok.0) ok.1)

  counted_out :
      (n : ℕ) (o : Option Event)
      → 1 ≤ n
      → max_attempts ≤ n
      → OnFound (counted n) o
      → found_final o ≡ true
  unfolding OnFound
  counted_out n none a b h = refl
  counted_out n (some e) a b h = ground (arith, h)

  any_counted : (o : Option Event) → OnFound (counted 0) o
  unfolding OnFound
  any_counted none = tt
  any_counted (some e) = ground arith

  -- Deliveries end. From any state of the event, once as many rounds of a claim and a delivery have
  -- returned nil as there are attempts at most, and at least one, the event is `delivered` or
  -- `dead`, whatever the replies were.
  pub rounds-finish :
      (times : List ℕ) (i : String) (w : World)
      → 1 ≤ length times
      → max_attempts ≤ length times
      → AllReturn times i w
      → found_final (find_event i (rounds times i w).rows) ≡ true
  rounds-finish times i w a b ok =
      counted_out (length times + 0) _ (omega (arith, a)) (omega (arith, b))
        (rounds-counted times 0 i w (any_counted (find_event i w.rows)) ok)
