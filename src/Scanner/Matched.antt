-- ===== src/Scanner/Matched.antt =====
-- Which events a transfer gives (internal/scanner/matched_events.go).
use mathlib.Core.Path.{subst}
use tronvent.Base.{
  ℕ, String, Bool, true, false, ◌&&◌, ◌||◌, List, [], ◌∷◌, ◌++◌, ◌≡◌, ◌≢◌, ◌⊎◌, sym, inl, inr,
  Bool-cases, arith, any, any-append, str_eq, eq_refl,
}
use tronvent.Payload.{direction_received, direction_broadcasted}
use tronvent.Confirm.{AddressConfirm, Database}
use tronvent.Confirm.FailOpen.{Truthful, KeepsWatched, is_active-KeepsWatched, is_active-watched}
use tronvent.Scanner.Match.{
  RawEvent, directed, check_role, both_roles, matched_transfer_events, confirmations_at,
}

-- An event of the transfer in the direction.
abbrev pub is_leg : RawEvent → String → RawEvent → Bool
is_leg ev direction e =
    str_eq e.direction direction
    && str_eq e.tx_hash ev.tx_hash
    && str_eq e.from_address ev.from_address
    && str_eq e.to_address ev.to_address
    && str_eq e.amount ev.amount

-- The two sides of a transfer, each with its address and the direction of its events.
pub data Role : Type 0 where
  receiver sender : Role

abbrev pub role_address : Role → RawEvent → String
role_address receiver ev = ev.to_address
role_address sender ev = ev.from_address

abbrev pub role_direction : Role → String
role_direction receiver = direction_received
role_direction sender = direction_broadcasted

-- The role of the direction is in the set of watched addresses.
abbrev pub of_role : (String → Bool) → RawEvent → RawEvent → Bool
of_role contains ev e =
    (is_leg ev direction_received e && contains ev.to_address)
    || (is_leg ev direction_broadcasted e && contains ev.from_address)

first_directed :
    (p : RawEvent → Bool) (direction : String) (base : RawEvent) (b : Bool) (rest : List RawEvent)
    → p (record base { direction = direction }) ≡ true
    → b ≡ true
    → any p (directed direction base b ++ rest) ≡ true
first_directed p direction base true rest h e = ground (arith, h)
first_directed p direction base false rest h e = absurd (cc e)

later_directed :
    (p : RawEvent → Bool) (direction : String) (base : RawEvent) (b : Bool) (before : List RawEvent)
    → p (record base { direction = direction }) ≡ true
    → b ≡ true
    → any p (before ++ directed direction base b) ≡ true
later_directed p direction base true before h e =
    ground (arith, h, any-append p before (record base { direction = direction } ∷ []))
later_directed p direction base false before h e = absurd (cc e)

is_leg_base :
    (chain_tip : ℕ) (ev : RawEvent) (direction : String)
    → is_leg ev direction (record ev {
      confirmations = confirmations_at chain_tip ev.block_number;
      direction = direction;
    })
      ≡ true
is_leg_base chain_tip ev direction = ground (
  arith,
  eq_refl direction,
  eq_refl ev.tx_hash,
  eq_refl ev.from_address,
  eq_refl ev.to_address,
  eq_refl ev.amount,
)

module _ (db : Database) (contains watched : String → Bool) (answers : Truthful db watched)
    (chain_tip : ℕ) where
  check_role-watched :
      (a : String) (c : AddressConfirm)
      → a ≢ ""
      → KeepsWatched watched c
      → contains a ≡ true
      → watched a ≡ true
      → (check_role db contains chain_tip a c).1 ≡ true
  check_role-watched a c h k b w = rw b (is_active-watched db watched answers a c h k w)

  pub check_role-KeepsWatched :
      (a : String) (c : AddressConfirm)
      → KeepsWatched watched c
      → KeepsWatched watched (check_role db contains chain_tip a c).0
  check_role-KeepsWatched a c k = elim (Bool-cases (contains a)) [
    | inl b ↦ rw b (is_active-KeepsWatched db watched answers a c k)
    | inr b ↦ rw b k
  ]

  abbrev based : RawEvent → RawEvent
  based ev = record ev { confirmations = confirmations_at chain_tip ev.block_number }

  asked :
      (ev : RawEvent) (c : AddressConfirm)
      → (contains ev.to_address ≡ true) ⊎ (contains ev.from_address ≡ true)
      → matched_transfer_events db contains chain_tip ev c
        ≡ both_roles db contains chain_tip
            (record ev { confirmations = confirmations_at chain_tip ev.block_number })
            ev
            c
  unfolding matched_transfer_events
  asked ev c (inl b) = rw b
  asked ev c (inr b) =
      rw b (elim (Bool-cases (contains ev.to_address)) [ inl d ↦ rw d | inr d ↦ rw d ])

  -- No watched role is missed. Where the database's answers are the watchlist and the cache calls no
  -- watched address inactive, a transfer whose receiver is on the watchlist, and in the set of
  -- addresses, gives a received event of this transfer, and one whose sender is, a broadcasted one,
  -- however many queries fail.
  pub matched_transfer_events-watched :
      (role : Role) (ev : RawEvent) (c : AddressConfirm)
      → KeepsWatched watched c
      → role_address role ev ≢ ""
      → contains (role_address role ev) ≡ true
      → watched (role_address role ev) ≡ true
      → any (is_leg ev (role_direction role)) (matched_transfer_events db contains chain_tip ev c).1
        ≡ true
  matched_transfer_events-watched receiver ev c k n b w =
      subst (λ r. any (is_leg ev direction_received) r.1 ≡ true) (sym (asked ev c (inl b)))
        (first_directed (is_leg ev direction_received) direction_received (based ev) _ _
          (is_leg_base chain_tip ev direction_received)
          (check_role-watched ev.to_address c n k b w))
  matched_transfer_events-watched sender ev c k n b w =
      subst (λ r. any (is_leg ev direction_broadcasted) r.1 ≡ true) (sym (asked ev c (inr b)))
        (later_directed (is_leg ev direction_broadcasted) direction_broadcasted (based ev) _
          (directed direction_received (based ev)
            (check_role db contains chain_tip ev.to_address c).1)
          (is_leg_base chain_tip ev direction_broadcasted)
          (check_role-watched ev.from_address _ n (check_role-KeepsWatched ev.to_address c k) b w))
