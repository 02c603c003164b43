-- ===== src/Api/Watchlist/Calls.antt =====
-- The calls that the handlers on the watchlists make keep what the process holds in step with the tables
-- (internal/api).
use tronvent.Base.{String, Bool, true, false, ◌≡◌, refl, Bool-cases, inl, inr, if◌then◌else◌}
use tronvent.Api.{Packages, Call, World, Response}
use tronvent.Api.Store.{reload_contracts}
use tronvent.Api.Watch.{Watch, watch}
use tronvent.Api.Watchlist
use tronvent.Api.Watchlist.{
  insert_address, insert_contract, switch_off_address, switch_off_contract, store_address,
  store_contract, refresh_contracts,
}
use tronvent.Api.Synced.{NoFalseNegatives, Synced, AddressesSynced, ContractsSynced}
use tronvent.Api.Synced.Addresses
use tronvent.Api.Synced.Contracts

module _ {F : Type 0} (p : Packages F) where
  abbrev pub InStep : World F → Type 0
  InStep w = Synced p.bloom (watch w)

  -- A change of one half leaves the other in step.
  pub new_addresses :
      (v v' : Watch F)
      → Synced p.bloom v
      → AddressesSynced p.bloom v'
      → v'.contracts ≡ v.contracts
      → v'.contract_keys ≡ v.contract_keys
      → v'.contract_store ≡ v.contract_store
      → Synced p.bloom v'
  new_addresses v v' h a e f g = record {
    addresses = a;
    contracts = record {
      keyed = λ k. rw (e, f) (h.contracts.keyed k);
      held = λ k. rw (e, g) (h.contracts.held k);
    };
  }

  pub new_contracts :
      (v v' : Watch F)
      → Synced p.bloom v
      → ContractsSynced p.bloom v'
      → v'.addresses ≡ v.addresses
      → v'.address_keys ≡ v.address_keys
      → v'.address_store ≡ v.address_store
      → Synced p.bloom v'
  new_contracts v v' h a e f g = record {
    contracts = a;
    addresses = record {
      keyed = λ k. rw (e, f) (h.addresses.keyed k);
      held = λ k. rw (e, g) (h.addresses.held k);
    };
  }

  -- What leaves the watchlists alone leaves them in step.
  pub same-InStep : (v v' : Watch F) → Synced p.bloom v → v' ≡ v → Synced p.bloom v'
  same-InStep v v' h e = rw e h

  pub if-InStep :
      (b : Bool) (x y : World F × Response)
      → InStep x.0
      → InStep y.0
      → InStep ((if◌then◌else◌ {A = World F × Response} b x y).0)
  if-InStep true x y h k = h
  if-InStep false x y h k = k

  pub if_world-InStep :
      (b : Bool) (x y : World F) → InStep x → InStep y → InStep (if b then x else y)
  if_world-InStep true x y h k = h
  if_world-InStep false x y h k = k

  module _ (n : NoFalseNegatives p.bloom) (c : Call) where
    pub address_added-InStep :
        (a source : String) (w : World F)
        → InStep w
        → InStep (Watchlist.address_added p c a (insert_address c a source w)).0
    unfolding insert_address store_address
    address_added-InStep a source w h = elim (Bool-cases c.write_ok) [
      | inl e ↦ rw e (
          new_addresses (watch w) _ h
            (Addresses.added-Synced p.bloom n c.now c.new_id a source (watch w) h.addresses) refl
            refl refl)
      | inr e ↦ rw e h
    ]

    pub dashboard_address-InStep :
        (a source : String) (w : World F)
        → InStep w
        → InStep (Watchlist.dashboard_address_added p c (insert_address c a source w))
    unfolding insert_address store_address
    dashboard_address-InStep a source w h = elim (Bool-cases c.write_ok) [
      | inl e ↦
          let own =
            Addresses.added_address c.now c.new_id w.addresses a source w.address_keys
              (h.addresses.keyed a) in
          rw (e, own)
            (new_addresses (watch w) _ h
              (Addresses.added-Synced p.bloom n c.now c.new_id a source (watch w) h.addresses) refl
              refl refl)
      | inr e ↦ rw e h
    ]

    pub contract_added-InStep :
        (a symbol source : String) (w : World F)
        → InStep w
        → InStep (Watchlist.contract_added p c a (insert_contract c a symbol source w)).0
    unfolding insert_contract store_contract
    contract_added-InStep a symbol source w h = elim (Bool-cases c.write_ok) [
      | inl e ↦ rw e (
          new_contracts (watch w) _ h
            (Contracts.added-Synced p.bloom c.now c.new_id a symbol source (watch w) h.contracts)
            refl refl refl)
      | inr e ↦ rw e h
    ]

    pub dashboard_contract-InStep :
        (a symbol source : String) (w : World F)
        → InStep w
        → InStep (Watchlist.dashboard_contract_added p c (insert_contract c a symbol source w))
    unfolding insert_contract store_contract
    dashboard_contract-InStep a symbol source w h = elim (Bool-cases c.write_ok) [
      | inl e ↦
          let own =
            Contracts.added_contract c.now c.new_id w.contracts a symbol source w.contract_keys
              (h.contracts.keyed a) in
          rw (e, own)
            (new_contracts (watch w) _ h
              (Contracts.added-Synced p.bloom c.now c.new_id a symbol source (watch w) h.contracts)
              refl refl refl)
      | inr e ↦ rw e h
    ]

    pub switch_off_address-InStep :
        (a : String) (w : World F) → InStep w → InStep (switch_off_address c a w).0
    unfolding switch_off_address
    switch_off_address-InStep a w h = elim (Bool-cases c.write_ok) [
      | inl e ↦ rw e (
          new_addresses (watch w) _ h
            (Addresses.deactivated-Synced p.bloom n c.now a (watch w) h.addresses) refl refl refl)
      | inr e ↦ rw e h
    ]

    pub switch_off_contract-InStep :
        (a : String) (w : World F) → InStep w → InStep (switch_off_contract c a w).0
    unfolding switch_off_contract
    switch_off_contract-InStep a w h = elim (Bool-cases c.write_ok) [
      | inl e ↦ rw e (
          new_contracts (watch w) _ h
            (Contracts.deactivated-Synced p.bloom c.now a (watch w) h.contracts) refl refl refl)
      | inr e ↦ rw e h
    ]

    pub refresh_contracts-InStep : (w : World F) → InStep w → InStep (refresh_contracts c w)
    unfolding refresh_contracts reload_contracts
    refresh_contracts-InStep w h = elim (Bool-cases c.reload_ok) [
      | inl e ↦ rw e (
          new_contracts (watch w) _ h
            (Contracts.reloaded-Synced p.bloom (watch w) h.contracts.keyed) refl refl refl)
      | inr e ↦ rw e h
    ]
