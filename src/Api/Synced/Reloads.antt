-- ===== src/Api/Synced/Reloads.antt =====
-- Reloads whose query and swap lie apart (internal/store, cmd/tronvent/main.go).
use tronvent.Base.{
  ℕ, zero, suc, String, Bool, true, false, Option, none, some, List, [], ◌∷◌, ◌≡◌, refl, arith, All,
  All-weaken, All-append,
}
use tronvent.Watched.{is_watched_address_active}
use tronvent.Endpoints.{list_webhook_endpoints}
use tronvent.Outbox.{WebhookEndpoint}
use tronvent.Api.{Packages, World}
use tronvent.Api.Store.{is_active_contract}
use tronvent.Api.Watch.{watch}
use tronvent.Api.Process.{
  Channel, addresses_changed, contracts_changed, webhook_changed, Found, addresses_found,
  contracts_found, webhooks_found, Process, Step, served, queried, swapped, nth, without,
  with_found, webhooks_of, query, swap, swap_found, step,
}
use tronvent.Api.Routes.{serve}
use tronvent.Api.Watchlist.Calls.{InStep, new_addresses, new_contracts}
use tronvent.Api.Synced.{NoFalseNegatives, implies, has}
use tronvent.Api.Synced.Addresses
use tronvent.Api.Synced.Contracts

implies_through : (a b c : Bool) → implies b c ≡ true → implies a b ≡ true → implies a c ≡ true
implies_through a b c h k = ground (arith, h, k)

pub All-without : (P : Found → Type 0) (i : ℕ) (fs : List Found) → All P fs → All P (without i fs)
All-without P i [] h = tt
All-without P zero (f ∷ fs) h = h.1
All-without P (suc i) (f ∷ fs) h = (h.0, All-without P i fs h.1)

module _ {F : Type 0} where
  -- What a query found has every address, or contract, that is active in the table.
  abbrev pub Covers : World F → Found → Type 0
  Covers w (addresses_found addrs) =
      (k : String) → implies (is_watched_address_active w.addresses k) (has k addrs) ≡ true
  Covers w (contracts_found contracts) =
      (k : String) → implies (is_active_contract w.contracts k) (has k contracts) ≡ true
  Covers w (webhooks_found eps) = Unit

  -- From `w` to `w'`, no row became active of the table that the query read.
  abbrev pub NoneActivated : World F → World F → Found → Type 0
  NoneActivated w w' (addresses_found addrs) =
      (k : String)
      → implies (is_watched_address_active w'.addresses k) (is_watched_address_active w.addresses k)
        ≡ true
  NoneActivated w w' (contracts_found contracts) =
      (k : String)
      → implies (is_active_contract w'.contracts k) (is_active_contract w.contracts k) ≡ true
  NoneActivated w w' (webhooks_found eps) = Unit

  pub Covers-NoneActivated :
      (w w' : World F) (fs : List Found)
      → All (Covers w) fs
      → All (NoneActivated w w') fs
      → All (Covers w') fs
  Covers-NoneActivated w w' [] h n = tt
  Covers-NoneActivated w w' (addresses_found addrs ∷ fs) h n = (
    λ k.
        implies_through (is_watched_address_active w'.addresses k)
          (is_watched_address_active w.addresses k) (has k addrs) (h.0 k) (n.0 k),
    Covers-NoneActivated w w' fs h.1 n.1,
  )
  Covers-NoneActivated w w' (contracts_found contracts ∷ fs) h n = (
    λ k.
        implies_through (is_active_contract w'.contracts k) (is_active_contract w.contracts k)
          (has k contracts) (h.0 k) (n.0 k),
    Covers-NoneActivated w w' fs h.1 n.1,
  )
  Covers-NoneActivated w w' (webhooks_found eps ∷ fs) h n =
      (tt, Covers-NoneActivated w w' fs h.1 n.1)

  abbrev pub CoversAny : World F → Option Found → Type 0
  CoversAny w none = Unit
  CoversAny w (some f) = Covers w f

  pub CoversAny-nth :
      (w : World F) (i : ℕ) (fs : List Found) → All (Covers w) fs → CoversAny w (nth i fs)
  CoversAny-nth w i [] h = tt
  CoversAny-nth w zero (f ∷ fs) h = h.0
  CoversAny-nth w (suc i) (f ∷ fs) h = CoversAny-nth w i fs h.1

  pub All-with_found :
      (w : World F) (f : Option Found) (fs : List Found)
      → CoversAny w f
      → All (Covers w) fs
      → All (Covers w) (with_found f fs)
  All-with_found w none fs c h = h
  All-with_found w (some f) fs c h = All-append (Covers w) fs (f ∷ []) h (c, tt)

module _ {F : Type 0} (p : Packages F) where
  -- A query covers the table that it read.
  pub query-CoversAny :
      (ok : Bool) (channel : Channel) (w : World F)
      → InStep p w
      → CoversAny w (query p ok channel w)
  unfolding query
  query-CoversAny false channel w h = tt
  query-CoversAny true addresses_changed w h =
      Addresses.listed_active w.addresses w.address_keys h.addresses.keyed
  query-CoversAny true contracts_changed w h =
      Contracts.listed_active w.contracts w.contract_keys h.contracts.keyed
  query-CoversAny true webhook_changed w h =
      webhooks_cover (list_webhook_endpoints p.crypto w.endpoints)
    where
      webhooks_cover : (eps : Option (List WebhookEndpoint)) → CoversAny w (webhooks_of eps)
      webhooks_cover none = tt
      webhooks_cover (some eps) = tt

  -- A swap leaves the tables alone.
  swap_found-Covers :
      (f : Option Found) (w : World F) (g : Found) → Covers w g → Covers (swap_found p f w) g
  unfolding swap
  swap_found-Covers none w g h = h
  swap_found-Covers (some (addresses_found a)) w (addresses_found g) h = h
  swap_found-Covers (some (addresses_found a)) w (contracts_found g) h = h
  swap_found-Covers (some (addresses_found a)) w (webhooks_found g) h = h
  swap_found-Covers (some (contracts_found a)) w (addresses_found g) h = h
  swap_found-Covers (some (contracts_found a)) w (contracts_found g) h = h
  swap_found-Covers (some (contracts_found a)) w (webhooks_found g) h = h
  swap_found-Covers (some (webhooks_found a)) w (addresses_found g) h = h
  swap_found-Covers (some (webhooks_found a)) w (contracts_found g) h = h
  swap_found-Covers (some (webhooks_found a)) w (webhooks_found g) h = h

  pub swap_found-All :
      (f : Option Found) (w : World F) (fs : List Found)
      → All (Covers w) fs
      → All (Covers (swap_found p f w)) fs
  swap_found-All f w fs h = All-weaken (Covers w) _ fs (λ g c. swap_found-Covers f w g c) h

  pub swap_found-InStep :
      (n : NoFalseNegatives p.bloom) (f : Option Found) (w : World F)
      → CoversAny w f
      → InStep p w
      → InStep p (swap_found p f w)
  unfolding swap
  swap_found-InStep n none w c h = h
  swap_found-InStep n (some (addresses_found addrs)) w c h =
      new_addresses p (watch w) _ h
        (Addresses.swapped-Synced p.bloom n addrs (watch w) h.addresses.keyed c) refl refl refl
  swap_found-InStep n (some (contracts_found contracts)) w c h =
      new_contracts p (watch w) _ h
        (Contracts.swapped-Synced p.bloom contracts (watch w) h.contracts.keyed c) refl refl refl
  swap_found-InStep n (some (webhooks_found eps)) w c h = h

  -- A request that is served while reloads are under way activates nothing that they have read.
  abbrev pub UndisturbedBy : String → Process F → Step → Type 0
  UndisturbedBy token s (served c route r) =
      All (NoneActivated s.world (serve p c token route r s.world).0) s.under_way
  UndisturbedBy token s (queried ok channel) = Unit
  UndisturbedBy token s (swapped i) = Unit

  abbrev pub Undisturbed : String → List Step → Process F → Type 0
  Undisturbed token [] s = Unit
  Undisturbed token (x ∷ steps) s =
      UndisturbedBy token s x × Undisturbed token steps (step p token x s)
