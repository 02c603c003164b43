-- ===== src/Api/Process.antt =====
-- What changes the stores of a process: the requests that it serves, and the reloads of cmd/tronvent/main.go
-- (on a notification, after a reconnect of the listener, at the start and at a fixed interval). A reload
-- queries its table first and swaps the store later (internal/store): requests, and other reloads, may
-- come in between. A request is one step, with the reload that some handlers make themselves.
use tronvent.Base.{
  ℕ, zero, suc, ◌++◌, String, Bool, true, false, not, ◌||◌, Option, none, some, List, [], ◌∷◌,
  if◌then◌else◌,
}
use tronvent.Endpoints.{list_webhook_endpoints}
use tronvent.Outbox.{WebhookEndpoint}
use tronvent.Stores.{reload}
use tronvent.Api.{Packages, Call, World, Request}
use tronvent.Api.Store.{
  list_active_addresses, list_active_contracts, reload_addresses, reload_contracts,
}
use tronvent.Api.Routes.{Route, serve}

-- NotifyAddressesChanged, NotifyContractsChanged and NotifyWebhookChanged
pub data Channel : Type 0 where
  addresses_changed contracts_changed webhook_changed : Channel

-- The answer of a reload's query.
pub data Found : Type 0 where
  addresses_found contracts_found : List String → Found
  webhooks_found : List WebhookEndpoint → Found

-- A process, and the reloads that have queried and not yet swapped.
pub record Process (F : Type 0) : Type 0 where
  pub world : World F
  pub under_way : List Found

-- One event of the process's life: a request, the query of a channel's reload (the Boolean says whether it
-- succeeds), and the swap of the reload with this number among those under way. The callback of a
-- notification is a query and its swap; reloadAll is three of these pairs, the next query after the last
-- swap. A write of another process is left out: it notifies this one.
pub data Step : Type 0 where
  served : Call → Route → Request → Step
  queried : Bool → Channel → Step
  swapped : ℕ → Step

abbrev pub webhooks_of : Option (List WebhookEndpoint) → Option Found
webhooks_of none = none
webhooks_of (some eps) = some (webhooks_found eps)

abbrev pub nth : ℕ → List Found → Option Found
nth i [] = none
nth zero (f ∷ fs) = some f
nth (suc i) (f ∷ fs) = nth i fs

abbrev pub without : ℕ → List Found → List Found
without i [] = []
without zero (f ∷ fs) = fs
without (suc i) (f ∷ fs) = f ∷ without i fs

abbrev pub with_found : Option Found → List Found → List Found
with_found none fs = fs
with_found (some f) fs = fs ++ f ∷ []

module _ {F : Type 0} (p : Packages F) where
  -- The query of the reload that a channel's notification starts.
  unfoldable pub query : Bool → Channel → World F → Option Found
  query false channel w = none
  query true addresses_changed w =
      some (addresses_found (list_active_addresses w.addresses w.address_keys))
  query true contracts_changed w =
      some (contracts_found (list_active_contracts w.contracts w.contract_keys))
  query true webhook_changed w = webhooks_of (list_webhook_endpoints p.crypto w.endpoints)

  -- The swap under the store's lock.
  unfoldable pub swap : Found → World F → World F
  swap (addresses_found addrs) w = record w {
    address_store = reload_addresses p.bloom (some addrs) w.address_store;
  }
  swap (contracts_found contracts) w = record w {
    contract_store = reload_contracts (some contracts) w.contract_store;
  }
  swap (webhooks_found eps) w = record w { webhook_config = reload (some eps) w.webhook_config }

  -- A reload that nothing comes between.
  abbrev pub swap_found : Option Found → World F → World F
  swap_found none w = w
  swap_found (some f) w = swap f w

  abbrev pub loaded : Channel → World F → World F
  loaded channel w = swap_found (query true channel w) w

  abbrev pub start_webhooks : Option (List WebhookEndpoint) → World F → Option (World F)
  start_webhooks none w = none
  start_webhooks (some eps) w =
      some (record w { webhook_config = reload (some eps) w.webhook_config })

  -- The start loads each store before a request is served, and exits (`none`) where one cannot be loaded.
  unfoldable pub start : (Channel → Bool) → World F → Option (World F)
  start ok w =
      if not (ok addresses_changed) || not (ok contracts_changed) || not (ok webhook_changed)
      then none
      else start_webhooks (list_webhook_endpoints p.crypto w.endpoints)
          (loaded contracts_changed (loaded addresses_changed w))

  abbrev pub started : World F → Process F
  started w = record { world = w; under_way = [] }

  unfoldable pub step : String → Step → Process F → Process F
  step token (served c route r) s = record s { world = (serve p c token route r s.world).0 }
  step token (queried ok channel) s = record s {
    under_way = with_found (query ok channel s.world) s.under_way;
  }
  step token (swapped i) s = record {
    world = swap_found (nth i s.under_way) s.world;
    under_way = without i s.under_way;
  }

  unfoldable pub run : String → List Step → Process F → Process F
  run token [] s = s
  run token (x ∷ steps) s = run token steps (step token x s)
