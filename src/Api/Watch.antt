-- ===== src/Api/Watch.antt =====
-- The part of the state that the watchlists of internal/api are about.
use tronvent.Base.{String, Bool, true, false, List, ◌≡◌, if◌then◌else◌}
use tronvent.Watched.{Addresses, Contracts}
use tronvent.Api.{BloomFilter, World, Response}

-- The tables of the watchlists and what the process holds of them.
pub record Watch (F : Type 0) : Type 0 where
  pub addresses : Addresses
  pub address_keys : List String
  pub contracts : Contracts
  pub contract_keys : List String
  pub address_store : BloomFilter F
  pub contract_store : List String

module _ {F : Type 0} where
  abbrev pub watch : World F → Watch F
  watch w = record {
    addresses = w.addresses;
    address_keys = w.address_keys;
    contracts = w.contracts;
    contract_keys = w.contract_keys;
    address_store = w.address_store;
    contract_store = w.contract_store;
  }

  -- Either branch leaves the watchlists alone.
  pub if-watch :
      (b : Bool) (x y : World F × Response) (w : World F)
      → watch x.0 ≡ watch w
      → watch y.0 ≡ watch w
      → watch ((if◌then◌else◌ {A = World F × Response} b x y).0) ≡ watch w
  if-watch true x y w h k = h
  if-watch false x y w h k = k
