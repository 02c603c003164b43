-- ===== src/Api/Synced.antt =====
-- What the process holds of the watchlists agrees with their tables (internal/api, internal/store,
-- internal/scanner/bloom.go).
pub mod Keys
pub mod Addresses
pub mod Contracts
pub mod Reloads
pub mod Requests
use tronvent.Base.{
  String, Bool, true, false, Option, none, some, List, [], ◌∷◌, any, str_eq, ◌≡◌, refl,
}
use tronvent.Watched.{WatchedAddress, WatchedContract, is_watched_address_active}
use tronvent.Api.{Bloom}
use tronvent.Api.Store.{contains, is_active_contract}
use tronvent.Api.Watch.{Watch}

-- What the Bloom filter promises: no false negatives.
pub record NoFalseNegatives {F : Type 0} (b : Bloom F) : Type 0 where
  pub added : (f : F) (a : String) → b.test_string (b.add_string f a) a ≡ true
  pub kept :
      (f : F) (a k : String) → b.test_string f k ≡ true → b.test_string (b.add_string f a) k ≡ true

abbrev pub implies : Bool → Bool → Bool
implies true c = c
implies false c = true

pub implies-from : (b c : Bool) → (b ≡ true → c ≡ true) → implies b c ≡ true
implies-from true c h = h refl
implies-from false c h = refl

pub implies-to : (b c : Bool) → implies b c ≡ true → b ≡ true → c ≡ true
implies-to true c h e = h
implies-to false c h e = absurd (cc e)

abbrev pub has : String → List String → Bool
has k keys = any (λ x. str_eq x k) keys

-- A row stands under its own key, which is listed.
abbrev pub Keyed : {A : Type 0} → (A → String) → String → Option A → List String → Type 0
Keyed key k none keys = Unit
Keyed key k (some r) keys = (key r ≡ k) × (has k keys ≡ true)

abbrev pub address_of : WatchedAddress → String
address_of r = r.address

abbrev pub contract_of : WatchedContract → String
contract_of r = r.contract_address

module _ {F : Type 0} (b : Bloom F) where
  -- Every row stands under its own key, which is listed; every active address passes the filter.
  pub record AddressesSynced (v : Watch F) : Type 0 where
    pub keyed : (k : String) → Keyed address_of k (v.addresses k) v.address_keys
    pub held :
        (k : String)
        → implies (is_watched_address_active v.addresses k) (contains b v.address_store k) ≡ true

  -- Every row stands under its own key, which is listed; every active contract is in the list.
  pub record ContractsSynced (v : Watch F) : Type 0 where
    pub keyed : (k : String) → Keyed contract_of k (v.contracts k) v.contract_keys
    pub held :
        (k : String) → implies (is_active_contract v.contracts k) (has k v.contract_store) ≡ true

  pub record Synced (v : Watch F) : Type 0 where
    pub addresses : AddressesSynced v
    pub contracts : ContractsSynced v
