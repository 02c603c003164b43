-- ===== src/Api/Store.antt =====
-- internal/scanner/bloom.go, internal/store/address_store.go and contract_store.go: the addresses and
-- contracts that a process holds in memory, with the queries that fill them (ListActiveAddresses and
-- ListActiveContracts of internal/db/scanner.go, whose ORDER BY is left out) and the addresses that the
-- API accepts (internal/validate/tron.go).
use Prim.Native.String.{len}
use tronvent.Base.{
  ℕ, ◌+◌, String, Bool, false, not, ◌||◌, ◌&&◌, Option, none, some, List, [], ◌∷◌, ◌++◌, ◌==◌,
  str_eq, any, keep, length, has_prefix, if◌then◌else◌,
}
use tronvent.Watched.{Addresses, Contracts, WatchedContract, is_watched_address_active}
use tronvent.Api.{Bloom, BloomFilter}

abbrev valid_payload : Option (ℕ × ℕ) → Bool
valid_payload none = false
valid_payload (some (payload, version)) = version == 0x41 && payload == 20

-- validate.TronAddress; `len` counts bytes.
unfoldable pub tron_address : (String → Option (ℕ × ℕ)) → String → Bool
tron_address check_decode addr =
    if not (len addr == 34) || not (has_prefix "T" addr)
    then false
    else valid_payload (check_decode addr)

abbrev pub active_contract : Option WatchedContract → Bool
active_contract none = false
active_contract (some r) = r.is_active

unfoldable pub is_active_contract : Contracts → String → Bool
is_active_contract t k = active_contract (t k)

-- SELECT … WHERE status = 'active'
unfoldable pub list_active_addresses : Addresses → List String → List String
list_active_addresses t keys = keep (is_watched_address_active t) keys

unfoldable pub list_active_contracts : Contracts → List String → List String
list_active_contracts t keys = keep (is_active_contract t) keys

-- The loop of ContractStore.Add, and the append after it.
unfoldable pub add_contract : String → List String → List String
add_contract k contracts =
    if any (λ c. str_eq c k) contracts then contracts else contracts ++ k ∷ []

module _ {F : Type 0} (b : Bloom F) where
  abbrev pub new_bloom_filter : BloomFilter F
  new_bloom_filter = record { filter = b.new; count = 0 }

  -- Add
  unfoldable pub add : BloomFilter F → String → BloomFilter F
  add s a = record { filter = b.add_string s.filter a; count = s.count + 1 }

  unfoldable pub add_strings : F → List String → F
  add_strings f [] = f
  add_strings f (a ∷ addrs) = add_strings (b.add_string f a) addrs

  unfoldable pub add_batch : BloomFilter F → List String → BloomFilter F
  add_batch s addrs = record { filter = add_strings s.filter addrs; count = s.count + length addrs }

  -- Contains
  unfoldable pub contains : BloomFilter F → String → Bool
  contains s a = b.test_string s.filter a

  -- AddressStore.Reload with the addresses that the loader returned, `none` where it failed.
  unfoldable pub reload_addresses : Option (List String) → BloomFilter F → BloomFilter F
  reload_addresses none s = s
  reload_addresses (some addrs) s = add_batch new_bloom_filter addrs

-- ContractStore.Reload
unfoldable pub reload_contracts : Option (List String) → List String → List String
reload_contracts none contracts = contracts
reload_contracts (some found) contracts = found
