-- ===== src/Watched.antt =====
-- internal/db/scanner.go: the tables scanner_watched_addresses and scanner_watched_contracts, by
-- their keys. The transactions notify the replicas of a change; the Boolean beside a result says
-- whether they do. Parameter: the id that the database draws for a new row.
pub mod Membership
pub mod Examples
use tronvent.Base.{
  ℕ, String, Bool, true, false, not, ◌&&◌, Option, none, some, List, [], ◌∷◌, str_eq, if◌then◌else◌,
}

pub record WatchedAddress : Type 0 where
  pub id : String
  pub address : String
  -- status = 'active'
  pub is_active : Bool
  pub source : String
  pub created_at : ℕ
  pub updated_at : ℕ

pub record WatchedContract : Type 0 where
  pub id : String
  pub contract_address : String
  pub is_active : Bool
  pub token_symbol : Option String
  pub source : String
  pub created_at : ℕ
  pub updated_at : ℕ

abbrev pub Addresses : Type 0
Addresses = String → Option WatchedAddress

abbrev pub Contracts : Type 0
Contracts = String → Option WatchedContract

abbrev pub put_address : Addresses → String → WatchedAddress → Addresses
put_address t address row = λ k. if str_eq address k then some row else t k

abbrev pub put_contract : Contracts → String → WatchedContract → Contracts
put_contract t address row = λ k. if str_eq address k then some row else t k

-- The row returned, whether it was created, and whether the replicas are notified.
pub record Added (A : Type 0) : Type 0 where
  pub row : A
  pub created : Bool
  pub notified : Bool

abbrev pub add_to :
    ℕ
    → String
    → Addresses
    → String
    → String
    → Option WatchedAddress
    → Addresses × Added WatchedAddress
add_to now id t address source none =
    let row : WatchedAddress = record {
      id = id;
      address = address;
      is_active = true;
      source = source;
      created_at = now;
      updated_at = now;
    } in
    (put_address t address row, record { row = row; created = true; notified = true })
add_to now id t address source (some r) =
    let active = record r { is_active = true; updated_at = now } in
    if r.is_active
    then (t, record { row = r; created = false; notified = false })
    else (put_address t address active, record { row = active; created = false; notified = true })

unfoldable pub add_watched_address :
    ℕ → String → Addresses → String → String → Addresses × Added WatchedAddress
add_watched_address now id t address source = add_to now id t address source (t address)

-- `none` is ErrWatchedAddressNotFound. The replicas are not notified.
abbrev pub deactivate_in :
    ℕ → Addresses → String → Option WatchedAddress → Addresses × Option WatchedAddress
deactivate_in now t address none = (t, none)
deactivate_in now t address (some r) =
    let inactive = record r { is_active = false; updated_at = now } in
    if r.is_active then (put_address t address inactive, some inactive) else (t, some r)

unfoldable pub deactivate_watched_address :
    ℕ → Addresses → String → Addresses × Option WatchedAddress
deactivate_watched_address now t address = deactivate_in now t address (t address)

abbrev pub is_active_row : Option WatchedAddress → Bool
is_active_row none = false
is_active_row (some r) = r.is_active

-- IsWatchedAddressActive
unfoldable pub is_watched_address_active : Addresses → String → Bool
is_watched_address_active t address = is_active_row (t address)

-- nullIfEmpty, and COALESCE(NULLIF($2, ''), token_symbol)
abbrev symbol_or : String → Option String → Option String
symbol_or symbol kept = if str_eq symbol "" then kept else some symbol

abbrev pub add_contract_to :
    ℕ
    → String
    → Contracts
    → String
    → String
    → String
    → Option WatchedContract
    → Contracts × Added WatchedContract
add_contract_to now id t address symbol source none =
    let row : WatchedContract = record {
      id = id;
      contract_address = address;
      is_active = true;
      token_symbol = symbol_or symbol none;
      source = source;
      created_at = now;
      updated_at = now;
    } in
    (put_contract t address row, record { row = row; created = true; notified = true })
add_contract_to now id t address symbol source (some r) =
    let active = record r {
      is_active = true;
      token_symbol = symbol_or symbol r.token_symbol;
      updated_at = now;
    } in
    if r.is_active
    then (t, record { row = r; created = false; notified = false })
    else (put_contract t address active, record { row = active; created = false; notified = true })

unfoldable pub add_watched_contract :
    ℕ → String → Contracts → String → String → String → Contracts × Added WatchedContract
add_watched_contract now id t address symbol source =
    add_contract_to now id t address symbol source (t address)

-- `none` is ErrWatchedContractNotFound; the Boolean says whether the replicas are notified.
abbrev pub deactivate_contract_in :
    ℕ → Contracts → String → Option WatchedContract → Contracts × Option WatchedContract × Bool
deactivate_contract_in now t address none = (t, none, false)
deactivate_contract_in now t address (some r) =
    let inactive = record r { is_active = false; updated_at = now } in
    if r.is_active
    then (put_contract t address inactive, some inactive, true)
    else (t, some r, false)

unfoldable pub deactivate_watched_contract :
    ℕ → Contracts → String → Contracts × Option WatchedContract × Bool
deactivate_watched_contract now t address = deactivate_contract_in now t address (t address)
