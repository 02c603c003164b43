-- ===== src/Api/Runtime.antt =====
-- internal/api/runtime.go: how far the scans are behind, per scope, and the query of internal/db/scanner.go
-- (ListContracts) by which the contracts are read, a page at a time. A number of blocks that is negative
-- counts as 0. Parameters: the order of the database's texts, in which the rows stand, and the chain's
-- height. The search for one contract, which the runtime does not use, is left out.
pub mod Parts
pub mod Pages
pub mod Examples
use tronvent.Base.{
  ℕ, zero, suc, ◌+◌, ◌-◌, String, Bool, true, false, not, ◌||◌, ◌&&◌, Option, none, some, List, [],
  ◌∷◌, ◌++◌, map, ltb, leb, ◌==◌, str_eq, keep, take, length, if◌then◌else◌,
}
use tronvent.Watched.{WatchedContract}

pub record ContractLag : Type 0 where
  pub contract_address : String
  pub symbol : String
  pub cursor : ℕ
  pub blocks_behind : ℕ

pub record RuntimeSnapshot : Type 0 where
  pub current_block : ℕ
  pub trx_target_block : ℕ
  pub trc20_target_block : ℕ
  pub trx_cursor : ℕ
  pub trx_blocks_behind : ℕ
  pub contract_lags : List ContractLag

unfoldable pub blocks_behind : ℕ → ℕ → ℕ
blocks_behind target cursor = if cursor == 0 || leb target cursor then 0 else target - cursor

abbrev pub clamp_limit : ℕ → ℕ
clamp_limit limit = if limit == 0 then 50 else if ltb 500 limit then 500 else limit

-- ListContracts for the status 'active' and no search: `before` is the order of the texts, and the rows
-- stand in it.
abbrev pub is_listed : (String → String → Bool) → String → WatchedContract → Bool
is_listed before after r = str_eq after "" || before after r.contract_address

unfoldable pub list_contracts :
    (String → String → Bool) → ℕ → String → List WatchedContract → List WatchedContract
list_contracts before limit after rows =
    take (clamp_limit limit) (keep (is_listed before after) (keep (λ r. r.is_active) rows))

abbrev symbol_of : Option String → String
symbol_of none = ""
symbol_of (some s) = s

abbrev pub lag_of : (String → ℕ) → ℕ → WatchedContract → ContractLag
lag_of cursors target r = record {
  contract_address = r.contract_address;
  symbol = symbol_of r.token_symbol;
  cursor = cursors r.contract_address;
  blocks_behind = blocks_behind target (cursors r.contract_address);
}

-- afterContract after the loop over a page
abbrev pub last_of : String → List WatchedContract → String
last_of after [] = after
last_of after (r ∷ rs) = last_of r.contract_address rs

abbrev pub page_size : ℕ
page_size = 500

abbrev pub is_empty : List WatchedContract → Bool
is_empty [] = true
is_empty (r ∷ rs) = false

module _ (before : String → String → Bool) (cursors : String → ℕ) (target : ℕ) where
  -- The loop over the pages, which runs on fuel; `none` where the fuel is not enough. `fails` says which
  -- queries fail, by what they ask for; a query that fails ends the loop.
  unfoldable pub contract_lags :
      (String → Bool) → ℕ → String → List WatchedContract → Option (List ContractLag)
  contract_lags fails zero after rows = none
  contract_lags fails (suc fuel) after rows =
      let page = list_contracts before page_size after rows in
      let rest = contract_lags fails fuel (last_of after page) rows in
      if fails after || is_empty page
      then some []
      else if ltb (length page) page_size
      then some (map (lag_of cursors target) page)
      else with_rest (map (lag_of cursors target) page) rest
    where
      with_rest : List ContractLag → Option (List ContractLag) → Option (List ContractLag)
      with_rest lags none = none
      with_rest lags (some rest) = some (lags ++ rest)

-- What the snapshot is built from: the chain's height (`none` where there is no poller, or it fails), the
-- confirmations that are waited for, and the highest block by scope (`none` where the query fails).
pub record RuntimeInput : Type 0 where
  pub latest_block : Option ℕ
  pub required_confs : ℕ
  pub trc20_event_confs : ℕ
  pub cursors : Option (String → ℕ)

abbrev pub latest_of : Option ℕ → ℕ
latest_of none = 0
latest_of (some n) = n

abbrev pub trx_target_of : RuntimeInput → ℕ
trx_target_of i = latest_of i.latest_block - i.required_confs

abbrev pub trc20_target_of : RuntimeInput → ℕ
trc20_target_of i = trx_target_of i - i.trc20_event_confs

abbrev pub lags_or_none : Option (List ContractLag) → List ContractLag
lags_or_none none = []
lags_or_none (some lags) = lags

module _ (before : String → String → Bool) (fails : String → Bool)
    (rows : List WatchedContract) where
  abbrev pub snapshot_with : RuntimeInput → Option (String → ℕ) → RuntimeSnapshot
  snapshot_with i none = record {
    current_block = latest_of i.latest_block;
    trx_target_block = trx_target_of i;
    trc20_target_block = trc20_target_of i;
    trx_cursor = 0;
    trx_blocks_behind = 0;
    contract_lags = [];
  }
  snapshot_with i (some cursors) = record {
    current_block = latest_of i.latest_block;
    trx_target_block = trx_target_of i;
    trc20_target_block = trc20_target_of i;
    trx_cursor = cursors "TRX";
    trx_blocks_behind = blocks_behind (trx_target_of i) (cursors "TRX");
    contract_lags =
        lags_or_none
          (contract_lags before cursors (trc20_target_of i) fails (length rows + 1) "" rows);
  }

  -- buildRuntimeSnapshot, with more fuel than there are rows
  unfoldable pub build_runtime_snapshot : RuntimeInput → RuntimeSnapshot
  build_runtime_snapshot i = snapshot_with i i.cursors
