-- ===== src/Api/Runtime/Examples.antt =====
-- The lags of two contracts (internal/api/runtime.go).
use tronvent.Base.{
  String, Bool, true, false, some, List, [], ◌∷◌, map, keep, ◌≡◌, ◌≢◌, refl, arith, eq_iff, ltb,
}
use Prim.Native.String.{len}
use tronvent.Watched.{WatchedContract}
use tronvent.Api.Runtime.{RuntimeInput, lag_of, trc20_target_of, build_runtime_snapshot}
use tronvent.Api.Runtime.Pages.{StrictOrder, snapshot_lags}

-- Shorter texts come first.
abbrev shorter : String → String → Bool
shorter a b = ltb (len a) (len b)

shorter-StrictOrder : StrictOrder shorter
shorter-StrictOrder = record {
  irreflexive = λ a. ground arith;
  transitive = λ a b c h k. ground (arith, h, k);
}

abbrev contract : String → Bool → WatchedContract
contract key active = record {
  id = "1";
  contract_address = key;
  is_active = active;
  token_symbol = some "USDT";
  source = "api";
  created_at = 0;
  updated_at = 0;
}

abbrev rows : List WatchedContract
rows = contract "T" true ∷ contract "TR" false ∷ contract "TR7" true ∷ []

abbrev input : RuntimeInput
input = record {
  latest_block = some 100;
  required_confs = 20;
  trc20_event_confs = 10;
  cursors = some (λ scope. 65);
}

one_named : ◌≢◌ {A = String} "T" ""
one_named = ground (arith, eq_iff "T" "")

two_named : ◌≢◌ {A = String} "TR7" ""
two_named = ground (arith, eq_iff "TR7" "")

snapshot_lags_example :
    (build_runtime_snapshot shorter (λ q. false) rows input).contract_lags
    ≡ map (lag_of (λ scope. 65) (trc20_target_of input)) (keep (λ r. r.is_active) rows)
snapshot_lags_example =
    snapshot_lags shorter shorter-StrictOrder rows input (λ scope. 65) refl
      ((refl, tt), one_named, (tt, two_named, tt))
