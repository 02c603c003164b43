-- ===== src/Keys/Request/Examples.antt =====
-- A request whose first key is limited (tronGridDo of internal/scanner/poller.go).
use tronvent.Base.{ℕ, zero, suc, String, true, Option, none, some, [], ◌∷◌, ◌≡◌, refl, trim_space}
use tronvent.Keys.{
  TronGridApiKeyPool, new_tron_grid_api_key_pool, keys_from, pass, pass_from, cooldown, apply_calls,
}
use tronvent.Keys.Request.{
  Turn, Reply, reply, tron_grid_do, attempts_from, next_available, retry_after_duration,
}
use tronvent.Retry.Header.{parse_int}
use tronvent.Keys.Request.Limits.{Limited, tron_grid_do-Limited}

abbrev no_date : String → Option ℕ
no_date s = none

abbrev two_keys : TronGridApiKeyPool
two_keys = new_tron_grid_api_key_pool ("a" ∷ "b" ∷ [])

abbrev turn_at : ℕ → Reply → Turn
turn_at now r = record {
  waited = true;
  rounds = record { others = []; at = now } ∷ [];
  built = true;
  replied = r;
  others = [];
  replied_at = now;
}

-- The first reply is a 429 for two seconds, the second one is good.
abbrev turns : ℕ → Turn
turns zero = turn_at 10 (reply 429 "2" true true)
turns (suc n) = turn_at 500_000_010 (reply 200 "" true true)

second_key :
    (tron_grid_do no_date turns two_keys).uses
    ≡ record { key = some 0; taken_at = 10; cooled_until = some 2_000_000_010 }
      ∷ record { key = some 1; taken_at = 500_000_010; cooled_until = none }
      ∷ []
unfolding tron_grid_do attempts_from next_available retry_after_duration parse_int trim_space
    keys_from pass pass_from cooldown apply_calls
second_key = refl

tron_grid_do-Limited_example : Limited 4 [] (tron_grid_do no_date turns two_keys)
tron_grid_do-Limited_example = tron_grid_do-Limited no_date turns two_keys
