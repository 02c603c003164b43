-- ===== src/Keys/Examples.antt =====
-- Two keys that cool down (internal/scanner/trongrid_keys.go).
use tronvent.Base.{◌<◌, true, some, [], ◌∷◌, ◌≡◌, refl, arith, trim_space}
use tronvent.Keys.{
  TronGridApiKeyPool, wait_until, picked, new_tron_grid_api_key_pool, keys_from, pass_from, pass,
  cool, take_key, cooldown, apply_call, apply_calls,
}
use tronvent.Keys.Ready.{gives_key, Given, pass-Given, pass-wait_until}

abbrev pool : TronGridApiKeyPool
pool =
    apply_calls ((10, cool (some 0) 90) ∷ (11, take_key) ∷ (12, cool (some 1) 30) ∷ [])
      (new_tron_grid_api_key_pool (" a" ∷ "" ∷ "b" ∷ "a" ∷ []))

both_cool : (pass 20 pool).1 ≡ wait_until 42
unfolding keys_from pass pass_from cooldown apply_call apply_calls trim_space
both_cool = refl

second_ready : (pass 42 pool).1 ≡ picked 1 "b"
unfolding keys_from pass pass_from cooldown apply_call apply_calls trim_space
second_ready = refl

pass-Given_example : Given 42 pool (pass 42 pool)
pass-Given_example = pass-Given 42 pool

pass-wait_until_example : (20 < 42) × (gives_key (pass 42 pool).1 ≡ true)
pass-wait_until_example = pass-wait_until 20 42 pool 42 both_cool (omega arith)
