-- ===== src/Retry/Examples.antt =====
-- Witnesses for the retry schedule (internal/webhookspec/retry.go).
use tronvent.Base.{ℕ, zero, suc, ◌+◌, ◌/◌, ◌≤◌, max, String, Option, none, some, arith}
use tronvent.Retry.{next_attempt_time}
use tronvent.Retry.Bounds.{asked, offset_after, next_attempt_time_bounds}

-- The largest jitter.
abbrev most : ℕ → ℕ
most zero = 0
most (suc n) = n

abbrev no_date : String → Option ℕ
no_date s = none

next_attempt_time_bounds_example :
    let base = 7 + offset_after 2 in
    let next = next_attempt_time most no_date 100 7 2 (some "600") in
    (max base (asked most no_date 100 (some "600")) ≤ next)
    × (next ≤ max (base + offset_after 2 / 10) (asked most no_date 100 (some "600")))
next_attempt_time_bounds_example =
    next_attempt_time_bounds most no_date (λ n. omega arith) 100 7 2 (some "600")
