-- ===== src/Retry/Bounds.antt =====
-- The schedule of internal/webhookspec/retry.go: how early and how late the next attempt is.
use tronvent.Base.{
  ℕ, zero, suc, ◌+◌, ◌/◌, ◌≤◌, ◌<◌, max, String, Option, none, some, ◌≡◌, arith, Bool-cases, false,
  inl, inr, ltb, ltb→lt,
}
use tronvent.Retry.{
  retry_offsets_from_start, at, offset_index, next_attempt_time, parse_retry_after, add_jitter,
}

-- What the response asks for: no time where there is no response.
abbrev pub asked : (ℕ → ℕ) → (String → Option ℕ) → ℕ → Option String → ℕ
asked int63n parse_time now none = 0
asked int63n parse_time now (some header) = parse_retry_after int63n parse_time now header

abbrev pub offset_after : ℕ → ℕ
offset_after completed = at retry_offsets_from_start (offset_index completed)

module _ (int63n : ℕ → ℕ) (parse_time : String → Option ℕ)
    (drawn : (n : ℕ) → int63n (suc n) ≤ n) where
  add_jitter_bounds :
      (scheduled offset : ℕ)
      → (scheduled ≤ add_jitter int63n parse_time scheduled offset)
        × (add_jitter int63n parse_time scheduled offset ≤ scheduled + offset / 10)
  unfolding add_jitter
  add_jitter_bounds scheduled offset = ground (arith, drawn (offset / 10))

  -- The next attempt is at the later of two times: the one that the response asks for, and one
  -- between the schedule's offset from the first attempt and a tenth of that offset more.
  pub next_attempt_time_bounds :
      (now first completed : ℕ) (resp : Option String)
      → let base = first + offset_after completed in
        let next = next_attempt_time int63n parse_time now first completed resp in
        (max base (asked int63n parse_time now resp) ≤ next)
        × (next ≤ max (base + offset_after completed / 10) (asked int63n parse_time now resp))
  unfolding next_attempt_time
  next_attempt_time_bounds now first completed none =
      ground (arith, add_jitter_bounds (first + offset_after completed) (offset_after completed))
  next_attempt_time_bounds now first completed (some header) =
      ground (arith, add_jitter_bounds (first + offset_after completed) (offset_after completed))

is_last : (n m : ℕ) → n < suc m → ltb n m ≡ false → n ≡ m
is_last n m b l = ground arith

offset_step : (n : ℕ) → 1 ≤ n → n ≤ 8 → offset_after n + offset_after n / 10 < offset_after (suc n)
unfolding offset_index
offset_step zero a b = omega arith
offset_step (suc zero) a b = omega arith
offset_step (suc (suc zero)) a b = omega arith
offset_step (suc (suc (suc zero))) a b = omega arith
offset_step (suc (suc (suc (suc zero)))) a b = omega arith
offset_step (suc (suc (suc (suc (suc zero))))) a b = omega arith
offset_step (suc (suc (suc (suc (suc (suc zero)))))) a b = omega arith
offset_step (suc (suc (suc (suc (suc (suc (suc zero))))))) a b = omega arith
offset_step (suc (suc (suc (suc (suc (suc (suc (suc zero)))))))) a b = omega arith
offset_step (suc (suc (suc (suc (suc (suc (suc (suc (suc n))))))))) a b = omega arith

offsets_apart :
    (n m : ℕ) → 1 ≤ n → n < m → m ≤ 9 → offset_after n + offset_after n / 10 < offset_after m
offsets_apart n zero a b c = omega arith
offsets_apart n (suc m) a b c = elim (Bool-cases (ltb n m)) [
  | inl l ↦ omega (
    arith,
    offsets_apart n m a (ltb→lt n m l) (omega arith),
    offset_step m (omega (arith, ltb→lt n m l)) (omega arith),
  )
  | inr l ↦ rw (is_last n m b l) (offset_step m (ground (arith, is_last n m b l)) (omega arith))
]

module _ (int63n : ℕ → ℕ) (parse_time : String → Option ℕ)
    (drawn : (n : ℕ) → int63n (suc n) ≤ n) where
  -- The jitter never swaps two attempts: where no response asks for a time, an earlier attempt of
  -- the schedule leaves the next one earlier than a later attempt does.
  pub next_attempt_time_monotone :
      (now later first n m : ℕ)
      → 1 ≤ n
      → n < m
      → m ≤ 9
      → next_attempt_time int63n parse_time now first n none
        < next_attempt_time int63n parse_time later first m none
  next_attempt_time_monotone now later first n m a b c = omega (
    arith,
    next_attempt_time_bounds int63n parse_time drawn now first n none,
    next_attempt_time_bounds int63n parse_time drawn later first m none,
    offsets_apart n m a b c,
  )
