-- ===== src/Retry.antt =====
-- internal/webhookspec/retry.go: when a failed delivery is tried again, and what a response means.
-- A time is a number of nanoseconds since 1970, and 0 stands for the zero time. Parameters: the
-- random jitter (rand.Int63n), and the reader of HTTP dates (http.ParseTime).
pub mod Header
pub mod Bounds
pub mod Examples
use tronvent.Base.{
  ℕ, zero, suc, ◌+◌, ◌-◌, ◌*◌, ◌/◌, ◌%◌, ◌^◌, String, Bool, true, false, not, ◌&&◌, ◌||◌, Option,
  none, some, List, [], ◌∷◌, ltb, leb, ◌==◌, str_eq, length, trim_space, if◌then◌else◌,
}
use tronvent.Retry.Header.{parse_int}

abbrev pub spec_delivery_attempts : ℕ
spec_delivery_attempts = 10

abbrev pub second : ℕ
second = 1_000_000_000

-- The times since the first attempt, by the number of attempts made.
abbrev pub retry_offsets_from_start : List ℕ
retry_offsets_from_start =
    0
    ∷ 5 * second
    ∷ 305 * second
    ∷ 2105 * second
    ∷ 9305 * second
    ∷ 27305 * second
    ∷ 63305 * second
    ∷ 113705 * second
    ∷ 185705 * second
    ∷ 272105 * second
    ∷ []

-- A slice's element; the callers keep the index in range.
abbrev pub at : List ℕ → ℕ → ℕ
at [] n = 0
at (x ∷ xs) zero = x
at (x ∷ xs) (suc n) = at xs n

-- The two bounds that NextAttemptTime puts on the index.
unfoldable pub offset_index : ℕ → ℕ
offset_index completed_attempt =
    let attempt = if ltb completed_attempt 1 then 1 else completed_attempt in
    if leb (length retry_offsets_from_start) attempt
    then length retry_offsets_from_start - 1
    else attempt

-- time.Duration(secs) * time.Second, an int64 that wraps around, added to a time. A time before
-- 1970 counts as 0.
unfoldable pub add_seconds : ℕ → ℕ → ℕ
add_seconds now secs =
    let wrapped = (secs * second) % 2 ^ 64 in
    if ltb wrapped (2 ^ 63) then now + wrapped else now - (2 ^ 64 - wrapped)

pub data DeliveryOutcome : Type 0 where
  success retry fail gone : DeliveryOutcome

-- `failed` says whether there was an error (err != nil).
unfoldable pub classify_delivery : ℕ → Bool → DeliveryOutcome
classify_delivery status_code failed =
    if failed
    then retry
    else if leb 200 status_code && ltb status_code 300
    then success
    else if status_code == 410
    then gone
    else if status_code == 429
    then retry
    else if status_code == 502 || status_code == 504
    then retry
    else if leb 500 status_code
    then retry
    else if leb 300 status_code && ltb status_code 400
    then fail
    else fail

module _ (int63n : ℕ → ℕ) (parse_time : String → Option ℕ) where
  unfoldable pub add_jitter : ℕ → ℕ → ℕ
  add_jitter scheduled offset =
      let max_jitter = offset / 10 in
      if offset == 0
      then scheduled
      else if max_jitter == 0
      then scheduled
      else scheduled + int63n (max_jitter + 1)

  abbrev date_or_zero : Option ℕ → ℕ
  date_or_zero none = 0
  date_or_zero (some t) = t

  abbrev seconds_or_date : ℕ → String → Option ℕ → ℕ
  seconds_or_date now raw (some secs) = add_seconds now secs
  seconds_or_date now raw none = date_or_zero (parse_time raw)

  -- On the value of the header Retry-After, "" where it is missing.
  unfoldable pub parse_retry_after : ℕ → String → ℕ
  parse_retry_after now header =
      if str_eq (trim_space header) ""
      then 0
      else seconds_or_date now (trim_space header) (parse_int (trim_space header))

  abbrev later_of : ℕ → Option String → ℕ → ℕ
  later_of base none now = base
  later_of base (some header) now =
      if ltb base (parse_retry_after now header) then parse_retry_after now header else base

  -- `resp` is the response's Retry-After header, where there was a response.
  unfoldable pub next_attempt_time : ℕ → ℕ → ℕ → Option String → ℕ
  unfolding add_jitter
  next_attempt_time now first_attempt_at completed_attempt resp =
      let offset = at retry_offsets_from_start (offset_index completed_attempt) in
      later_of (add_jitter (first_attempt_at + offset) offset) resp now
