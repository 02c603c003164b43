-- ===== src/Keys/Request.antt =====
-- internal/scanner/poller.go (tronGridDo) and trongrid_keys.go (nextAvailable, retryAfterDuration): one
-- request to TronGrid, tried again with another key after a 429. Parameters: what other requests do to the
-- pool in between, the times, TronGrid's replies, and the reader of HTTP dates (http.ParseTime). The
-- semaphore, which limits how many requests run at a time, is left out.
pub mod Cooled
pub mod Limits
pub mod Examples
use tronvent.Base.{
  ℕ, zero, suc, ◌+◌, ◌-◌, ◌*◌, ◌%◌, ◌^◌, String, Bool, true, false, not, ◌||◌, ◌&&◌, Option, none,
  some, List, [], ◌∷◌, ltb, leb, ◌==◌, str_eq, trim_space, if◌then◌else◌,
}
use tronvent.Retry.Header.{parse_int}
use tronvent.Keys.{
  TronGridApiKeyPool, Pass, no_keys, picked, wait_until, pass, cooldown, PoolCall, apply_calls,
}

-- time.Duration(seconds) * time.Second, an int64 that wraps around; one that is not positive counts as 0.
abbrev seconds_of : ℕ → ℕ
seconds_of secs =
    let wrapped = (secs * 1_000_000_000) % 2 ^ 64 in if ltb wrapped (2 ^ 63) then wrapped else 0

abbrev until_date : ℕ → Option ℕ → ℕ
until_date now none = 0
until_date now (some at) = at - now

abbrev duration_of : ℕ → Option ℕ → Option ℕ → ℕ
duration_of now (some secs) date = seconds_of secs
duration_of now none date = until_date now date

-- retryAfterDuration
unfoldable pub retry_after_duration : (String → Option ℕ) → String → ℕ → ℕ
retry_after_duration parse_date value now =
    let text = trim_space value in
    if str_eq text "" then 0 else duration_of now (parse_int text) (parse_date text)

-- One round of nextAvailable: what others did to the pool before it, and its time.
pub record Round : Type 0 where
  pub others : List (ℕ × PoolCall)
  pub at : ℕ

-- The key's index (`none` where the pool has no keys) and its text, and when it was taken.
pub data Taken : Type 0 where
  took : Option ℕ → String → ℕ → Taken
  cancelled : Taken

abbrev pub after_round :
    ℕ
    → TronGridApiKeyPool × Pass
    → (TronGridApiKeyPool → TronGridApiKeyPool × Taken)
    → TronGridApiKeyPool × Taken
after_round at (p, no_keys) again = (p, took none "" at)
after_round at (p, picked index value) again = (p, took (some index) value at)
after_round at (p, wait_until e) again = again p

-- nextAvailable; after the last round its context ends.
unfoldable pub next_available : List Round → TronGridApiKeyPool → TronGridApiKeyPool × Taken
next_available [] p = (p, cancelled)
next_available (r ∷ rs) p =
    after_round r.at (pass r.at (apply_calls r.others p)) (λ q. next_available rs q)

-- Do and the body: whether it can be read, and decoded.
pub data Reply : Type 0 where
  no_reply : Reply
  reply : ℕ → String → Bool → Bool → Reply

-- What an attempt meets.
pub record Turn : Type 0 where
  -- whether the wait before it ends, rather than the context
  pub waited : Bool
  pub rounds : List Round
  -- whether the request can be built
  pub built : Bool
  pub replied : Reply
  pub others : List (ℕ × PoolCall)
  pub replied_at : ℕ

-- A request that was sent: its key, when the key was taken, and until when a 429 cools it.
pub record Use : Type 0 where
  pub key : Option ℕ
  pub taken_at : ℕ
  pub cooled_until : Option ℕ

pub data Outcome : Type 0 where
  received context_ended refused_request rate_limited : Outcome

-- The pool after the call, the requests that it sent, the first one first, and how it ended.
pub record Done : Type 0 where
  pub pool : TronGridApiKeyPool
  pub uses : List Use
  pub outcome : Outcome

abbrev pub max_retries : ℕ
max_retries = 4

-- 500 * time.Millisecond
abbrev pub first_backoff : ℕ
first_backoff = 500_000_000

abbrev sent : Use → Done → Done
sent u d = record d { uses = u ∷ d.uses }

abbrev ended : TronGridApiKeyPool → Outcome → Done
ended p o = record { pool = p; uses = []; outcome = o }

module _ (parse_date : String → Option ℕ) (turns : ℕ → Turn) where
  -- if retryAfter <= 0 { retryAfter = backoff }
  abbrev pub cooldown_time : ℕ → String → ℕ → ℕ
  cooldown_time now header backoff =
      let d = retry_after_duration parse_date header now in if d == 0 then backoff else d

  abbrev pub after_429 :
      ℕ → Turn → Option ℕ → ℕ → TronGridApiKeyPool → (TronGridApiKeyPool → Done) → Done
  after_429 time t key at p again =
      sent (record { key = key; taken_at = at; cooled_until = some (t.replied_at + time) })
        (again (cooldown t.replied_at key time (apply_calls t.others p)))

  abbrev once : Option ℕ → ℕ → TronGridApiKeyPool → Outcome → Done
  once key at p o = sent (record { key = key; taken_at = at; cooled_until = none }) (ended p o)

  abbrev on_reply :
      Turn → ℕ → Option ℕ → ℕ → TronGridApiKeyPool → (TronGridApiKeyPool → Done) → Reply → Done
  on_reply t backoff key at p again no_reply = once key at p refused_request
  on_reply t backoff key at p again (reply status header readable decodes) =
      if status == 429
      then after_429 (cooldown_time t.replied_at header backoff) t key at p again
      else if not (status == 200) || not readable || not decodes
      then once key at p refused_request
      else once key at p received

  abbrev with_key : Turn → ℕ → (TronGridApiKeyPool → Done) → TronGridApiKeyPool × Taken → Done
  with_key t backoff again (p, cancelled) = ended p context_ended
  with_key t backoff again (p, took key value at) =
      if not t.built then ended p refused_request else on_reply t backoff key at p again t.replied

  -- The loop over the attempts, `left` of which remain; `backoff` is the one before the wait.
  unfoldable pub attempts_from : ℕ → ℕ → ℕ → TronGridApiKeyPool → Done
  attempts_from zero attempt backoff p = ended p rate_limited
  attempts_from (suc left) attempt backoff p =
      let t = turns attempt in
      let backoff' = if attempt == 0 then backoff else backoff * 2 in
      let going =
        with_key t backoff' (λ q. attempts_from left (attempt + 1) backoff' q)
          (next_available t.rounds p) in
      if not (attempt == 0) && not t.waited then ended p context_ended else going

  -- tronGridDo
  unfoldable pub tron_grid_do : TronGridApiKeyPool → Done
  tron_grid_do p = attempts_from max_retries 0 first_backoff p
