-- ===== src/Keys.antt =====
-- internal/scanner/trongrid_keys.go: the API keys of TronGrid, used in turn, less those that cool down
-- after a refusal. Times are natural numbers, and 0 is the zero time. The pieces of the configured text
-- (strings.Split) are an argument.
pub mod Ready
pub mod Request
pub mod Examples
use tronvent.Base.{
  ℕ, zero, suc, ◌+◌, ◌%◌, String, Bool, true, false, not, ◌||◌, Option, none, some, List, [], ◌∷◌,
  ltb, ◌==◌, str_eq, trim_space, length, any, if◌then◌else◌,
}

pub record TronGridApiKey : Type 0 where
  pub value : String
  pub cooldown_until : ℕ

pub record TronGridApiKeyPool : Type 0 where
  pub keys : List TronGridApiKey
  pub next : ℕ

-- The keys of the pieces that are neither blank nor in `seen`.
unfoldable pub keys_from : List String → List String → List TronGridApiKey
keys_from seen [] = []
keys_from seen (piece ∷ pieces) =
    let value = trim_space piece in
    let without = keys_from seen pieces in
    let with_it = record { value = value; cooldown_until = 0 } ∷ keys_from (value ∷ seen) pieces in
    if str_eq value "" || any (λ s. str_eq s value) seen then without else with_it

abbrev pub new_tron_grid_api_key_pool : List String → TronGridApiKeyPool
new_tron_grid_api_key_pool pieces = record { keys = keys_from [] pieces; next = 0 }

abbrev pub get_elem? : List TronGridApiKey → ℕ → Option TronGridApiKey
get_elem? [] n = none
get_elem? (k ∷ ks) zero = some k
get_elem? (k ∷ ks) (suc n) = get_elem? ks n

-- What one pass over the keys finds: a key with its index, or when the first one is ready again.
pub data Pass : Type 0 where
  no_keys : Pass
  picked : ℕ → String → Pass
  wait_until : ℕ → Pass

-- if earliest.IsZero() || key.cooldownUntil.Before(earliest)
abbrev pub sooner : ℕ → ℕ → ℕ
sooner earliest until = if earliest == 0 || ltb until earliest then until else earliest

abbrev pub index_at : TronGridApiKeyPool → ℕ → ℕ
index_at p offset = (p.next + offset) % length p.keys

abbrev pub try_key :
    ℕ
    → TronGridApiKeyPool
    → ℕ
    → ℕ
    → Option TronGridApiKey
    → (ℕ → TronGridApiKeyPool × Pass)
    → TronGridApiKeyPool × Pass
try_key now p index earliest none rest = rest earliest
try_key now p index earliest (some k) rest =
    if not (ltb now k.cooldown_until)
    then (record p { next = (index + 1) % length p.keys }, picked index k.value)
    else rest (sooner earliest k.cooldown_until)

-- The loop over the offsets, `count` of which are left.
unfoldable pub pass_from : ℕ → TronGridApiKeyPool → ℕ → ℕ → ℕ → TronGridApiKeyPool × Pass
pass_from now p zero offset earliest = (p, wait_until earliest)
pass_from now p (suc count) offset earliest =
    try_key now p (index_at p offset) earliest (get_elem? p.keys (index_at p offset))
      (λ e. pass_from now p count (offset + 1) e)

-- One round of nextAvailable's loop, up to its wait.
unfoldable pub pass : ℕ → TronGridApiKeyPool → TronGridApiKeyPool × Pass
pass now p = if length p.keys == 0 then (p, no_keys) else pass_from now p (length p.keys) 0 0

abbrev set_cooldown : ℕ → ℕ → List TronGridApiKey → List TronGridApiKey
set_cooldown index until [] = []
set_cooldown zero until (k ∷ ks) =
    (if ltb k.cooldown_until until then record k { cooldown_until = until } else k) ∷ ks
set_cooldown (suc index) until (k ∷ ks) = k ∷ set_cooldown index until ks

-- A negative index is `none`; one that is out of range changes nothing.
unfoldable pub cooldown : ℕ → Option ℕ → ℕ → TronGridApiKeyPool → TronGridApiKeyPool
cooldown now none duration p = p
cooldown now (some index) duration p =
    if duration == 0 then p else record p { keys = set_cooldown index (now + duration) p.keys }

-- A call of the pool; the pool is locked for each round of nextAvailable, and free while it waits.
pub data PoolCall : Type 0 where
  take_key : PoolCall
  cool : Option ℕ → ℕ → PoolCall

unfoldable pub apply_call : ℕ → PoolCall → TronGridApiKeyPool → TronGridApiKeyPool
apply_call now take_key p = (pass now p).0
apply_call now (cool index duration) p = cooldown now index duration p

unfoldable pub apply_calls : List (ℕ × PoolCall) → TronGridApiKeyPool → TronGridApiKeyPool
apply_calls [] p = p
apply_calls ((now, c) ∷ cs) p = apply_calls cs (apply_call now c p)
