-- ===== src/Confirm.antt =====
-- internal/scanner/address_confirm.go: whether an address of a block is on the watchlist, asked of
-- the database and kept for a batch. Parameters: the answers of the database, by the number of
-- queries made before, and whether the context ends while the code sleeps between two of them.
pub mod FailOpen
pub mod Examples
use tronvent.Base.{
  ℕ, zero, suc, ◌+◌, String, Bool, true, false, not, ◌&&◌, ◌||◌, Option, none, some, List, [], ◌∷◌,
  ◌++◌, str_eq, any, ◌==◌, if◌then◌else◌,
}

abbrev pub address_confirm_max_attempts : ℕ
address_confirm_max_attempts = 3

-- What a query returned; `cancelled` is context.Canceled or context.DeadlineExceeded.
pub data Answer {ℓ} (A : Type ℓ) : Type ℓ where
  answered : A → Answer A
  failed cancelled : Answer A

pub record Database : Type 0 where
  pub is_watched_address_active : ℕ → String → Answer Bool
  pub active_watched_addresses : ℕ → List String → Answer (String → Bool)
  pub sleep_cancelled : ℕ → Bool

-- The cache, and the number of queries made.
pub record AddressConfirm : Type 0 where
  pub cache : String → Option Bool
  pub queries : ℕ

abbrev pub new_address_confirm : ℕ → AddressConfirm
new_address_confirm queries = record { cache = λ a. none; queries = queries }

abbrev pub remember : String → Bool → AddressConfirm → AddressConfirm
remember address active c = record c {
  cache = λ a. if str_eq address a then some active else c.cache a;
}

-- What the loop does with an answer: `left` attempts are left after it, `rest` is their result.
abbrev pub after_answer {ℓ} : {A : Type ℓ} → Answer A → ℕ → Bool → ℕ → ℕ × Answer A → ℕ × Answer A
after_answer (answered a) n slept left rest = (suc n, answered a)
after_answer cancelled n slept left rest = (suc n, cancelled)
after_answer failed n slept left rest =
    if left == 0 then (suc n, failed) else if slept then (suc n, cancelled) else rest

-- The retry loop of loadActiveWithRetry and confirmOneWithRetry, with the attempts that are left:
-- the number of queries made after it, and its result.
unfoldable pub with_retry {ℓ} : {A : Type ℓ} → (ℕ → Answer A) → (ℕ → Bool) → ℕ → ℕ → ℕ × Answer A
with_retry ask slept zero n = (n, failed)
with_retry ask slept (suc left) n =
    after_answer (ask n) n (slept n) left (with_retry ask slept left (suc n))

-- On any error the address counts as active.
abbrev pub or_active : Answer Bool → Bool
or_active (answered active) = active
or_active failed = true
or_active cancelled = true

unfoldable pub unique_strings_not_cached :
    List String → (String → Option Bool) → List String → List String
unique_strings_not_cached seen cache [] = []
unique_strings_not_cached seen cache (a ∷ rest) =
    let skipped = unique_strings_not_cached seen cache rest in
    let taken = unique_strings_not_cached (a ∷ seen) cache rest in
    if str_eq a "" then skipped else elim (cache a) [
      | some b ↦ skipped
      | none ↦ if any (λ s. str_eq s a) seen then skipped else a ∷ taken
    ]

abbrev pub remember_all : (String → Bool) → List String → AddressConfirm → AddressConfirm
remember_all active [] c = c
remember_all active (a ∷ rest) c = remember_all active rest (remember a (active a) c)

module _ (db : Database) where
  abbrev pub confirm_one_with_retry : String → ℕ → ℕ × Answer Bool
  confirm_one_with_retry address =
      with_retry (λ n. db.is_watched_address_active n address) db.sleep_cancelled
        address_confirm_max_attempts

  abbrev pub load_active_with_retry : List String → ℕ → ℕ × Answer (String → Bool)
  load_active_with_retry addresses =
      with_retry (λ n. db.active_watched_addresses n addresses) db.sleep_cancelled
        address_confirm_max_attempts

  abbrev ask_and_remember : String → AddressConfirm → Option Bool → AddressConfirm
  ask_and_remember address c (some active) = c
  ask_and_remember address c none =
      let (n, answer) = confirm_one_with_retry address c.queries in
      remember address (or_active answer) (record c { queries = n })

  unfoldable pub populate_cache : String → AddressConfirm → AddressConfirm
  populate_cache address c =
      if str_eq address "" then c else ask_and_remember address c (c.cache address)

  abbrev pub populate_all : List String → AddressConfirm → AddressConfirm
  populate_all [] c = c
  populate_all (a ∷ rest) c = populate_all rest (populate_cache a c)

  abbrev pub fill : List String → AddressConfirm → Answer (String → Bool) → AddressConfirm
  fill need c (answered active) = remember_all active need c
  fill need c cancelled = remember_all (λ a. true) need c
  fill need c failed = populate_all need c

  abbrev fetch : List String → AddressConfirm → AddressConfirm
  fetch [] c = c
  fetch (a ∷ rest) c =
      let (n, answer) = load_active_with_retry (a ∷ rest) c.queries in
      fill (a ∷ rest) (record c { queries = n }) answer

  unfoldable pub prefetch : List String → AddressConfirm → AddressConfirm
  prefetch addresses c = fetch (unique_strings_not_cached [] c.cache addresses) c

  abbrev or_false : Option Bool → Bool
  or_false none = false
  or_false (some active) = active

  abbrev cached_or_asked : String → AddressConfirm → Option Bool → AddressConfirm × Bool
  cached_or_asked address c (some active) = (c, active)
  cached_or_asked address c none =
      let c' = populate_cache address c in (c', or_false (c'.cache address))

  unfoldable pub is_active : String → AddressConfirm → AddressConfirm × Bool
  is_active address c = cached_or_asked address c (c.cache address)
