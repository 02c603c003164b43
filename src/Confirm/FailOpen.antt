-- ===== src/Confirm/FailOpen.antt =====
-- No watched address is missed (internal/scanner/address_confirm.go).
use tronvent.Base.{
  ℕ, zero, suc, String, Bool, true, false, none, some, List, [], ◌∷◌, ◌≡◌, ◌≢◌, refl, ◌∙◌, inl, inr,
  arith, str_eq, eq_iff, ◌==◌, Bool-cases, Option-cases,
}
use tronvent.Confirm.{
  Answer, answered, failed, cancelled, Database, AddressConfirm, new_address_confirm, remember,
  after_answer, with_retry, or_active, unique_strings_not_cached, remember_all,
  confirm_one_with_retry, load_active_with_retry, populate_cache, populate_all, fill, fetch,
  prefetch, is_active, address_confirm_max_attempts,
}

-- The answer, if there is one, has the property.
abbrev pub OnAnswer {ℓ κ} : {A : Type ℓ} → (A → Type κ) → Answer A → Type κ
OnAnswer P (answered a) = P a
OnAnswer P failed = Unit
OnAnswer P cancelled = Unit

-- What the database answers is the watchlist.
pub record Truthful (db : Database) (watched : String → Bool) : Type 0 where
  pub one : (n : ℕ) (a : String) → OnAnswer (λ b. b ≡ watched a) (db.is_watched_address_active n a)
  pub many :
      (n : ℕ) (names : List String)
      → OnAnswer (λ m. (a : String) → m a ≡ watched a) (db.active_watched_addresses n names)

after_answer-OnAnswer {ℓ κ} :
    {A : Type ℓ} (P : A → Type κ) (r : Answer A) (n left : ℕ) (slept : Bool) (rest : ℕ × Answer A)
    → OnAnswer P r
    → OnAnswer P rest.1
    → OnAnswer P (after_answer r n slept left rest).1
after_answer-OnAnswer P (answered a) n left slept rest h k = h
after_answer-OnAnswer P cancelled n left slept rest h k = tt
after_answer-OnAnswer P failed n left slept rest h k = elim (Bool-cases (left == 0)) [
  | inl z ↦ rw z tt
  | inr z ↦ rw z (elim (Bool-cases slept) [ inl f ↦ rw f tt | inr f ↦ rw f k ])
]

with_retry-OnAnswer {ℓ κ} :
    {A : Type ℓ} (P : A → Type κ) (ask : ℕ → Answer A) (slept : ℕ → Bool) (left n : ℕ)
    → ((k : ℕ) → OnAnswer P (ask k))
    → OnAnswer P (with_retry ask slept left n).1
unfolding with_retry
with_retry-OnAnswer P ask slept zero n h = tt
with_retry-OnAnswer P ask slept (suc left) n h =
    after_answer-OnAnswer P (ask n) n left (slept n) (with_retry ask slept left (suc n)) (h n)
      (with_retry-OnAnswer P ask slept left (suc n) h)

-- The cache calls no watched address inactive.
pub KeepsWatched : (String → Bool) → AddressConfirm → Type 0
KeepsWatched watched c = (a : String) → watched a ≡ true → c.cache a ≢ some false

pub new_address_confirm-KeepsWatched :
    (watched : String → Bool) (n : ℕ) → KeepsWatched watched (new_address_confirm n)
unfolding KeepsWatched
new_address_confirm-KeepsWatched watched n a w = ground arith

module _ (db : Database) (watched : String → Bool) (true_answers : Truthful db watched) where
  queries-KeepsWatched :
      (n : ℕ) (c : AddressConfirm)
      → KeepsWatched watched c
      → KeepsWatched watched (record c { queries = n })
  unfolding KeepsWatched
  queries-KeepsWatched n c k = k

  remember-KeepsWatched :
      (a : String) (b : Bool) (c : AddressConfirm)
      → (watched a ≡ true → b ≡ true)
      → KeepsWatched watched c
      → KeepsWatched watched (remember a b c)
  unfolding KeepsWatched
  remember-KeepsWatched a b c h k x w = ground (arith, eq_iff a x, h, k x w, w)

  remember_all-KeepsWatched :
      (m : String → Bool) (names : List String) (c : AddressConfirm)
      → ((a : String) → watched a ≡ true → m a ≡ true)
      → KeepsWatched watched c
      → KeepsWatched watched (remember_all m names c)
  remember_all-KeepsWatched m [] c h k = k
  remember_all-KeepsWatched m (a ∷ names) c h k =
      remember_all-KeepsWatched m names (remember a (m a) c) h
        (remember-KeepsWatched a (m a) c (h a) k)

  confirmed :
      (a : String) (n : ℕ) → watched a ≡ true → or_active (confirm_one_with_retry db a n).1 ≡ true
  confirmed a n w = go (confirm_one_with_retry db a n).1 (
      with_retry-OnAnswer (λ b. b ≡ watched a) (λ k. db.is_watched_address_active k a)
        db.sleep_cancelled address_confirm_max_attempts n (λ k. true_answers.one k a))
    where
      go : (r : Answer Bool) → OnAnswer (λ b. b ≡ watched a) r → or_active r ≡ true
      go (answered b) h = h ∙ w
      go failed h = refl
      go cancelled h = refl

  populate_cache-KeepsWatched :
      (a : String) (c : AddressConfirm)
      → KeepsWatched watched c
      → KeepsWatched watched (populate_cache db a c)
  unfolding populate_cache
  populate_cache-KeepsWatched a c k = elim (Bool-cases (str_eq a "")) [
    | inl e ↦ rw e k
    | inr e ↦ rw e (elim (Option-cases (c.cache a)) [
      | inr (b, f) ↦ rw f k
      | inl f ↦
          rw f (remember-KeepsWatched a _ _ (confirmed a c.queries) (queries-KeepsWatched _ c k))
    ])
  ]

  populate_all-KeepsWatched :
      (names : List String) (c : AddressConfirm)
      → KeepsWatched watched c
      → KeepsWatched watched (populate_all db names c)
  populate_all-KeepsWatched [] c k = k
  populate_all-KeepsWatched (a ∷ names) c k =
      populate_all-KeepsWatched names (populate_cache db a c) (populate_cache-KeepsWatched a c k)

  fill-KeepsWatched :
      (need : List String) (c : AddressConfirm) (r : Answer (String → Bool))
      → OnAnswer (λ m. (a : String) → m a ≡ watched a) r
      → KeepsWatched watched c
      → KeepsWatched watched (fill db need c r)
  fill-KeepsWatched need c (answered m) h k = remember_all-KeepsWatched m need c (λ a w. h a ∙ w) k
  fill-KeepsWatched need c cancelled h k =
      remember_all-KeepsWatched (λ a. true) need c (λ a w. refl) k
  fill-KeepsWatched need c failed h k = populate_all-KeepsWatched need c k

  fetch-KeepsWatched :
      (need : List String) (c : AddressConfirm)
      → KeepsWatched watched c
      → KeepsWatched watched (fetch db need c)
  fetch-KeepsWatched [] c k = k
  fetch-KeepsWatched (a ∷ rest) c k =
      fill-KeepsWatched (a ∷ rest)
        (record c { queries = (load_active_with_retry db (a ∷ rest) c.queries).0 }) _
        (with_retry-OnAnswer (λ m. (x : String) → m x ≡ watched x)
          (λ n. db.active_watched_addresses n (a ∷ rest)) db.sleep_cancelled
          address_confirm_max_attempts c.queries (λ n. true_answers.many n (a ∷ rest)))
        (queries-KeepsWatched _ c k)

  pub prefetch-KeepsWatched :
      (names : List String) (c : AddressConfirm)
      → KeepsWatched watched c
      → KeepsWatched watched (prefetch db names c)
  unfolding prefetch
  prefetch-KeepsWatched names c k =
      fetch-KeepsWatched (unique_strings_not_cached [] c.cache names) c k

  pub is_active-KeepsWatched :
      (a : String) (c : AddressConfirm)
      → KeepsWatched watched c
      → KeepsWatched watched (is_active db a c).0
  unfolding is_active
  is_active-KeepsWatched a c k = elim (Option-cases (c.cache a)) [
    | inr (b, f) ↦ rw f k
    | inl f ↦ rw f (populate_cache-KeepsWatched a c k)
  ]

  populate_cache_some :
      (a : String) (c : AddressConfirm) → a ≢ "" → (populate_cache db a c).cache a ≢ none
  unfolding populate_cache
  populate_cache_some a c h = ground (arith, eq_iff a "", eq_iff a a, Option-cases (c.cache a))

  -- Confirmation fails open. Where the answers of the database are the watchlist and the cache calls
  -- no watched address inactive, IsActive says that a watched address is active, however many of
  -- the queries fail or are cancelled. The address is not the empty text.
  pub is_active-watched :
      (a : String) (c : AddressConfirm)
      → a ≢ ""
      → KeepsWatched watched c
      → watched a ≡ true
      → (is_active db a c).1 ≡ true
  unfolding is_active KeepsWatched
  is_active-watched a c h k w = elim (Option-cases (c.cache a)) [
    | inr (b, f) ↦ rw f (ground (arith, f, k a w))
    | inl f ↦
        rw f (ground (arith, populate_cache-KeepsWatched a c k a w, populate_cache_some a c h))
  ]
