-- ===== src/Keys/Ready.antt =====
-- Which key a request gets, and how long it waits (internal/scanner/trongrid_keys.go).
use tronvent.Base.{
  ℕ, zero, suc, ◌+◌, ◌%◌, ◌≤◌, ◌<◌, Bool, true, false, none, some, List, [], ◌∷◌, ◌≡◌, ◌≢◌, ◌⊎◌,
  inl, inr, refl, Bool-cases, Option-cases, arith, ltb, ltb→lt, ◌∙◌, ◌==◌, length,
}
use tronvent.Keys.{
  TronGridApiKey, TronGridApiKeyPool, Pass, no_keys, picked, wait_until, get_elem?, sooner,
  index_at, pass_from, pass,
}

abbrev pub gives_key : Pass → Bool
gives_key no_keys = false
gives_key (picked index value) = true
gives_key (wait_until e) = false

abbrev LaterReady : ℕ → TronGridApiKeyPool → ℕ → ℕ → Type 0
LaterReady later p count offset =
    (earliest : ℕ) → gives_key (pass_from later p count offset earliest).1 ≡ true

try_key-ready :
    (later : ℕ) (p : TronGridApiKeyPool) (count offset : ℕ) (k : TronGridApiKey)
    → get_elem? p.keys (index_at p offset) ≡ some k
    → (k.cooldown_until ≤ later) ⊎ LaterReady later p count (offset + 1)
    → LaterReady later p (suc count) offset
unfolding pass_from
try_key-ready later p count offset k e (inl l) earliest = rw e (ground (arith, l))
try_key-ready later p count offset k e (inr r) earliest =
    rw e (ground (arith, r (sooner earliest k.cooldown_until)))

sooner_cases :
    (earliest until : ℕ) → (sooner earliest until ≡ earliest) ⊎ (sooner earliest until ≡ until)
sooner_cases earliest until = ground arith

after_key :
    (later : ℕ) (p : TronGridApiKeyPool) (count offset earliest e : ℕ) (k : TronGridApiKey)
    → get_elem? p.keys (index_at p offset) ≡ some k
    → e ≤ later
    → (e ≡ sooner earliest k.cooldown_until) ⊎ LaterReady later p count (offset + 1)
    → (e ≡ earliest) ⊎ LaterReady later p (suc count) offset
after_key later p count offset earliest e k f l (inr r) =
    inr (try_key-ready later p count offset k f (inr r))
after_key later p count offset earliest e k f l (inl q) =
    elim (sooner_cases earliest k.cooldown_until) [
      | inl s ↦ inl (q ∙ s)
      | inr s ↦ inr (try_key-ready later p count offset k f (inl (omega (arith, q, s, l))))
    ]

-- A pass that waits has passed over a key, and gone on.
passed_over :
    (now : ℕ) (p : TronGridApiKeyPool) (count offset earliest e : ℕ) (k : TronGridApiKey)
    → get_elem? p.keys (index_at p offset) ≡ some k
    → (pass_from now p (suc count) offset earliest).1 ≡ wait_until e
    → (now < k.cooldown_until)
      × ((pass_from now p count (offset + 1) (sooner earliest k.cooldown_until)).1 ≡ wait_until e)
unfolding pass_from
passed_over now p count offset earliest e k f h = elim (Bool-cases (ltb now k.cooldown_until)) [
  | inl b ↦ (ltb→lt _ _ b, ground (arith, f, b, h))
  | inr b ↦ absurd (ground (arith, f, b, h))
]

pass_from-wait :
    (now later : ℕ) (p : TronGridApiKeyPool) (count offset earliest e : ℕ)
    → (pass_from now p count offset earliest).1 ≡ wait_until e
    → e ≤ later
    → (e ≡ earliest) ⊎ LaterReady later p count offset
unfolding pass_from
pass_from-wait now later p zero offset earliest e h l = inl (ground (arith, h))
pass_from-wait now later p (suc count) offset earliest e h l =
    elim (Option-cases (get_elem? p.keys (index_at p offset))) [
      | inl f ↦ elim (pass_from-wait now later p count (offset + 1) earliest e (rw f at h) l) [
        | inl q ↦ inl q
        | inr r ↦ inr (λ x. rw f (r x))
      ]
      | inr (k, f) ↦ after_key later p count offset earliest e k f l (
          pass_from-wait now later p count (offset + 1) (sooner earliest k.cooldown_until) e
            (passed_over now p count offset earliest e k f h).1 l)
    ]

get_elem?_some : (ks : List TronGridApiKey) (n : ℕ) → n < length ks → get_elem? ks n ≢ none
get_elem?_some [] n l = absurd (omega (arith, l))
get_elem?_some (k ∷ ks) zero l = ground arith
get_elem?_some (k ∷ ks) (suc n) l = get_elem?_some ks n (omega (arith, l))

pass_from-still_waits :
    (now : ℕ) (p : TronGridApiKeyPool) (count offset earliest e : ℕ)
    → now < earliest
    → (pass_from now p count offset earliest).1 ≡ wait_until e
    → now < e
unfolding pass_from
pass_from-still_waits now p zero offset earliest e l h = ground (arith, l, h)
pass_from-still_waits now p (suc count) offset earliest e l h =
    elim (Option-cases (get_elem? p.keys (index_at p offset))) [
      | inl f ↦ pass_from-still_waits now p count (offset + 1) earliest e l (rw f at h)
      | inr (k, f) ↦
          let (b, g) = passed_over now p count offset earliest e k f h in
          pass_from-still_waits now p count (offset + 1) (sooner earliest k.cooldown_until) e
            (ground (arith, l, b)) g
    ]

-- The key that a round gives is ready, and the next round starts behind it.
unfoldable pub Given : ℕ → TronGridApiKeyPool → TronGridApiKeyPool × Pass → Type 0
Given now p (p', no_keys) = p' ≡ p
Given now p (p', wait_until e) = p' ≡ p
Given now p (p', picked index value) =
    (k : TronGridApiKey) × (get_elem? p.keys index ≡ some k)
    × (k.value ≡ value)
    × (k.cooldown_until ≤ now)
    × (p' ≡ record p { next = (index + 1) % length p.keys })

pass_from-Given :
    (now : ℕ) (p : TronGridApiKeyPool) (count offset earliest : ℕ)
    → Given now p (pass_from now p count offset earliest)
unfolding pass_from Given
pass_from-Given now p zero offset earliest = refl
pass_from-Given now p (suc count) offset earliest =
    elim (Option-cases (get_elem? p.keys (index_at p offset))) [
      | inl f ↦ rw f (pass_from-Given now p count (offset + 1) earliest)
      | inr (k, f) ↦ rw f (elim (Bool-cases (ltb now k.cooldown_until)) [
        | inl b ↦ rw b (pass_from-Given now p count (offset + 1) (sooner earliest k.cooldown_until))
        | inr b ↦ rw b (k, f, refl, ground (arith, b), refl)
      ])
    ]

-- A round of nextAvailable gives a key of the pool that does not cool down, and moves the pool on to
-- the index behind it; a round without a key leaves the pool as it was.
pub pass-Given : (now : ℕ) (p : TronGridApiKeyPool) → Given now p (pass now p)
unfolding pass Given
pass-Given now p = elim (Bool-cases (length p.keys == 0)) [
  | inl e ↦ rw e refl
  | inr e ↦ rw e (pass_from-Given now p (length p.keys) 0 0)
]

mod_small : (a n : ℕ) → 0 < n → a % n < n
mod_small a n l = ground (arith, l)

whole_round :
    (now later : ℕ) (p : TronGridApiKeyPool) (n e : ℕ)
    → n ≡ length p.keys
    → 0 < n
    → (pass_from now p n 0 0).1 ≡ wait_until e
    → e ≤ later
    → (now < e) × (gives_key (pass_from later p n 0 0).1 ≡ true)
whole_round now later p zero e q b h l = absurd (omega (arith, b))
whole_round now later p (suc m) e q b h l = elim (Option-cases (get_elem? p.keys (index_at p 0))) [
  | inl f ↦ absurd (
      get_elem?_some p.keys (index_at p 0)
        (mod_small (p.next + 0) (length p.keys) (omega (arith, q, b))) f)
  | inr (k, f) ↦
      let (waits, rest) = passed_over now p m 0 0 e k f h in
      let future =
        pass_from-still_waits now p m 1 (sooner 0 k.cooldown_until) e (ground (arith, waits))
          rest in
      (
        future,
        elim (after_key later p m 0 0 e k f l
            (pass_from-wait now later p m 1 (sooner 0 k.cooldown_until) e rest l)) [
              | inl z ↦ absurd (omega (arith, z, future))
              | inr r ↦ r 0
            ],
      )
]

-- After the wait that a round asks for, which is a time to come, the same pool gives a key.
pub pass-wait_until :
    (now later : ℕ) (p : TronGridApiKeyPool) (e : ℕ)
    → (pass now p).1 ≡ wait_until e
    → e ≤ later
    → (now < e) × (gives_key (pass later p).1 ≡ true)
unfolding pass
pass-wait_until now later p e h l = elim (Bool-cases (length p.keys == 0)) [
  | inl b ↦ absurd (ground (arith, b, h))
  | inr b ↦ rw b (whole_round now later p (length p.keys) e refl (ground (arith, b)) (rw b at h) l)
]
