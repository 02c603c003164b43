-- ===== src/Keys/Request/Cooled.antt =====
-- Which keys of the pool cool down until when, over any calls (internal/scanner/trongrid_keys.go).
use tronvent.Base.{
  ℕ, zero, suc, ◌+◌, ◌<◌, Bool, true, Option, none, some, List, [], ◌∷◌, leb, ◌==◌, ◌≡◌, refl, ap,
  arith, Bool-cases, inl, inr,
}
use tronvent.Keys.{
  TronGridApiKey, TronGridApiKeyPool, Pass, no_keys, picked, wait_until, get_elem?, set_cooldown,
  cooldown, pass, PoolCall, take_key, cool, apply_call, apply_calls,
}
use tronvent.Keys.Ready.{Given, pass-Given}

abbrev pub cools_key : ℕ → Option TronGridApiKey → Bool
cools_key until none = true
cools_key until (some k) = leb until k.cooldown_until

-- The key with the index, if there is one, cools down until that time at least.
abbrev pub cools : ℕ → ℕ → List TronGridApiKey → Bool
cools index until keys = cools_key until (get_elem? keys index)

-- The same of each of several keys.
abbrev pub CoolAll : List (ℕ × ℕ) → List TronGridApiKey → Type 0
CoolAll [] keys = Unit
CoolAll ((index, until) ∷ past) keys = (cools index until keys ≡ true) × CoolAll past keys

cools-set_cooldown :
    (i c j u : ℕ) (keys : List TronGridApiKey)
    → cools i c keys ≡ true
    → cools i c (set_cooldown j u keys) ≡ true
cools-set_cooldown i c j u [] h = refl
cools-set_cooldown zero c zero u (k ∷ ks) h = ground (arith, h)
cools-set_cooldown (suc i) c zero u (k ∷ ks) h = h
cools-set_cooldown zero c (suc j) u (k ∷ ks) h = h
cools-set_cooldown (suc i) c (suc j) u (k ∷ ks) h = cools-set_cooldown i c j u ks h

cools-set_same : (j u : ℕ) (keys : List TronGridApiKey) → cools j u (set_cooldown j u keys) ≡ true
cools-set_same j u [] = refl
cools-set_same zero u (k ∷ ks) = ground arith
cools-set_same (suc j) u (k ∷ ks) = cools-set_same j u ks

-- A cooldown shortens none, and does what it says.
cools-cooldown :
    (i c now : ℕ) (index : Option ℕ) (d : ℕ) (p : TronGridApiKeyPool)
    → cools i c p.keys ≡ true
    → cools i c (cooldown now index d p).keys ≡ true
unfolding cooldown
cools-cooldown i c now none d p h = h
cools-cooldown i c now (some j) d p h = elim (Bool-cases (d == 0)) [
  | inl e ↦ rw e h
  | inr e ↦ rw e (cools-set_cooldown i c j (now + d) p.keys h)
]

pub cooldown-cools :
    (now index d : ℕ) (p : TronGridApiKeyPool)
    → 0 < d
    → cools index (now + d) (cooldown now (some index) d p).keys ≡ true
unfolding cooldown
cooldown-cools now index d p h = elim (Bool-cases (d == 0)) [
  | inl e ↦ absurd (ground (arith, e, h))
  | inr e ↦ rw e (cools-set_same index (now + d) p.keys)
]

keys-Given :
    (now : ℕ) (p : TronGridApiKeyPool) (x : TronGridApiKeyPool × Pass)
    → Given now p x
    → x.0.keys ≡ p.keys
unfolding Given
keys-Given now p (q, no_keys) g = ap (λ r. r.keys) g
keys-Given now p (q, wait_until e) g = ap (λ r. r.keys) g
keys-Given now p (q, picked index value) g = ap (λ r. r.keys) g.4

-- A round changes no key.
pub pass-keys : (now : ℕ) (p : TronGridApiKeyPool) → (pass now p).0.keys ≡ p.keys
pass-keys now p = keys-Given now p (pass now p) (pass-Given now p)

apply_call-cools :
    (i c now : ℕ) (call : PoolCall) (p : TronGridApiKeyPool)
    → cools i c p.keys ≡ true
    → cools i c (apply_call now call p).keys ≡ true
unfolding apply_call
apply_call-cools i c now take_key p h = rw (pass-keys now p) h
apply_call-cools i c now (cool index d) p h = cools-cooldown i c now index d p h

apply_calls-cools :
    (i c : ℕ) (calls : List (ℕ × PoolCall)) (p : TronGridApiKeyPool)
    → cools i c p.keys ≡ true
    → cools i c (apply_calls calls p).keys ≡ true
unfolding apply_calls
apply_calls-cools i c [] p h = h
apply_calls-cools i c ((now, call) ∷ calls) p h =
    apply_calls-cools i c calls (apply_call now call p) (apply_call-cools i c now call p h)

pub apply_calls-CoolAll :
    (past : List (ℕ × ℕ)) (calls : List (ℕ × PoolCall)) (p : TronGridApiKeyPool)
    → CoolAll past p.keys
    → CoolAll past (apply_calls calls p).keys
apply_calls-CoolAll [] calls p h = tt
apply_calls-CoolAll ((i, c) ∷ past) calls p h =
    (apply_calls-cools i c calls p h.0, apply_calls-CoolAll past calls p h.1)

pub cooldown-CoolAll :
    (past : List (ℕ × ℕ)) (now : ℕ) (index : Option ℕ) (d : ℕ) (p : TronGridApiKeyPool)
    → CoolAll past p.keys
    → CoolAll past (cooldown now index d p).keys
cooldown-CoolAll [] now index d p h = tt
cooldown-CoolAll ((i, c) ∷ past) now index d p h =
    (cools-cooldown i c now index d p h.0, cooldown-CoolAll past now index d p h.1)
