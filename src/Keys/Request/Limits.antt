-- ===== src/Keys/Request/Limits.antt =====
-- A request to TronGrid keeps to the limits that TronGrid sets (tronGridDo of internal/scanner/poller.go).
use tronvent.Base.{
  ℕ, zero, suc, ◌+◌, ◌*◌, ◌≤◌, ◌<◌, String, Bool, true, not, ◌||◌, ◌&&◌, Option, none, some, List,
  [], ◌∷◌, leb, ◌==◌, ◌≡◌, ◌≢◌, ◌⊎◌, ◌∙◌, refl, sym, ap, arith, Bool-cases, inl, inr, length,
  if◌then◌else◌,
}
use tronvent.Keys.{
  TronGridApiKey, TronGridApiKeyPool, Pass, no_keys, picked, wait_until, get_elem?, pass,
  apply_calls, cooldown,
}
use tronvent.Keys.Ready.{Given, pass-Given}
use tronvent.Keys.Request.{
  Round, Taken, took, cancelled, after_round, next_available, Reply, no_reply, reply, Turn, Use,
  Outcome, received, context_ended, refused_request, rate_limited, Done, first_backoff,
  cooldown_time, after_429, once, on_reply, with_key, ended, attempts_from, tron_grid_do,
}
use tronvent.Keys.Request.Cooled.{
  cools, cools_key, CoolAll, pass-keys, apply_calls-CoolAll, cooldown-CoolAll, cooldown-cools,
}

-- None of the cooldowns in `past` (a key's index, and until when) stands against the key at the time.
abbrev pub allowed : List (ℕ × ℕ) → Option ℕ → ℕ → Bool
allowed past none at = true
allowed [] (some index) at = true
allowed ((i, until) ∷ past) (some index) at =
    (not (i == index) || leb until at) && allowed past (some index) at

abbrev with_cooldown : Option ℕ → Option ℕ → List (ℕ × ℕ) → List (ℕ × ℕ)
with_cooldown none until past = past
with_cooldown (some index) none past = past
with_cooldown (some index) (some until) past = (index, until) ∷ past

-- Each request is allowed by the cooldowns of those before it.
abbrev pub Respects : List (ℕ × ℕ) → List Use → Type 0
Respects past [] = Unit
Respects past (u ∷ us) =
    (allowed past u.key u.taken_at ≡ true) × Respects (with_cooldown u.key u.cooled_until past) us

pub record Limited (left : ℕ) (past : List (ℕ × ℕ)) (d : Done) : Type 0 where
  pub respects : Respects past d.uses
  pub at_most : length d.uses ≤ left
  pub exhausted : (d.outcome ≢ rate_limited) ⊎ (length d.uses ≡ left)

picked-allowed :
    (past : List (ℕ × ℕ)) (keys : List TronGridApiKey) (index at : ℕ) (k : TronGridApiKey)
    → CoolAll past keys
    → get_elem? keys index ≡ some k
    → k.cooldown_until ≤ at
    → allowed past (some index) at ≡ true
picked-allowed [] keys index at k h e l = refl
picked-allowed ((i, until) ∷ past) keys index at k h e l =
    let rest = picked-allowed past keys index at k h.1 e l in
    elim (Bool-cases (i == index)) [
      | inl same ↦
          let i_same : i ≡ index = ground (arith, same) in
          let cool : cools index until keys ≡ true = rw (sym i_same) h.0 in
          let there : cools_key until (some k) ≡ true = sym (ap (cools_key until) e) ∙ cool in
          ground (arith, rest, there, l)
      | inr other ↦ rw other rest
    ]

-- What a call of nextAvailable leaves behind.
AllowedTaken : List (ℕ × ℕ) → TronGridApiKeyPool × Taken → Type 0
AllowedTaken past (p, cancelled) = CoolAll past p.keys
AllowedTaken past (p, took key value at) = CoolAll past p.keys × (allowed past key at ≡ true)

round-AllowedTaken :
    (past : List (ℕ × ℕ)) (at : ℕ) (p : TronGridApiKeyPool) (x : TronGridApiKeyPool × Pass)
    (again : TronGridApiKeyPool → TronGridApiKeyPool × Taken)
    → CoolAll past p.keys
    → x.0.keys ≡ p.keys
    → Given at p x
    → ((q : TronGridApiKeyPool) → CoolAll past q.keys → AllowedTaken past (again q))
    → AllowedTaken past (after_round at x again)
unfolding AllowedTaken Given
round-AllowedTaken past at p (q, no_keys) again h e g k = (rw e h, refl)
round-AllowedTaken past at p (q, wait_until u) again h e g k = k q (rw e h)
round-AllowedTaken past at p (q, picked index value) again h e g k =
    (rw e h, picked-allowed past p.keys index at g.0 h g.1 g.3)

next_available-AllowedTaken :
    (past : List (ℕ × ℕ)) (rs : List Round) (p : TronGridApiKeyPool)
    → CoolAll past p.keys
    → AllowedTaken past (next_available rs p)
unfolding AllowedTaken next_available
next_available-AllowedTaken past [] p h = h
next_available-AllowedTaken past (r ∷ rs) p h =
    let q = apply_calls r.others p in
    round-AllowedTaken past r.at q (pass r.at q) _ (apply_calls-CoolAll past r.others p h)
      (pass-keys r.at q) (pass-Given r.at q) (λ q' k. next_available-AllowedTaken past rs q' k)

ended-Limited :
    (left : ℕ) (past : List (ℕ × ℕ)) (p : TronGridApiKeyPool) (o : Outcome)
    → o ≢ rate_limited
    → Limited left past (ended p o)
ended-Limited left past p o h = record { respects = tt; at_most = omega arith; exhausted = inl h }

once-Limited :
    (parse_date : String → Option ℕ) (turns : ℕ → Turn) (left : ℕ) (past : List (ℕ × ℕ))
    (key : Option ℕ) (at : ℕ) (p : TronGridApiKeyPool) (o : Outcome)
    → o ≢ rate_limited
    → allowed past key at ≡ true
    → Limited (suc left) past (once parse_date turns key at p o)
once-Limited parse_date turns left past key at p o h a = record {
  respects = (a, tt);
  at_most = omega arith;
  exhausted = inl h;
}

module _ (parse_date : String → Option ℕ) (turns : ℕ → Turn) where
  cooldown_time-positive :
      (now : ℕ) (header : String) (backoff : ℕ)
      → 0 < backoff
      → 0 < cooldown_time parse_date turns now header backoff
  cooldown_time-positive now header backoff h = ground (arith, h)

  -- The cooldown of the request is on record for the next attempts.
  with_cooldown-CoolAll :
      (past : List (ℕ × ℕ)) (key : Option ℕ) (now d : ℕ) (p : TronGridApiKeyPool)
      → 0 < d
      → CoolAll past p.keys
      → CoolAll (with_cooldown key (some (now + d)) past) (cooldown now key d p).keys
  with_cooldown-CoolAll past none now d p l h = cooldown-CoolAll past now none d p h
  with_cooldown-CoolAll past (some i) now d p l h =
      (cooldown-cools now i d p l, cooldown-CoolAll past now (some i) d p h)

  after_429-Limited :
      (left : ℕ) (past : List (ℕ × ℕ)) (time : ℕ) (t : Turn) (key : Option ℕ) (at : ℕ)
      (p : TronGridApiKeyPool) (again : TronGridApiKeyPool → Done)
      → 0 < time
      → CoolAll past p.keys
      → allowed past key at ≡ true
      → ((past' : List (ℕ × ℕ)) (q : TronGridApiKeyPool)
          → CoolAll past' q.keys
          → Limited left past' (again q))
      → Limited (suc left) past (after_429 parse_date turns time t key at p again)
  after_429-Limited left past time t key at p again l h a k =
      let rest = k (with_cooldown key (some (t.replied_at + time)) past) _ (
        with_cooldown-CoolAll past key t.replied_at time (apply_calls t.others p) l
          (apply_calls-CoolAll past t.others p h)) in
      record {
        respects = (a, rest.respects);
        at_most = omega (arith, rest.at_most);
        exhausted = elim rest.exhausted [ inl e ↦ inl e | inr e ↦ inr (omega (arith, e)) ];
      }

  on_reply-Limited :
      (left : ℕ) (past : List (ℕ × ℕ)) (t : Turn) (backoff : ℕ) (key : Option ℕ) (at : ℕ)
      (p : TronGridApiKeyPool) (again : TronGridApiKeyPool → Done) (r : Reply)
      → 0 < backoff
      → CoolAll past p.keys
      → allowed past key at ≡ true
      → ((past' : List (ℕ × ℕ)) (q : TronGridApiKeyPool)
          → CoolAll past' q.keys
          → Limited left past' (again q))
      → Limited (suc left) past (on_reply parse_date turns t backoff key at p again r)
  on_reply-Limited left past t backoff key at p again no_reply l h a k =
      once-Limited parse_date turns left past key at p refused_request (ground arith) a
  on_reply-Limited left past t backoff key at p again (reply status header readable decodes) l h a
        k =
      elim (Bool-cases (status == 429)) [
        | inl e ↦ rw e (
            after_429-Limited left past _ t key at p again
              (cooldown_time-positive t.replied_at header backoff l) h a k)
        | inr e ↦ elim (Bool-cases (not (status == 200) || not readable || not decodes)) [
          | inl b ↦
              rw (e, b)
                (once-Limited parse_date turns left past key at p refused_request (ground arith) a)
          | inr b ↦
              rw (e, b) (once-Limited parse_date turns left past key at p received (ground arith) a)
        ]
      ]

  with_key-Limited :
      (left : ℕ) (past : List (ℕ × ℕ)) (t : Turn) (backoff : ℕ) (again : TronGridApiKeyPool → Done)
      (x : TronGridApiKeyPool × Taken)
      → 0 < backoff
      → AllowedTaken past x
      → ((past' : List (ℕ × ℕ)) (q : TronGridApiKeyPool)
          → CoolAll past' q.keys
          → Limited left past' (again q))
      → Limited (suc left) past (with_key parse_date turns t backoff again x)
  unfolding AllowedTaken
  with_key-Limited left past t backoff again (p, cancelled) l h k =
      ended-Limited (suc left) past p context_ended (ground arith)
  with_key-Limited left past t backoff again (p, took key value at) l h k =
      elim (Bool-cases t.built) [
        | inl e ↦ rw e (on_reply-Limited left past t backoff key at p again t.replied l h.0 h.1 k)
        | inr e ↦ rw e (ended-Limited (suc left) past p refused_request (ground arith))
      ]

  attempts_from-Limited :
      (left attempt backoff : ℕ) (past : List (ℕ × ℕ)) (p : TronGridApiKeyPool)
      → 0 < backoff
      → CoolAll past p.keys
      → Limited left past (attempts_from parse_date turns left attempt backoff p)
  unfolding attempts_from
  attempts_from-Limited zero attempt backoff past p l h = record {
    respects = tt;
    at_most = omega arith;
    exhausted = inr refl;
  }
  attempts_from-Limited (suc left) attempt backoff past p l h =
      elim (Bool-cases (not (attempt == 0) && not (turns attempt).waited)) [
        | inl e ↦ rw e (ended-Limited (suc left) past p context_ended (ground arith))
        | inr e ↦
            let b : ℕ = if attempt == 0 then backoff else backoff * 2 in
            let positive : 0 < b = ground (arith, l) in
            rw e (
              with_key-Limited left past (turns attempt) b _
                (next_available (turns attempt).rounds p) positive
                (next_available-AllowedTaken past (turns attempt).rounds p h)
                (λ past' q g. attempts_from-Limited left (attempt + 1) b past' q positive g))
      ]

  -- One call sends at most four requests to TronGrid, and says that it was rate limited only after four.
  -- No request uses a key before the end of the cooldown that the 429 of an earlier request of the call
  -- has set on it, whatever other calls do to the pool in between.
  pub tron_grid_do-Limited :
      (p : TronGridApiKeyPool) → Limited 4 [] (tron_grid_do parse_date turns p)
  unfolding tron_grid_do
  tron_grid_do-Limited p = attempts_from-Limited 4 0 first_backoff [] p (omega arith) tt
