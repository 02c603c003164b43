-- ===== src/Api/Synced/Keys.antt =====
-- Listed keys (the primary keys of the watch tables, and the contracts in memory).
use tronvent.Base.{
  String, Bool, true, false, Option, none, some, List, [], ◌∷◌, any-append, keep, str_eq, ◌≡◌, sym,
  arith, eq_iff, eq_refl, Bool-cases, inl, inr, if◌then◌else◌,
}
use tronvent.Api.Watchlist.{with_key}
use tronvent.Api.Synced.{has, Keyed}

pub has-with_key :
    (a : String) (new : Bool) (keys : List String) (k : String)
    → has k keys ≡ true
    → has k (with_key a new keys) ≡ true
has-with_key a true keys k h = rw (any-append (λ x. str_eq x k) keys (a ∷ [])) (ground (arith, h))
has-with_key a false keys k h = h

pub has-new_key : (a : String) (keys : List String) → has a (with_key a true keys) ≡ true
has-new_key a keys = rw (any-append (λ x. str_eq x a) keys (a ∷ []), eq_refl a) (ground arith)

pub with_key-Keyed :
    {A : Type 0} (key : A → String) (k a : String) (new : Bool) (row : Option A)
    (keys : List String)
    → Keyed key k row keys
    → Keyed key k row (with_key a new keys)
with_key-Keyed key k a new none keys h = tt
with_key-Keyed key k a new (some r) keys h = (h.0, has-with_key a new keys k h.1)

-- A row that is written under a key is keyed where the row and the key agree.
pub put-Keyed :
    {A : Type 0} (key : A → String) (a k : String) (new : Bool) (row : A) (old : Option A)
    (keys : List String)
    → key row ≡ a
    → has a (with_key a new keys) ≡ true
    → Keyed key k old keys
    → Keyed key k (if str_eq a k then some row else old) (with_key a new keys)
put-Keyed key a k new row old keys h m o = elim (Bool-cases (str_eq a k)) [
  | inl e ↦ let same : a ≡ k = ground (arith, e, eq_iff a k) in rw (e, sym same) (h, m)
  | inr e ↦ rw e (with_key-Keyed key k a new old keys o)
]

-- What a test keeps has every listed key that passes it.
pub has-keep :
    (p : String → Bool) (keys : List String) (k : String)
    → has k keys ≡ true
    → p k ≡ true
    → has k (keep p keys) ≡ true
has-keep p [] k h g = absurd (cc h)
has-keep p (x ∷ keys) k h g = elim (Bool-cases (str_eq x k)) [
  | inl e ↦
      let same : x ≡ k = ground (arith, e, eq_iff x k) in rw (same, g) (ground (arith, eq_refl k))
  | inr e ↦ elim (Bool-cases (p x)) [
    | inl q ↦ rw q (ground (arith, e, has-keep p keys k (ground (arith, h, e)) g))
    | inr q ↦ rw q (has-keep p keys k (ground (arith, h, e)) g)
  ]
]
