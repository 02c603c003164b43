-- ===== src/Api/Runtime/Parts.antt =====
-- Parts of the list of contracts (internal/api/runtime.go).
use tronvent.Base.{
  ℕ, zero, suc, ◌+◌, ◌≤◌, ◌<◌, String, true, false, List, [], ◌∷◌, ◌++◌, map, ltb, keep, take,
  length, ◌≡◌, ◌∙◌, refl, sym, ap, arith, Bool-cases, inl, inr,
}
use tronvent.Watched.{WatchedContract}
use tronvent.Api.Runtime.{ContractLag, last_of, is_empty}

abbrev pub drop : ℕ → List WatchedContract → List WatchedContract
drop zero rows = rows
drop (suc n) [] = []
drop (suc n) (r ∷ rs) = drop n rs

drop_nil : (n : ℕ) → drop n [] ≡ []
drop_nil zero = refl
drop_nil (suc n) = refl

take_nil : (n : ℕ) → take {A = WatchedContract} n [] ≡ []
take_nil zero = refl
take_nil (suc n) = refl

pub not_short : (m n : ℕ) → ltb m n ≡ false → n ≤ m
not_short m n h = ground (arith, h)

pub fewer : (rows : List WatchedContract) → length (keep (λ r. r.is_active) rows) < length rows + 1
fewer [] = omega arith
fewer (r ∷ rs) = elim (Bool-cases r.is_active) [
  | inl e ↦ rw e (omega (arith, fewer rs))
  | inr e ↦ rw e (omega (arith, fewer rs))
]

-- A list in two parts.
pub drop-plus : (n m : ℕ) (rows : List WatchedContract) → drop m (drop n rows) ≡ drop (n + m) rows
drop-plus zero m rows = ap (λ k. drop k rows) (omega arith)
drop-plus (suc n) m [] = drop_nil m ∙ sym (drop_nil (suc n + m))
drop-plus (suc n) m (r ∷ rs) =
    let one : suc (n + m) ≡ suc n + m = omega arith in
    drop-plus n m rs ∙ ap (λ k. drop k (r ∷ rs)) one

pub last_of-take :
    (a : String) (n m : ℕ) (rows : List WatchedContract)
    → last_of (last_of a (take n rows)) (take m (drop n rows)) ≡ last_of a (take (n + m) rows)
last_of-take a zero m rows = ap (λ k. last_of a (take k rows)) (omega arith)
last_of-take a (suc n) m [] =
    ap (last_of a) (take_nil m) ∙ sym (ap (last_of a) (take_nil (suc n + m)))
last_of-take a (suc n) m (r ∷ rs) =
    let one : suc (n + m) ≡ suc n + m = omega arith in
    last_of-take r.contract_address n m rs ∙ ap (λ k. last_of a (take k (r ∷ rs))) one

pub length-drop :
    (n : ℕ) (rows : List WatchedContract) → n ≤ length rows → length rows ≡ n + length (drop n rows)
length-drop zero rows h = omega arith
length-drop (suc n) [] h = absurd (omega (arith, h))
length-drop (suc n) (r ∷ rs) h = omega (arith, length-drop n rs (omega (arith, h)))

pub take_all : (n : ℕ) (rows : List WatchedContract) → length (take n rows) < n → take n rows ≡ rows
take_all zero rows h = absurd (omega (arith, h))
take_all (suc n) [] h = refl
take_all (suc n) (r ∷ rs) h = ap (λ t. r ∷ t) (take_all n rs (omega (arith, h)))

pub long_enough : (n : ℕ) (rows : List WatchedContract) → n ≤ length (take n rows) → n ≤ length rows
long_enough zero rows h = omega arith
long_enough (suc n) [] h = h
long_enough (suc n) (r ∷ rs) h = omega (arith, long_enough n rs (omega (arith, h)))

pub map-parts :
    (f : WatchedContract → ContractLag) (n : ℕ) (rows : List WatchedContract)
    → map f (take n rows) ++ map f (drop n rows) ≡ map f rows
map-parts f zero rows = refl
map-parts f (suc n) [] = refl
map-parts f (suc n) (r ∷ rs) = ap (λ t. f r ∷ t) (map-parts f n rs)

pub empty_page :
    (k : ℕ) (rows : List WatchedContract) → is_empty (take (suc k) rows) ≡ true → rows ≡ []
empty_page k [] h = refl
empty_page k (r ∷ rs) h = absurd (cc h)
