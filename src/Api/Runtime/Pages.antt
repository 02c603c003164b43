-- ===== src/Api/Runtime/Pages.antt =====
-- The pages of contracts that internal/api/runtime.go reads are all of them.
use tronvent.Base.{
  ℕ, zero, suc, ◌+◌, ◌≤◌, ◌<◌, String, Bool, true, false, Option, some, List, [], ◌∷◌, map, All,
  ltb, ltb→lt, keep, take, length, ◌≡◌, ◌≢◌, ◌∙◌, refl, sym, ap, arith, eq_iff, Bool-cases, inl,
  inr,
}
use tronvent.Watched.{WatchedContract}
use tronvent.Api.Runtime.{
  ContractLag, is_listed, list_contracts, lag_of, last_of, page_size, is_empty, contract_lags,
  RuntimeInput, trc20_target_of, lags_or_none, snapshot_with, build_runtime_snapshot,
}
use tronvent.Api.Runtime.Parts.{
  drop, not_short, fewer, drop-plus, last_of-take, length-drop, take_all, long_enough, map-parts,
  empty_page,
}

-- A strict order.
pub record StrictOrder (before : String → String → Bool) : Type 0 where
  pub irreflexive : (a : String) → before a a ≡ false
  pub transitive : (a b c : String) → before a b ≡ true → before b c ≡ true → before a c ≡ true

module _ (before : String → String → Bool) (o : StrictOrder before) where
  -- Every row comes before those after it, and none has the empty text as its key.
  abbrev pub Ordered : List WatchedContract → Type 0
  Ordered [] = Unit
  Ordered (r ∷ rs) =
      All (λ s. before r.contract_address s.contract_address ≡ true) rs
      × (r.contract_address ≢ "")
      × Ordered rs

  -- After a row that comes before all others, all of them are listed.
  rest_listed :
      (a : String) (rows : List WatchedContract)
      → All (λ s. before a s.contract_address ≡ true) rows
      → keep (is_listed before a) rows ≡ rows
  rest_listed a [] h = refl
  rest_listed a (r ∷ rs) h = rw h.0 (ground (arith, rest_listed a rs h.1))

  last_of-after :
      (a after : String) (n : ℕ) (r : WatchedContract) (rows : List WatchedContract)
      → before a r.contract_address ≡ true
      → All (λ s. before a s.contract_address ≡ true) rows
      → before a (last_of after (take (suc n) (r ∷ rows))) ≡ true
  last_of-after a after zero r rows h k = h
  last_of-after a after (suc n) r [] h k = h
  last_of-after a after (suc n) r (s ∷ rows) h k =
      last_of-after a r.contract_address n s rows k.0 k.1

  last_of-named :
      (after : String) (n : ℕ) (r : WatchedContract) (rows : List WatchedContract)
      → Ordered (r ∷ rows)
      → last_of after (take (suc n) (r ∷ rows)) ≢ ""
  last_of-named after zero r rows h = h.1
  last_of-named after (suc n) r [] h = h.1
  last_of-named after (suc n) r (s ∷ rows) h = last_of-named r.contract_address n s rows h.2

  -- Of two texts, one at most comes before the other.
  not_both : (a c : String) → before c a ≡ true → before a c ≡ false
  not_both a c h = elim (Bool-cases (before a c)) [
    | inl e ↦ absurd (ground (arith, o.transitive a c a e h, o.irreflexive a))
    | inr e ↦ e
  ]

  listed_at_start : (rows : List WatchedContract) → keep (is_listed before "") rows ≡ rows
  listed_at_start [] = refl
  listed_at_start (r ∷ rs) = ap (λ t. r ∷ t) (listed_at_start rs)

  -- What is listed after the first rows is the rest.
  listed_after :
      (after : String) (n : ℕ) (rows : List WatchedContract)
      → suc n ≤ length rows
      → Ordered rows
      → keep (is_listed before (last_of after (take (suc n) rows))) rows ≡ drop (suc n) rows
  listed_after after n [] l h = absurd (omega (arith, l))
  listed_after after zero (r ∷ rs) l h =
      rw (o.irreflexive r.contract_address)
        (ground (arith, h.1, eq_iff r.contract_address "", rest_listed r.contract_address rs h.0))
  listed_after after (suc n) (r ∷ []) l h = absurd (omega (arith, l))
  listed_after after (suc n) (r ∷ s ∷ rs) l h =
      let z = last_of r.contract_address (take (suc n) (s ∷ rs)) in
      let named : z ≢ "" = last_of-named r.contract_address n s rs h.2 in
      let later : before r.contract_address z ≡ true =
        last_of-after r.contract_address r.contract_address n s rs h.0.0 h.0.1 in
      let before_it : before z r.contract_address ≡ false = not_both z r.contract_address later in
      rw before_it (
        ground (
          arith,
          named,
          eq_iff z "",
          listed_after r.contract_address n (s ∷ rs) (omega (arith, l)) h.2,
        ))

  listed_from :
      (n : ℕ) (rows : List WatchedContract)
      → n ≤ length rows
      → Ordered rows
      → keep (is_listed before (last_of "" (take n rows))) rows ≡ drop n rows
  listed_from zero rows l h = listed_at_start rows
  listed_from (suc n) rows l h = listed_after "" n rows l h

  module _ (cursors : String → ℕ) (target : ℕ) where
    abbrev active_of : List WatchedContract → List WatchedContract
    active_of rows = keep (λ r. r.is_active) rows

    abbrev start_of : ℕ → List WatchedContract → String
    start_of n rows = last_of "" (take n (active_of rows))

    abbrev page_of : ℕ → List WatchedContract → List WatchedContract
    page_of n rows = take page_size (drop n (active_of rows))

    page-list_contracts :
        (n : ℕ) (rows : List WatchedContract)
        → n ≤ length (active_of rows)
        → Ordered (active_of rows)
        → list_contracts before page_size (start_of n rows) rows ≡ page_of n rows
    unfolding list_contracts
    page-list_contracts n rows l h = ap (take page_size) (listed_from n (active_of rows) l h)

    abbrev result_of : ℕ → List WatchedContract → Option (List ContractLag)
    result_of n rows = some (map (lag_of cursors target) (drop n (active_of rows)))

    contract_lags-from :
        (fuel n : ℕ) (rows : List WatchedContract)
        → n ≤ length (active_of rows)
        → length (active_of rows) < n + fuel
        → Ordered (active_of rows)
        → contract_lags before cursors target (λ q. false) fuel (start_of n rows) rows
          ≡ result_of n rows
    unfolding contract_lags
    contract_lags-from zero n rows l f h = absurd (omega (arith, l, f))
    contract_lags-from (suc fuel) n rows l f h =
        rw (page-list_contracts n rows l h) (elim (Bool-cases (is_empty (page_of n rows))) [
          | inl e ↦ rw (e, empty_page 499 (drop n (active_of rows)) e) refl
          | inr e ↦ elim (Bool-cases (ltb (length (page_of n rows)) page_size)) [
            | inl b ↦
                rw (e, b)
                  (ap (λ t. some (map (lag_of cursors target) t))
                    (take_all page_size (drop n (active_of rows)) (ltb→lt _ _ b)))
            | inr b ↦
                let rest = drop n (active_of rows) in
                let full : 500 ≤ length rest = long_enough page_size rest (not_short _ _ b) in
                let size = length-drop n (active_of rows) l in
                rw
                  (
                    e,
                    b,
                    last_of-take "" n page_size (active_of rows),
                    contract_lags-from fuel (n + 500) rows (omega (arith, full, size))
                        (omega (arith, f)) h,
                    sym (drop-plus n page_size (active_of rows)),
                  )
                  (ap (λ t. some t) (map-parts (lag_of cursors target) page_size rest))
          ]
        ])

    contract_lags-all :
        (fuel : ℕ) (rows : List WatchedContract)
        → length (active_of rows) < fuel
        → Ordered (active_of rows)
        → contract_lags before cursors target (λ q. false) fuel "" rows ≡ result_of 0 rows
    contract_lags-all fuel rows f h =
        contract_lags-from fuel 0 rows (omega arith) (omega (arith, f)) h

  -- Where no query fails and the active rows stand in the strict order of their keys, none of which is
  -- the empty text, the runtime snapshot has the lag of every active contract, each one once, in their
  -- order, however many pages they fill: the distance from the contract's cursor to the block that a
  -- TRC-20 scan may reach.
  pub snapshot_lags :
      (rows : List WatchedContract) (i : RuntimeInput) (cursors : String → ℕ)
      → i.cursors ≡ some cursors
      → Ordered (keep (λ r. r.is_active) rows)
      → (build_runtime_snapshot before (λ q. false) rows i).contract_lags
        ≡ map (lag_of cursors (trc20_target_of i)) (keep (λ r. r.is_active) rows)
  unfolding build_runtime_snapshot
  snapshot_lags rows i cursors e h =
      let enough : length (keep (λ r. r.is_active) rows) < length rows + 1 = fewer rows in
      ap (λ x. (snapshot_with before (λ q. false) rows i x).contract_lags) e
      ∙ ap lags_or_none
          (contract_lags-all cursors (trc20_target_of i) (length rows + 1) rows enough h)
