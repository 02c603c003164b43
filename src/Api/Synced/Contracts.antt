-- ===== src/Api/Synced/Contracts.antt =====
-- The additions, deactivations and reloads of contracts keep the list in step with the table.
use tronvent.Base.{
  ℕ, String, true, false, Option, none, some, List, [], ◌∷◌, any-append, str_eq, ◌≡◌, ◌⊎◌, refl,
  sym, arith, eq_iff, eq_refl, Bool-cases, inl, inr,
}
use tronvent.Watched.{
  Contracts, WatchedContract, add_contract_to, add_watched_contract, deactivate_contract_in,
  deactivate_watched_contract,
}
use tronvent.Api.Store.{
  active_contract, add_contract, is_active_contract, list_active_contracts, reload_contracts,
}
use tronvent.Api.{Bloom}
use tronvent.Api.Watch.{Watch}
use tronvent.Api.Watchlist.{with_key}
use tronvent.Api.Synced.Keys.{put-Keyed, has-new_key, has-keep}
use tronvent.Api.Synced.{
  implies, implies-from, implies-to, has, Keyed, contract_of, ContractsSynced,
}

add_to-Keyed :
    (now : ℕ) (id : String) (t : Contracts) (a symbol source : String) (keys : List String)
    (row : Option WatchedContract)
    → ((k : String) → Keyed contract_of k (t k) keys)
    → Keyed contract_of a row keys
    → (k : String)
    → let x = add_contract_to now id t a symbol source row in
      Keyed contract_of k (x.0 k) (with_key a x.1.created keys)
add_to-Keyed now id t a symbol source keys none h g k =
    put-Keyed contract_of a k true _ (t k) keys refl (has-new_key a keys) (h k)
add_to-Keyed now id t a symbol source keys (some r) h g k = elim (Bool-cases r.is_active) [
  | inl e ↦ rw e (h k)
  | inr e ↦ rw e (put-Keyed contract_of a k false _ (t k) keys g.0 g.1 (h k))
]

deactivate_in-Keyed :
    (now : ℕ) (t : Contracts) (a : String) (keys : List String) (row : Option WatchedContract)
    → ((k : String) → Keyed contract_of k (t k) keys)
    → Keyed contract_of a row keys
    → (k : String) → Keyed contract_of k ((deactivate_contract_in now t a row).0 k) keys
deactivate_in-Keyed now t a keys none h g k = h k
deactivate_in-Keyed now t a keys (some r) h g k = elim (Bool-cases r.is_active) [
  | inl e ↦ rw e (put-Keyed contract_of a k false _ (t k) keys g.0 g.1 (h k))
  | inr e ↦ rw e (h k)
]

-- The row that an addition returns stands under the key.
pub added_contract :
    (now : ℕ) (id : String) (t : Contracts) (a symbol source : String) (keys : List String)
    → Keyed contract_of a (t a) keys
    → (add_watched_contract now id t a symbol source).1.row.contract_address ≡ a
unfolding add_watched_contract
added_contract now id t a symbol source keys h = added_row (t a) h
  where
    added_row :
        (row : Option WatchedContract)
        → Keyed contract_of a row keys
        → (add_contract_to now id t a symbol source row).1.row.contract_address ≡ a
    added_row none h = refl
    added_row (some r) h = elim (Bool-cases r.is_active) [ inl e ↦ rw e h.0 | inr e ↦ rw e h.0 ]

has-add_contract :
    (a k : String) (held : List String)
    → (a ≡ k) ⊎ (has k held ≡ true)
    → has k (add_contract a held) ≡ true
unfolding add_contract
has-add_contract a k held (inl e) = elim (Bool-cases (has a held)) [
  | inl m ↦ rw (m, sym e) m
  | inr m ↦ rw (m, sym e, any-append (λ x. str_eq x a) held (a ∷ []), eq_refl a) (ground arith)
]
has-add_contract a k held (inr h) = elim (Bool-cases (has a held)) [
  | inl m ↦ rw m h
  | inr m ↦ rw (m, any-append (λ x. str_eq x k) held (a ∷ [])) (ground (arith, h))
]

active-add :
    (now : ℕ) (id : String) (t : Contracts) (a symbol source k : String)
    → is_active_contract (add_watched_contract now id t a symbol source).0 k ≡ true
    → (a ≡ k) ⊎ (is_active_contract t k ≡ true)
unfolding add_watched_contract is_active_contract
active-add now id t a symbol source k h = elim (Bool-cases (str_eq a k)) [
  | inl e ↦ inl (ground (arith, e, eq_iff a k))
  | inr e ↦ inr (ground (arith, e, h))
]

active-deactivate :
    (now : ℕ) (t : Contracts) (a k : String)
    → is_active_contract (deactivate_watched_contract now t a).0 k ≡ true
    → is_active_contract t k ≡ true
unfolding deactivate_watched_contract is_active_contract
active-deactivate now t a k h = ground (arith, h)

listed_key :
    (k : String) (row : Option WatchedContract) (keys : List String)
    → Keyed contract_of k row keys
    → active_contract row ≡ true
    → has k keys ≡ true
listed_key k none keys h g = absurd (cc g)
listed_key k (some r) keys h g = h.1

-- The query of a reload lists every active contract.
pub listed_active :
    (t : Contracts) (keys : List String)
    → ((k : String) → Keyed contract_of k (t k) keys)
    → (k : String) → implies (is_active_contract t k) (has k (list_active_contracts t keys)) ≡ true
unfolding list_active_contracts is_active_contract
listed_active t keys h k =
    implies-from _ _ (λ active. has-keep _ keys k (listed_key k (t k) keys (h k) active) active)

module _ {F : Type 0} (b : Bloom F) where
  pub added-Synced :
      (now : ℕ) (id : String) (a symbol source : String) (v : Watch F)
      → ContractsSynced b v
      → let x = add_watched_contract now id v.contracts a symbol source in
        ContractsSynced b (record v {
          contracts = x.0;
          contract_keys = with_key a x.1.created v.contract_keys;
          contract_store = add_contract a v.contract_store;
        })
  unfolding add_watched_contract
  added-Synced now id a symbol source v h = record {
    keyed =
        add_to-Keyed now id v.contracts a symbol source v.contract_keys (v.contracts a) h.keyed
          (h.keyed a);
    held = λ k. implies-from _ _ (λ active.
        elim (active-add now id v.contracts a symbol source k active) [
          | inl e ↦ has-add_contract a k v.contract_store (inl e)
          | inr e ↦ has-add_contract a k v.contract_store (inr (implies-to _ _ (h.held k) e))
        ]);
  }

  -- A deactivation, with or without the reload that follows it.
  pub deactivated-Synced :
      (now : ℕ) (a : String) (v : Watch F)
      → ContractsSynced b v
      → ContractsSynced b
          (record v { contracts = (deactivate_watched_contract now v.contracts a).0 })
  unfolding deactivate_watched_contract
  deactivated-Synced now a v h = record {
    keyed =
        deactivate_in-Keyed now v.contracts a v.contract_keys (v.contracts a) h.keyed (h.keyed a);
    held = λ k.
        implies-from _ _
          (λ active. implies-to _ _ (h.held k) (active-deactivate now v.contracts a k active));
  }

  -- A swap needs nothing of what the process held before, where its list has every active contract.
  pub swapped-Synced :
      (found : List String) (v : Watch F)
      → ((k : String) → Keyed contract_of k (v.contracts k) v.contract_keys)
      → ((k : String) → implies (is_active_contract v.contracts k) (has k found) ≡ true)
      → ContractsSynced b
          (record v { contract_store = reload_contracts (some found) v.contract_store })
  unfolding reload_contracts
  swapped-Synced found v h covers = record { keyed = h; held = covers }

  -- A reload needs nothing of what the process held before.
  pub reloaded-Synced :
      (v : Watch F)
      → ((k : String) → Keyed contract_of k (v.contracts k) v.contract_keys)
      → ContractsSynced b (record v {
        contract_store =
            reload_contracts
              (some (list_active_contracts v.contracts v.contract_keys))
              v.contract_store;
      })
  reloaded-Synced v h =
      swapped-Synced (list_active_contracts v.contracts v.contract_keys) v h
        (listed_active v.contracts v.contract_keys h)
