-- ===== src/Api/Synced/Addresses.antt =====
-- The additions, deactivations and reloads of addresses keep the filter in step with the table.
use tronvent.Base.{
  ℕ, String, true, false, Option, none, some, List, [], ◌∷◌, str_eq, ◌≡◌, ◌⊎◌, refl, sym, arith,
  eq_iff, Bool-cases, inl, inr,
}
use tronvent.Watched.{
  Addresses, WatchedAddress, add_to, add_watched_address, deactivate_in, deactivate_watched_address,
  is_watched_address_active, is_active_row,
}
use tronvent.Api.{Bloom, BloomFilter}
use tronvent.Api.Store.{
  add, add_strings, add_batch, contains, list_active_addresses, reload_addresses,
}
use tronvent.Api.Watchlist.{with_key}
use tronvent.Api.Watch.{Watch}
use tronvent.Watched.Membership.{added, deactivated, changes, change, wanted, changes-active}
use tronvent.Api.Synced.Keys.{put-Keyed, has-new_key, has-keep}
use tronvent.Api.Synced.{
  implies, implies-from, implies-to, NoFalseNegatives, has, Keyed, address_of, AddressesSynced,
}

-- The row that an addition returns stands under the key.
pub added_address :
    (now : ℕ) (id : String) (t : Addresses) (a source : String) (keys : List String)
    → Keyed address_of a (t a) keys
    → (add_watched_address now id t a source).1.row.address ≡ a
unfolding add_watched_address
added_address now id t a source keys h = added_row (t a) h
  where
    added_row :
        (row : Option WatchedAddress)
        → Keyed address_of a row keys
        → (add_to now id t a source row).1.row.address ≡ a
    added_row none h = refl
    added_row (some r) h = elim (Bool-cases r.is_active) [ inl e ↦ rw e h.0 | inr e ↦ rw e h.0 ]

add_to-Keyed :
    (now : ℕ) (id : String) (t : Addresses) (a source : String) (keys : List String)
    (row : Option WatchedAddress)
    → ((k : String) → Keyed address_of k (t k) keys)
    → Keyed address_of a row keys
    → (k : String)
    → let x = add_to now id t a source row in
      Keyed address_of k (x.0 k) (with_key a x.1.created keys)
add_to-Keyed now id t a source keys none h g k =
    put-Keyed address_of a k true _ (t k) keys refl (has-new_key a keys) (h k)
add_to-Keyed now id t a source keys (some r) h g k = elim (Bool-cases r.is_active) [
  | inl e ↦ rw e (h k)
  | inr e ↦ rw e (put-Keyed address_of a k false _ (t k) keys g.0 g.1 (h k))
]

deactivate_in-Keyed :
    (now : ℕ) (t : Addresses) (a : String) (keys : List String) (row : Option WatchedAddress)
    → ((k : String) → Keyed address_of k (t k) keys)
    → Keyed address_of a row keys
    → (k : String) → Keyed address_of k ((deactivate_in now t a row).0 k) keys
deactivate_in-Keyed now t a keys none h g k = h k
deactivate_in-Keyed now t a keys (some r) h g k = elim (Bool-cases r.is_active) [
  | inl e ↦ rw e (put-Keyed address_of a k false _ (t k) keys g.0 g.1 (h k))
  | inr e ↦ rw e (h k)
]

module _ {F : Type 0} (b : Bloom F) (n : NoFalseNegatives b) where
  contains-add :
      (s : BloomFilter F) (a k : String)
      → (a ≡ k) ⊎ (contains b s k ≡ true)
      → contains b (add b s a) k ≡ true
  unfolding contains add
  contains-add s a k (inl e) = rw (sym e) (n.added s.filter a)
  contains-add s a k (inr h) = n.kept s.filter a k h

  test-add_strings :
      (f : F) (addrs : List String) (k : String)
      → (b.test_string f k ≡ true) ⊎ (has k addrs ≡ true)
      → b.test_string (add_strings b f addrs) k ≡ true
  unfolding add_strings
  test-add_strings f [] k (inl h) = h
  test-add_strings f [] k (inr h) = absurd (cc h)
  test-add_strings f (a ∷ addrs) k (inl h) =
      test-add_strings (b.add_string f a) addrs k (inl (n.kept f a k h))
  test-add_strings f (a ∷ addrs) k (inr h) = elim (Bool-cases (str_eq a k)) [
    | inl e ↦
        let same : a ≡ k = ground (arith, e, eq_iff a k) in
        test-add_strings (b.add_string f a) addrs k (inl (rw (sym same) (n.added f a)))
    | inr e ↦ test-add_strings (b.add_string f a) addrs k (inr (ground (arith, h, e)))
  ]

active-add :
    (now : ℕ) (id : String) (t : Addresses) (a source k : String)
    → is_watched_address_active (add_watched_address now id t a source).0 k ≡ true
    → (a ≡ k) ⊎ (is_watched_address_active t k ≡ true)
unfolding changes change wanted
active-add now id t a source k h = elim (Bool-cases (str_eq a k)) [
  | inl e ↦ inl (ground (arith, e, eq_iff a k))
  | inr e ↦
      let was = changes-active ((now, added id a source) ∷ []) t k in
      inr (ground (arith, e, h, was))
]

active-deactivate :
    (now : ℕ) (t : Addresses) (a k : String)
    → is_watched_address_active (deactivate_watched_address now t a).0 k ≡ true
    → is_watched_address_active t k ≡ true
unfolding changes change wanted
active-deactivate now t a k h =
    let was = changes-active ((now, deactivated a) ∷ []) t k in ground (arith, h, was)

listed_key :
    (k : String) (row : Option WatchedAddress) (keys : List String)
    → Keyed address_of k row keys
    → is_active_row row ≡ true
    → has k keys ≡ true
listed_key k none keys h g = absurd (cc g)
listed_key k (some r) keys h g = h.1

-- The query of a reload lists every active address.
pub listed_active :
    (t : Addresses) (keys : List String)
    → ((k : String) → Keyed address_of k (t k) keys)
    → (k : String)
    → implies (is_watched_address_active t k) (has k (list_active_addresses t keys)) ≡ true
unfolding list_active_addresses is_watched_address_active
listed_active t keys h k =
    implies-from _ _ (λ active. has-keep _ keys k (listed_key k (t k) keys (h k) active) active)

module _ {F : Type 0} (b : Bloom F) (n : NoFalseNegatives b) where
  pub added-Synced :
      (now : ℕ) (id : String) (a source : String) (v : Watch F)
      → AddressesSynced b v
      → let x = add_watched_address now id v.addresses a source in
        AddressesSynced b (record v {
          addresses = x.0;
          address_keys = with_key a x.1.created v.address_keys;
          address_store = add b v.address_store a;
        })
  unfolding add_watched_address
  added-Synced now id a source v h = record {
    keyed =
        add_to-Keyed now id v.addresses a source v.address_keys (v.addresses a) h.keyed (h.keyed a);
    held = λ k. implies-from _ _ (λ active. elim (active-add now id v.addresses a source k active) [
      | inl e ↦ contains-add b n v.address_store a k (inl e)
      | inr e ↦ contains-add b n v.address_store a k (inr (implies-to _ _ (h.held k) e))
    ]);
  }

  pub deactivated-Synced :
      (now : ℕ) (a : String) (v : Watch F)
      → AddressesSynced b v
      → AddressesSynced b
          (record v { addresses = (deactivate_watched_address now v.addresses a).0 })
  unfolding deactivate_watched_address
  deactivated-Synced now a v h = record {
    keyed =
        deactivate_in-Keyed now v.addresses a v.address_keys (v.addresses a) h.keyed (h.keyed a);
    held = λ k.
        implies-from _ _
          (λ active. implies-to _ _ (h.held k) (active-deactivate now v.addresses a k active));
  }

  -- A swap needs nothing of what the process held before, where its list has every active address.
  pub swapped-Synced :
      (addrs : List String) (v : Watch F)
      → ((k : String) → Keyed address_of k (v.addresses k) v.address_keys)
      → ((k : String) → implies (is_watched_address_active v.addresses k) (has k addrs) ≡ true)
      → AddressesSynced b
          (record v { address_store = reload_addresses b (some addrs) v.address_store })
  unfolding contains reload_addresses add_batch
  swapped-Synced addrs v h covers = record {
    keyed = h;
    held = λ k.
        implies-from _ _
          (λ active. test-add_strings b n b.new addrs k (inr (implies-to _ _ (covers k) active)));
  }
