-- ===== src/Outbox/Lifecycle/Claims.antt =====
-- What ClaimPendingWebhookEvents picks (internal/db/scanner.go), and what it leaves alone.
use tronvent.Base.{
  ℕ, zero, suc, String, Bool, true, false, not, ◌&&◌, ◌||◌, List, [], ◌∷◌, map, ◌≡◌, refl, sym, ap,
  ◌∙◌, inl, inr, Bool-cases, arith, str_eq, eq_iff, any, keep, take,
}
use tronvent.Outbox.{Event}
use tronvent.Outbox.Lifecycle.{is_ready, order_rows, insert_ordered, chosen_ids}

any-insert_ordered :
    (p : Event → Bool) (e : Event) (xs : List Event)
    → any p (insert_ordered e xs) ≡ (p e || any p xs)
unfolding insert_ordered
any-insert_ordered p e [] = refl
any-insert_ordered p e (x ∷ xs) = ground (arith, any-insert_ordered p e xs)

any-order_rows : (p : Event → Bool) (xs : List Event) → any p (order_rows xs) ≡ any p xs
unfolding order_rows
any-order_rows p [] = refl
any-order_rows p (x ∷ xs) =
    any-insert_ordered p x (order_rows xs) ∙ ap (λ b. p x || b) (any-order_rows p xs)

any-take : (p : Event → Bool) (n : ℕ) (xs : List Event) → any p (take n xs) ≡ true → any p xs ≡ true
any-take p zero xs h = cc
any-take p (suc n) [] h = h
any-take p (suc n) (x ∷ xs) h = ground (arith, any-take p n xs)

any-keep : (p q : Event → Bool) (xs : List Event) → any p (keep q xs) ≡ any (λ x. q x && p x) xs
any-keep p q [] = refl
any-keep p q (x ∷ xs) = ground (arith, any-keep p q xs)

any-map_id :
    (i : String) (xs : List Event)
    → any (λ j. str_eq j i) (map (λ e. e.id) xs) ≡ any (λ e. str_eq e.id i) xs
any-map_id i [] = refl
any-map_id i (x ∷ xs) = ap (λ b. str_eq x.id i || b) (any-map_id i xs)

any-weaken :
    (p q : Event → Bool) (xs : List Event)
    → ((e : Event) → p e ≡ true → q e ≡ true)
    → any p xs ≡ true
    → any q xs ≡ true
any-weaken p q [] h k = k
any-weaken p q (x ∷ xs) h k = ground (arith, h x, any-weaken p q xs h)

-- A chosen id is that of a ready row.
pub chosen_ids-is_ready :
    (now limit : ℕ) (locked : String → Bool) (rows : List Event) (i : String)
    → any (λ j. str_eq j i) (chosen_ids now limit locked rows) ≡ true
    → any (λ e. is_ready now e && str_eq e.id i) rows ≡ true
unfolding chosen_ids
chosen_ids-is_ready now limit locked rows i h =
    let ready = λ (e : Event). is_ready now e && not (locked e.id) in
    let has_id = λ (e : Event). str_eq e.id i in
    let taken = any-take has_id _ (order_rows (keep ready rows)) (sym (any-map_id i _) ∙ h) in
    any-weaken (λ e. ready e && has_id e) (λ e. is_ready now e && has_id e) rows
      (λ e k. ground arith)
      (sym (any-order_rows has_id (keep ready rows) ∙ any-keep has_id ready rows) ∙ taken)

-- Every row with the id has the property.
abbrev pub AllWithId {ℓ} : String → (Event → Type ℓ) → List Event → Type ℓ
AllWithId i P [] = Unit
AllWithId i P (e ∷ es) = (e.id ≡ i → P e) × AllWithId i P es

not_ready-any :
    (now : ℕ) (i : String) (rows : List Event)
    → AllWithId i (λ e. is_ready now e ≡ false) rows
    → any (λ e. is_ready now e && str_eq e.id i) rows ≡ false
not_ready-any now i [] h = refl
not_ready-any now i (e ∷ es) h = ground (arith, h.0, eq_iff e.id i, not_ready-any now i es h.1)

-- An id none of whose rows is ready is not chosen.
pub not_ready-chosen_ids :
    (now limit : ℕ) (locked : String → Bool) (rows : List Event) (i : String)
    → AllWithId i (λ e. is_ready now e ≡ false) rows
    → any (λ j. str_eq j i) (chosen_ids now limit locked rows) ≡ false
not_ready-chosen_ids now limit locked rows i h =
    elim (Bool-cases (any (λ j. str_eq j i) (chosen_ids now limit locked rows))) [
      | inl t ↦
          absurd (cc (chosen_ids-is_ready now limit locked rows i t, not_ready-any now i rows h))
      | inr f ↦ f
    ]
