-- ===== src/Stores/Agreement.antt =====
-- The two views of internal/store/webhook_config_store.go agree.
use tronvent.Base.{
  String, Bool, false, not, Option, none, some, List, [], ◌∷◌, ◌≡◌, ◌⊎◌, inl, inr, Option-cases,
  refl, ◌∙◌, arith, str_eq, eq_iff, keep, any, if◌then◌else◌,
}
use tronvent.Outbox.{WebhookEndpoint}
use tronvent.Stores.{
  WebhookConfigStore, new_webhook_config_store, reload, index_endpoints, place, upsert_endpoint,
  remove_endpoint, get_endpoint, get_primary_endpoint, put_endpoint, first_of,
}

-- The endpoint with the id, by a walk through the list.
abbrev pub find : String → List WebhookEndpoint → Option WebhookEndpoint
find id [] = none
find id (ep ∷ eps) = let rest = find id eps in if str_eq ep.id id then some ep else rest

abbrev pub has_id : String → List WebhookEndpoint → Bool
has_id id eps = any (λ ep. str_eq ep.id id) eps

-- The ids are distinct, as those of a table with a primary key.
abbrev pub IdsUnique : List WebhookEndpoint → Type 0
IdsUnique [] = Unit
IdsUnique (ep ∷ eps) = (has_id ep.id eps ≡ false) × IdsUnique eps

-- A call of a method that changes the store.
pub data Change : Type 0 where
  reloaded : Option (List WebhookEndpoint) → Change
  upserted : WebhookEndpoint → Change
  removed : String → Change

unfoldable pub change : Change → WebhookConfigStore → WebhookConfigStore
change (reloaded eps) s = reload eps s
change (upserted ep) s = upsert_endpoint ep s
change (removed id) s = remove_endpoint id s

unfoldable pub changes : List Change → WebhookConfigStore → WebhookConfigStore
changes [] s = s
changes (c ∷ cs) s = changes cs (change c s)

-- What the loader returns comes from the table.
abbrev pub FromTable : List Change → Type 0
FromTable [] = Unit
FromTable (reloaded none ∷ cs) = FromTable cs
FromTable (reloaded (some eps) ∷ cs) = IdsUnique eps × FromTable cs
FromTable (upserted ep ∷ cs) = FromTable cs
FromTable (removed id ∷ cs) = FromTable cs

find-index_endpoints :
    (m : String → Option WebhookEndpoint) (eps : List WebhookEndpoint) (id : String)
    → IdsUnique eps
    → index_endpoints m eps id ≡ (if has_id id eps then find id eps else m id)
unfolding index_endpoints
find-index_endpoints m [] id u = refl
find-index_endpoints m (ep ∷ eps) id u =
    ground (arith, find-index_endpoints (put_endpoint m ep) eps id u.1, eq_iff ep.id id, u.0)

find-missing :
    (id : String) (eps : List WebhookEndpoint) → has_id id eps ≡ false → find id eps ≡ none
find-missing id [] h = refl
find-missing id (ep ∷ eps) h = ground (arith, h, find-missing id eps)

find-place :
    (ep : WebhookEndpoint) (eps : List WebhookEndpoint) (id : String)
    → find id (place ep eps) ≡ (if str_eq ep.id id then some ep else find id eps)
unfolding place
find-place ep [] id = refl
find-place ep (cur ∷ rest) id =
    ground (arith, find-place ep rest id, eq_iff cur.id id, eq_iff cur.id ep.id, eq_iff ep.id id)

find-keep :
    (gone : String) (eps : List WebhookEndpoint) (id : String)
    → find id (keep (λ ep. not (str_eq ep.id gone)) eps)
      ≡ (if str_eq gone id then none else find id eps)
find-keep gone [] id = ground arith
find-keep gone (ep ∷ eps) id =
    ground (arith, find-keep gone eps id, eq_iff ep.id gone, eq_iff ep.id id, eq_iff gone id)

Agrees : WebhookConfigStore → Type 0
Agrees s = (id : String) → s.by_id id ≡ find id s.ordered

change-Agrees :
    (c : Change) (s : WebhookConfigStore) → FromTable (c ∷ []) → Agrees s → Agrees (change c s)
unfolding Agrees change reload upsert_endpoint remove_endpoint
change-Agrees (reloaded none) s u h id = h id
change-Agrees (reloaded (some eps)) s u h id =
    ground (arith, find-index_endpoints (λ k. none) eps id u.0, find-missing id eps)
change-Agrees (upserted ep) s u h id = ground (arith, h id, find-place ep s.ordered id)
change-Agrees (removed gone) s u h id = ground (arith, h id, find-keep gone s.ordered id)

changes-Agrees :
    (cs : List Change) (s : WebhookConfigStore) → FromTable cs → Agrees s → Agrees (changes cs s)
unfolding changes
changes-Agrees [] s u h = h
changes-Agrees (reloaded none ∷ cs) s u h =
    changes-Agrees cs _ u (change-Agrees (reloaded none) s tt h)
changes-Agrees (reloaded (some eps) ∷ cs) s u h =
    changes-Agrees cs _ u.1 (change-Agrees (reloaded (some eps)) s (u.0, tt) h)
changes-Agrees (upserted ep ∷ cs) s u h = changes-Agrees cs _ u (change-Agrees (upserted ep) s tt h)
changes-Agrees (removed id ∷ cs) s u h = changes-Agrees cs _ u (change-Agrees (removed id) s tt h)

-- There is no primary endpoint, and none has the id, or the primary one is found by its own id.
unfoldable pub PrimaryFound : WebhookConfigStore → String → Type 0
PrimaryFound s id =
    ((get_primary_endpoint s ≡ none) × (get_endpoint s id ≡ none))
    ⊎ ((ep : WebhookEndpoint) × (get_primary_endpoint s ≡ some ep)
        × (get_endpoint s ep.id ≡ some ep))

-- After any sequence of reloads, upserts and removals from the empty store, GetEndpoint returns
-- what a walk through the ordered list would, for every id, and GetPrimaryEndpoint returns an
-- endpoint that GetEndpoint returns too, or nothing where no id has one. The lists that the reloads
-- load have distinct ids.
pub get_endpoint-changes :
    (cs : List Change) (id : String)
    → FromTable cs
    → let s = changes cs new_webhook_config_store in
      (get_endpoint s id ≡ find id s.ordered) × PrimaryFound s id
unfolding get_endpoint get_primary_endpoint Agrees PrimaryFound
get_endpoint-changes cs id u =
    let s = changes cs new_webhook_config_store in
    let h = changes-Agrees cs new_webhook_config_store u (λ k. refl) in
    (
      h id,
      elim (Option-cases (first_of s.ordered)) [
        | inl e ↦ inl (e, h id ∙ primary_none s.ordered id e)
        | inr (ep, e) ↦ inr (ep, e, h ep.id ∙ primary_some s.ordered ep e)
      ],
    )
  where
    primary_none :
        (eps : List WebhookEndpoint) (k : String) → first_of eps ≡ none → find k eps ≡ none
    primary_none [] k e = refl
    primary_none (x ∷ xs) k e = ground arith

    primary_some :
        (eps : List WebhookEndpoint) (ep : WebhookEndpoint)
        → first_of eps ≡ some ep
        → find ep.id eps ≡ some ep
    primary_some [] ep e = ground arith
    primary_some (x ∷ xs) ep e = ground (arith, eq_iff x.id ep.id)
