-- ===== src/Migrate/Loop.antt =====
-- The loop over the migrations, run again after a failure (internal/migrate/migrate.go).

use tronvent.Base.{
  String, Bool, true, false, ◌||◌, Option, none, some, List, [], ◌∷◌, ◌++◌, any, any-append, str_eq,
  ◌≡◌, ◌⊎◌, ◌∙◌, refl, sym, arith, eq_iff, eq_refl, Bool-cases, inl, inr,
}
use tronvent.Migrate.{
  Database, Outside, version_of, has, run_file, go_on, apply_entries, applied_versions,
}

-- The version of no later file.
abbrev pub has_version : String → List String → Bool
has_version v names = any (λ n. str_eq (version_of n) v) names

-- The files have different versions.
abbrev pub VersionsUnique : List String → Type 0
VersionsUnique [] = Unit
VersionsUnique (n ∷ ns) = (has_version (version_of n) ns ≡ false) × VersionsUnique ns

-- The two maps agree on the files.
abbrev pub AgreeOn : (String → Bool) → (String → Bool) → List String → Type 0
AgreeOn a b [] = Unit
AgreeOn a b (n ∷ ns) = (a (version_of n) ≡ b (version_of n)) × AgreeOn a b ns

pub AgreeOn-refl : (a : String → Bool) (ns : List String) → AgreeOn a a ns
AgreeOn-refl a [] = tt
AgreeOn-refl a (n ∷ ns) = (refl, AgreeOn-refl a ns)

go_on-same :
    (x : Option Database) (db : Database) (f g : Database → Database × Bool)
    → ((d : Database) → f d ≡ g d)
    → go_on x db f ≡ go_on x db g
go_on-same none db f g h = refl
go_on-same (some d) db f g h = h d

apply_entries-AgreeOn :
    (o : Outside) (a b : String → Bool) (ns : List String) (db : Database)
    → AgreeOn a b ns
    → apply_entries o a ns db ≡ apply_entries o b ns db
unfolding apply_entries
apply_entries-AgreeOn o a b [] db h = refl
apply_entries-AgreeOn o a b (n ∷ ns) db h = elim (Bool-cases (b (version_of n))) [
  | inl e ↦ rw (h.0, e) (apply_entries-AgreeOn o a b ns db h.1)
  | inr e ↦ rw (h.0, e) (go_on-same _ db _ _ (λ d. apply_entries-AgreeOn o a b ns d h.1))
]

-- What is recorded stays recorded.
run_file-has :
    (o : Outside) (w v : String) (text : Option String) (db : Database)
    (f : Database → Database × Bool)
    → has v db.versions ≡ true
    → ((d : Database) → has v d.versions ≡ true → has v (f d).0.versions ≡ true)
    → has v (go_on (run_file o w text db) db f).0.versions ≡ true
run_file-has o w v none db f h k = h
run_file-has o w v (some text) db f h k = elim (Bool-cases (o.refuses w || has w db.versions)) [
  | inl e ↦ rw e h
  | inr e ↦ rw e (k _ (rw (any-append (λ x. str_eq x v) db.versions (w ∷ [])) (ground (arith, h))))
]

apply_entries-has :
    (o : Outside) (a : String → Bool) (v : String) (ns : List String) (db : Database)
    → has v db.versions ≡ true
    → has v (apply_entries o a ns db).0.versions ≡ true
unfolding apply_entries
apply_entries-has o a v [] db h = h
apply_entries-has o a v (n ∷ ns) db h = elim (Bool-cases (a (version_of n))) [
  | inl e ↦ rw e (apply_entries-has o a v ns db h)
  | inr e ↦ rw e (
      run_file-has o (version_of n) v (o.read_file n) db _ h
        (λ d k. apply_entries-has o a v ns d k))
]

-- The files as they are: reading one gives its text, or fails.
pub record ReadsFiles (text : String → String) (o : Outside) : Type 0 where
  pub reads : (n : String) → (o.read_file n ≡ none) ⊎ (o.read_file n ≡ some (text n))

-- Nothing fails.
pub record NoFailure (text : String → String) (o : Outside) : Type 0 where
  pub lists : o.can_list ≡ true
  pub reads : (n : String) → o.read_file n ≡ some (text n)
  pub accepts : (v : String) → o.refuses v ≡ false

abbrev recorded : String → String → Database → Database
recorded v t db = record { versions = db.versions ++ v ∷ []; executed = db.executed ++ t ∷ [] }

recorded-has : (v t : String) (db : Database) → has v (recorded v t db).versions ≡ true
recorded-has v t db =
    rw (any-append (λ x. str_eq x v) db.versions (v ∷ []), eq_refl v) (ground arith)

run_file-cases :
    (text : String → String) (o : Outside) (n v : String) (db : Database)
    → ReadsFiles text o
    → (run_file o v (o.read_file n) db ≡ none)
      ⊎ (run_file o v (o.read_file n) db ≡ some (recorded v (text n) db))
run_file-cases text o n v db r = elim (r.reads n) [
  | inl e ↦ inl (rw e)
  | inr e ↦ elim (Bool-cases (o.refuses v || has v db.versions)) [
    | inl b ↦ inl (rw (e, b))
    | inr b ↦ inr (rw (e, b))
  ]
]

run_file-NoFailure :
    (text : String → String) (o : Outside) (n v : String) (db : Database)
    → NoFailure text o
    → has v db.versions ≡ false
    → run_file o v (o.read_file n) db ≡ some (recorded v (text n) db)
run_file-NoFailure text o n v db g h = rw (g.reads n, g.accepts v, h)

-- A version that no later file has makes no difference to them.
AgreeOn-recorded :
    (a : String → Bool) (v t : String) (ns : List String) (db : Database)
    → has_version v ns ≡ false
    → AgreeOn a (applied_versions db) ns
    → AgreeOn a (applied_versions (recorded v t db)) ns
unfolding applied_versions
AgreeOn-recorded a v t [] db u h = tt
AgreeOn-recorded a v t (n ∷ ns) db u h = (
  h.0
      ∙ sym (
          has_more v (version_of n) db.versions
            (ground (arith, u, eq_iff (version_of n) v, eq_iff v (version_of n)))),
  AgreeOn-recorded a v t ns db (ground (arith, u)) h.1,
)
  where
    has_more :
        (v w : String) (vs : List String) → str_eq v w ≡ false → has w (vs ++ v ∷ []) ≡ has w vs
    has_more v w vs e = rw (any-append (λ x. str_eq x w) vs (v ∷ [])) (ground (arith, e))

-- No file is left; one file is applied, skipped or fails.
apply_none :
    (o : Outside) (a : String → Bool) (db : Database) → apply_entries o a [] db ≡ (db, true)
unfolding apply_entries
apply_none o a db = refl

apply_done :
    (o : Outside) (a : String → Bool) (n : String) (ns : List String) (db db' : Database)
    → a (version_of n) ≡ false
    → run_file o (version_of n) (o.read_file n) db ≡ some db'
    → apply_entries o a (n ∷ ns) db ≡ apply_entries o a ns db'
unfolding apply_entries
apply_done o a n ns db db' e r = rw (e, r)

apply_failed :
    (o : Outside) (a : String → Bool) (n : String) (ns : List String) (db : Database)
    → a (version_of n) ≡ false
    → run_file o (version_of n) (o.read_file n) db ≡ none
    → apply_entries o a (n ∷ ns) db ≡ (db, false)
unfolding apply_entries
apply_failed o a n ns db e r = rw (e, r)

apply_skipped :
    (o : Outside) (a : String → Bool) (n : String) (ns : List String) (db : Database)
    → a (version_of n) ≡ true
    → apply_entries o a (n ∷ ns) db ≡ apply_entries o a ns db
unfolding apply_entries
apply_skipped o a n ns db e = rw e

-- A recorded file is skipped.
apply_again :
    (o : Outside) (n : String) (ns : List String) (db : Database)
    → has (version_of n) db.versions ≡ true
    → apply_entries o (applied_versions db) (n ∷ ns) db
      ≡ apply_entries o (applied_versions db) ns db
unfolding applied_versions
apply_again o n ns db h = apply_skipped o _ n ns db h

module _ (text : String → String) (o ok : Outside) (r : ReadsFiles text o)
    (g : NoFailure text ok) where
  -- The loop, run again by a map that is read after its first run.
  pub resumed :
      (a : String → Bool) (ns : List String) (db : Database)
      → VersionsUnique ns
      → AgreeOn a (applied_versions db) ns
      → apply_entries ok
          (applied_versions (apply_entries o a ns db).0)
          ns
          (apply_entries o a ns db).0
        ≡ apply_entries ok a ns db
  unfolding applied_versions
  resumed a [] db u h =
      rw (apply_none o a db, apply_none ok (applied_versions db) db, apply_none ok a db)
  resumed a (n ∷ ns) db u h = elim (Bool-cases (a (version_of n))) [
    | inl e ↦
        let m = sym h.0 ∙ e in
        rw (apply_skipped o a n ns db e) (
          apply_again ok n ns _ (apply_entries-has o a (version_of n) ns db m)
          ∙ resumed a ns db u.1 h.1
          ∙ sym (apply_skipped ok a n ns db e))
    | inr e ↦
        let m = sym h.0 ∙ e in
        elim (run_file-cases text o n (version_of n) db r) [
          | inl f ↦
              rw (apply_failed o a n ns db e f) (sym (apply_entries-AgreeOn ok a _ (n ∷ ns) db h))
          | inr f ↦
              let db' = recorded (version_of n) (text n) db in
              rw (apply_done o a n ns db db' e f) (
                apply_again ok n ns _ (
                  apply_entries-has o a (version_of n) ns db'
                    (recorded-has (version_of n) (text n) db))
                ∙ resumed a ns db' u.1 (AgreeOn-recorded a (version_of n) (text n) ns db u.0 h.1)
                ∙ sym (
                    apply_done ok a n ns db db' e
                      (run_file-NoFailure text ok n (version_of n) db g m)))
        ]
  ]
