-- ===== src/Migrate/Resume.antt =====
-- Migrations that fail are taken up again (internal/migrate/migrate.go).
use Prim.Native.String.{compare}
use tronvent.Base.{
  String, false, ◌||◌, List, [], ◌∷◌, str_eq, ◌≡◌, ◌∙◌, refl, ap, arith, eq_iff, Bool-cases, inl,
  inr,
}
use tronvent.Migrate.{
  Database, Outside, version_of, comes_first, insert_name, sort_names, apply_entries,
  applied_versions, is_empty, up,
}
use tronvent.Migrate.Loop.{
  has_version, VersionsUnique, AgreeOn-refl, ReadsFiles, NoFailure, resumed,
}

-- The order of the files changes nothing of that.
has_version-insert_name :
    (v x : String) (ns : List String) → has_version v (insert_name x ns) ≡ has_version v (x ∷ ns)
unfolding insert_name
has_version-insert_name v x [] = refl
has_version-insert_name v x (n ∷ ns) = elim (Bool-cases (comes_first (compare x n))) [
  | inl e ↦ rw e
  | inr e ↦ rw (e, has_version-insert_name v x ns) (ground arith)
]

has_version-sort_names :
    (v : String) (ns : List String) → has_version v (sort_names ns) ≡ has_version v ns
unfolding sort_names
has_version-sort_names v [] = refl
has_version-sort_names v (n ∷ ns) =
    has_version-insert_name v n (sort_names ns)
    ∙ ap (λ b. str_eq (version_of n) v || b) (has_version-sort_names v ns)

insert_name-VersionsUnique :
    (x : String) (ns : List String)
    → has_version (version_of x) ns ≡ false
    → VersionsUnique ns
    → VersionsUnique (insert_name x ns)
unfolding insert_name
insert_name-VersionsUnique x [] h u = (refl, tt)
insert_name-VersionsUnique x (n ∷ ns) h u = elim (Bool-cases (comes_first (compare x n))) [
  | inl e ↦ rw e (h, u)
  | inr e ↦
      let apart : has_version (version_of n) (x ∷ ns) ≡ false = ground (
        arith,
        h,
        u.0,
        eq_iff (version_of n) (version_of x),
        eq_iff (version_of x) (version_of n),
      ) in
      rw e (
        has_version-insert_name (version_of n) x ns ∙ apart,
        insert_name-VersionsUnique x ns (ground (arith, h)) u.1,
      )
]

sort_names-VersionsUnique : (ns : List String) → VersionsUnique ns → VersionsUnique (sort_names ns)
unfolding sort_names
sort_names-VersionsUnique [] u = tt
sort_names-VersionsUnique (n ∷ ns) u =
    insert_name-VersionsUnique n (sort_names ns) (has_version-sort_names (version_of n) ns ∙ u.0)
      (sort_names-VersionsUnique ns u.1)

-- Let the files have different versions, and let a run of the migrations read them as they are, or fail
-- anywhere: in listing the recorded versions, in reading, running, recording or committing a file. A later
-- run that meets no failure ends with the state of the database (the versions recorded and the texts run,
-- in their order) and the result of one run that meets no failure from the start.
pub up-resumed :
    (text : String → String) (o ok : Outside) (names : List String) (db : Database)
    → ReadsFiles text o
    → NoFailure text ok
    → VersionsUnique names
    → up ok names (up o names db).0 ≡ up ok names db
unfolding up apply_entries
up-resumed text o ok names db r g u = elim (Bool-cases (is_empty (sort_names names))) [
  | inl e ↦ rw e
  | inr e ↦ elim (Bool-cases o.can_list) [
    | inl l ↦
        rw (e, l, g.lists)
          (resumed text o ok r g (applied_versions db) (sort_names names) db
            (sort_names-VersionsUnique names u)
            (AgreeOn-refl (applied_versions db) (sort_names names)))
    | inr l ↦ rw (e, l)
  ]
]
