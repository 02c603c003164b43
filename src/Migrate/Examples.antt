-- ===== src/Migrate/Examples.antt =====
-- A run of the migrations that fails at its second file (internal/migrate/migrate.go).
use tronvent.Base.{String, ◌<>◌, List, true, false, some, [], ◌∷◌, str_eq, ◌≡◌, refl, inr}
use tronvent.Migrate.{
  Database, Outside, up, sort_names, insert_name, apply_entries, applied_versions, trim_suffix,
}
use tronvent.Migrate.Loop.{ReadsFiles, NoFailure, VersionsUnique}
use tronvent.Migrate.Resume.{up-resumed}

abbrev text : String → String
text name = "sql of " <> name

-- The database refuses 002_b.
abbrev failing : Outside
failing = record {
  can_list = true;
  read_file = λ n. some (text n);
  refuses = λ v. str_eq v "002_b";
}

abbrev working : Outside
working = record { can_list = true; read_file = λ n. some (text n); refuses = λ v. false }

abbrev fresh : Database
fresh = record { versions = []; executed = [] }

abbrev names : List String
names = "002_b.up.sql" ∷ "001_a.up.sql" ∷ []

stops_at_second :
    up failing names fresh
    ≡ (record { versions = "001_a" ∷ []; executed = "sql of 001_a.up.sql" ∷ [] }, false)
unfolding up sort_names insert_name apply_entries applied_versions trim_suffix
stops_at_second = refl

failing-ReadsFiles : ReadsFiles text failing
failing-ReadsFiles = record { reads = λ n. inr refl }

working-NoFailure : NoFailure text working
working-NoFailure = record { lists = refl; reads = λ n. refl; accepts = λ v. refl }

names-VersionsUnique : VersionsUnique names
unfolding trim_suffix
names-VersionsUnique = (refl, (refl, tt))

up-resumed_example : up working names (up failing names fresh).0 ≡ up working names fresh
up-resumed_example =
    up-resumed text failing working names fresh failing-ReadsFiles working-NoFailure
      names-VersionsUnique
