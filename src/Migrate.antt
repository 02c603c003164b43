-- ===== src/Migrate.antt =====
-- internal/migrate/migrate.go: the migrations of the database's schema. The statement of a file is its
-- text, which the database runs or refuses. The creation of the table schema_migrations is left out.
-- Parameters: the files, and where reading, running or recording one fails.
pub mod Loop
pub mod Resume
pub mod Examples
use Prim.Native.Nat.{Ordering}
use Prim.Native.String.{compare}
use tronvent.Base.{
  String, Bool, true, false, not, ◌||◌, Option, none, some, List, [], ◌∷◌, ◌++◌, any, str_eq, ◌≡◌,
  refl, if◌then◌else◌,
}

-- The versions recorded in schema_migrations, and the texts that were run, oldest first.
pub record Database : Type 0 where
  pub versions : List String
  pub executed : List String

-- What the outside answers about a version: whether the table can be read, the file's text (`none` where
-- it cannot be read), and whether the transaction is refused or cannot be committed.
pub record Outside : Type 0 where
  pub can_list : Bool
  pub read_file : String → Option String
  pub refuses : String → Bool

abbrev pub suffix : String
suffix = ".up.sql"

-- strings.TrimSuffix, for a suffix that is not empty
unfoldable pub trim_suffix : String → String → String
trim_suffix p String.[] = String.[]
trim_suffix p (String.◌∷◌ c s) =
    let rest = String.◌∷◌ c (trim_suffix p s) in
    if str_eq (String.◌∷◌ c s) p then String.[] else rest

trims_suffix : trim_suffix suffix "001_init.up.sql" ≡ "001_init"
unfolding trim_suffix
trims_suffix = refl

abbrev pub version_of : String → String
version_of name = trim_suffix suffix name

abbrev pub comes_first : Ordering → Bool
comes_first Ordering.lt = true
comes_first Ordering.eq = true
comes_first Ordering.gt = false

-- sort.Strings
unfoldable pub insert_name : String → List String → List String
insert_name x [] = x ∷ []
insert_name x (y ∷ ys) =
    let rest = insert_name x ys in if comes_first (compare x y) then x ∷ y ∷ ys else y ∷ rest

unfoldable pub sort_names : List String → List String
sort_names [] = []
sort_names (x ∷ xs) = insert_name x (sort_names xs)

abbrev pub has : String → List String → Bool
has v vs = any (λ x. str_eq x v) vs

-- The transaction of one file; the primary key refuses a version that is recorded. `none` is an error.
abbrev pub run_file : Outside → String → Option String → Database → Option Database
run_file o version none db = none
run_file o version (some text) db =
    if o.refuses version || has version db.versions
    then none
    else some
        (record { versions = db.versions ++ version ∷ []; executed = db.executed ++ text ∷ [] })

-- The state after an error, or the rest of the loop. The Boolean is true for nil.
abbrev pub go_on : Option Database → Database → (Database → Database × Bool) → Database × Bool
go_on none db rest = (db, false)
go_on (some db') db rest = rest db'

-- The loop over the files; `applied` is the map that was read before it.
unfoldable pub apply_entries : Outside → (String → Bool) → List String → Database → Database × Bool
apply_entries o applied [] db = (db, true)
apply_entries o applied (name ∷ names) db =
    if applied (version_of name)
    then apply_entries o applied names db
    else go_on (run_file o (version_of name) (o.read_file name) db) db
        (λ db'. apply_entries o applied names db')

-- appliedVersions
unfoldable pub applied_versions : Database → String → Bool
applied_versions db version = has version db.versions

abbrev pub is_empty : List String → Bool
is_empty [] = true
is_empty (x ∷ xs) = false

-- Up, with the names that match *.up.sql
unfoldable pub up : Outside → List String → Database → Database × Bool
up o names db =
    if is_empty (sort_names names)
    then (db, false)
    else if not o.can_list
    then (db, false)
    else apply_entries o (applied_versions db) (sort_names names) db
