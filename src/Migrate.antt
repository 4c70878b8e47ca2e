-- ===== src/Migrate.antt =====
-- The migration runner: migrateDatabase and migrationFiles of backend/shared/migrate/main.go, for
-- one database, and in Databases main. What the scripts do, and the disk, are parameters.
pub mod Runs
pub mod Again
pub mod Databases
mod Examples
use Prim.Native.Char.{code}
use unified_service_schedule.Common.{
  ℕ, String, Bool, true, false, not, ◌&&◌, ◌||◌, Option, none, some, List, [], ◌∷◌, ◌==◌, any, ltb,
  leb, eqb, if◌then◌else◌,
}

-- What an entry of the directory is.
pub record Entry : Type 0 where
  pub name : String
  pub is_dir : Bool

-- strings.HasSuffix
unfoldable pub has_suffix : String → String → Bool
has_suffix String.[] suffix = suffix == ""
has_suffix (String.◌∷◌ c s) suffix =
    let rest = has_suffix s suffix in (String.◌∷◌ c s == suffix) || rest

-- The first byte lies between '0' and '9'; with the suffix, three bytes are always there.
unfoldable pub numbered : String → Bool
numbered String.[] = false
numbered (String.◌∷◌ c s) = leb 48 (code c) && leb (code c) 57

-- The order of sort.Strings, which for UTF-8 is that of the code points.
unfoldable pub text_le : String → String → Bool
text_le String.[] t = true
text_le (String.◌∷◌ c s) String.[] = false
text_le (String.◌∷◌ c s) (String.◌∷◌ d t) =
    let rest = text_le s t in ltb (code c) (code d) || (eqb (code c) (code d) && rest)

unfoldable pub insert_name : String → List String → List String
unfolding text_le
insert_name f [] = f ∷ []
insert_name f (g ∷ gs) = if text_le f g then f ∷ g ∷ gs else g ∷ insert_name f gs

unfoldable pub sort_names : List String → List String
unfolding insert_name
sort_names [] = []
sort_names (f ∷ fs) = insert_name f (sort_names fs)

abbrev cons_name : String → Option (List String) → Option (List String)
cons_name f none = none
cons_name f (some fs) = some (f ∷ fs)

-- The names of the scripts; an entry that is not numbered is an error.
unfoldable pub script_names : List Entry → Option (List String)
unfolding has_suffix numbered
script_names [] = some []
script_names (e ∷ es) =
    let rest = script_names es in
    if e.is_dir || not (has_suffix e.name ".sql")
    then rest
    else if numbered e.name
    then cons_name e.name rest
    else none

abbrev sorted : Option (List String) → Option (List String)
sorted none = none
sorted (some fs) = some (sort_names fs)

unfoldable pub migration_files : List Entry → Option (List String)
unfolding script_names sort_names
migration_files entries = sorted (script_names entries)

-- How a Commit ends: an error may also come after the server has committed.
pub data Commit : Type 0 where
  committed refused lost : Commit

-- The errors that the driver reports while the file is looked at.
pub record Faults : Type 0 where
  pub query_fails : Bool
  pub begin_fails : Bool
  pub insert_fails : Bool
  pub commit : Commit

-- The database's content, and the names in schema_migrations, the latest first.
pub record Database (D : Type 0) : Type 0 where
  pub content : D
  pub applied : List String

-- `script` is os.ReadFile, then tx.Exec on the content.
module _ {D : Type 0} (script : String → Option (D → Option D)) (faults : String → Faults) where
  unfoldable pub is_applied : String → List String → Bool
  is_applied f names = any (λ g. g == f) names

  unfoldable pub finish : Commit → Database D → Database D → Bool × Database D
  finish committed new old = (true, new)
  finish refused new old = (false, old)
  finish lost new old = (false, new)

  -- after tx.Exec of the script
  unfoldable pub record_applied : String → Option D → Database D → Bool × Database D
  unfolding finish
  record_applied f none db = (false, db)
  record_applied f (some c) db =
      if (faults f).insert_fails
      then (false, db)
      else finish (faults f).commit (record { content = c; applied = f ∷ db.applied }) db

  unfoldable pub run_script : String → Option (D → Option D) → Database D → Bool × Database D
  unfolding record_applied
  run_script f none db = (false, db)
  run_script f (some sql) db =
      if (faults f).begin_fails then (false, db) else record_applied f (sql db.content) db

  -- One round of the loop: whether it goes on.
  unfoldable pub migrate_file : String → Database D → Bool × Database D
  unfolding is_applied run_script
  migrate_file f db =
      if (faults f).query_fails
      then (false, db)
      else if is_applied f db.applied
      then (true, db)
      else run_script f (script f) db

  unfoldable pub migrate_files : List String → Database D → Bool × Database D
  unfolding migrate_file
  migrate_files [] db = (true, db)
  migrate_files (f ∷ fs) db =
      let (goes_on, next) = migrate_file f db in
      let rest = migrate_files fs next in if goes_on then rest else (false, next)
