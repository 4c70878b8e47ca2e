-- ===== src/Migrate/Examples.antt =====
-- A directory of two scripts, and a run whose last commit is cut off.
use unified_service_schedule.Common.{
  any, not, String, ◌≡◌, refl, true, false, Option, none, some, List, [], ◌∷◌, ◌==◌, if◌then◌else◌,
}
use unified_service_schedule.Migrate.{
  Entry, committed, lost, Faults, Database, migration_files, migrate_files,
}
use unified_service_schedule.Migrate.Runs.{Consistent, replay, migrate_files-Consistent}
use unified_service_schedule.Migrate.Again.{migrate_again}
use unified_service_schedule.Migrate.Databases.{
  Site, databases, migrate_database, main, main_isolates,
}

abbrev directory : List Entry
directory =
    record { name = "002_seed.sql"; is_dir = false }
    ∷ record { name = "notes.md"; is_dir = false }
    ∷ record { name = "old.sql"; is_dir = true }
    ∷ record { name = "001_init.sql"; is_dir = false }
    ∷ []

abbrev files : List String
files = "001_init.sql" ∷ "002_seed.sql" ∷ []

files-sorted : migration_files directory ≡ some files
unfolding migration_files
files-sorted = refl

-- A script that has a number and a name only is an error.
unnumbered : migration_files (record { name = "init.sql"; is_dir = false } ∷ directory) ≡ none
unfolding migration_files
unnumbered = refl

-- Each script leaves its name.
abbrev script : String → Option (List String → Option (List String))
script f = some (λ done. some (f ∷ done))

abbrev none_fails : String → Faults
none_fails f = record {
  query_fails = false;
  begin_fails = false;
  insert_fails = false;
  commit = committed;
}

-- The commit of the seed is cut off, but has gone through.
abbrev cut_off : String → Faults
cut_off f = record {
  query_fails = false;
  begin_fails = false;
  insert_fails = false;
  commit = if f == "002_seed.sql" then lost else committed;
}

abbrev fresh : Database (List String)
fresh = record { content = []; applied = [] }

migrate_files-Consistent_example : Consistent script [] (migrate_files script cut_off files fresh).1
unfolding replay
migrate_files-Consistent_example =
    migrate_files-Consistent script [] cut_off files fresh (record { made = refl; distinct = tt })

abbrev filled : Database (List String)
filled = record { content = "001_init.sql" ∷ []; applied = "001_init.sql" ∷ [] }

migrate_again_example :
    let done = (migrate_files script none_fails files filled).1 in
    migrate_files script none_fails files done ≡ (true, done)
migrate_again_example =
    migrate_again script none_fails none_fails files filled (unfold migrate_files in refl)
      (λ f. refl)

-- The technicians' database cannot be reached.
abbrev site : String → Site (List String)
site n = record {
  connect_fails = n == "technician";
  entries = some directory;
  create_fails = false;
  script = script;
  faults = none_fails;
}

main_isolates_example :
    ((n : String)
      → (main site (λ n. fresh)).1 n
        ≡ (if any (λ m. m == n) databases then (migrate_database (site n) fresh).1 else fresh))
    × ((main site (λ n. fresh)).0 ≡ any (λ n. not (migrate_database (site n) fresh).0) databases)
main_isolates_example = main_isolates site (λ n. fresh)

main_fails : (main site (λ n. fresh)).0 ≡ true
unfolding main migration_files migrate_files
main_fails = refl
