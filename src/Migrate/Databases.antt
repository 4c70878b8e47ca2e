-- ===== src/Migrate/Databases.antt =====
-- The four databases of main and migrateDatabase, in backend/shared/migrate/main.go.
use unified_service_schedule.Common.{
  String, ◌≡◌, refl, subst, ap, ◌∙◌, Bool, true, false, not, ◌||◌, Option, none, some, List, [],
  ◌∷◌, ◌==◌, any, Unlike, arith, eq_iff, if◌then◌else◌, Bool-cases, inl, inr,
}
use unified_service_schedule.Migrate.{Entry, Faults, Database, migration_files, migrate_files}

-- Of one database: whether the connection fails, what os.ReadDir gives, whether the CREATE TABLE IF
-- NOT EXISTS of schema_migrations fails, the scripts, and the errors at each file.
pub record Site (D : Type 0) : Type 0 where
  pub connect_fails : Bool
  pub entries : Option (List Entry)
  pub create_fails : Bool
  pub script : String → Option (D → Option D)
  pub faults : String → Faults

abbrev files_of : Option (List Entry) → Option (List String)
files_of none = none
files_of (some entries) = migration_files entries

abbrev pub databases : List String
databases = "catalog" ∷ "technician" ∷ "bay" ∷ "booking" ∷ []

or_assoc : (a b c : Bool) → ((a || b) || c) ≡ (a || (b || c))
or_assoc true b c = refl
or_assoc false b c = refl

module _ {D : Type 0} where
  -- after migrationFiles
  unfoldable pub apply_files : Site D → Option (List String) → Database D → Bool × Database D
  apply_files site none db = (false, db)
  apply_files site (some fs) db =
      if site.create_fails then (false, db) else migrate_files site.script site.faults fs db

  -- Whether it ends without an error, and the database then.
  unfoldable pub migrate_database : Site D → Database D → Bool × Database D
  unfolding apply_files
  migrate_database site db =
      if site.connect_fails then (false, db) else apply_files site (files_of site.entries) db

  abbrev put : String → Database D → (String → Database D) → String → Database D
  put n d s m = if n == m then d else s m

  -- The loop of main: an error is remembered in `failed`.
  unfoldable pub migrate_all :
      (String → Site D) → List String → Bool → (String → Database D) → Bool × (String → Database D)
  unfolding migrate_database
  migrate_all sites [] failed s = (failed, s)
  migrate_all sites (n ∷ ns) failed s =
      let (good, d) = migrate_database (sites n) (s n) in
      migrate_all sites ns (failed || not good) (put n d s)

  -- Whether the process exits with 1, and the databases.
  unfoldable pub main : (String → Site D) → (String → Database D) → Bool × (String → Database D)
  unfolding migrate_all
  main sites s = migrate_all sites databases false s

  module _ (sites : String → Site D) where
    abbrev fails : (String → Database D) → String → Bool
    fails s n = not (migrate_database (sites n) (s n)).0

    migrate_all-other :
        (ns : List String) (failed : Bool) (s : String → Database D) (m : String)
        → any (λ n. n == m) ns ≡ false
        → (migrate_all sites ns failed s).1 m ≡ s m
    unfolding migrate_all
    migrate_all-other [] failed s m h = refl
    migrate_all-other (n ∷ ns) failed s m h =
        let other : (n == m) ≡ false = ground (arith, h) in
        migrate_all-other ns (failed || fails s n) (put n (migrate_database (sites n) (s n)).1 s) m
          (ground (arith, h))
        ∙ rw other refl

    migrate_all-each :
        (ns : List String) (failed : Bool) (s : String → Database D) (m : String)
        → Unlike (λ a b. b == a) ns
        → (migrate_all sites ns failed s).1 m
          ≡ (if any (λ n. n == m) ns then (migrate_database (sites m) (s m)).1 else s m)
    unfolding migrate_all
    migrate_all-each [] failed s m v = refl
    migrate_all-each (n ∷ ns) failed s m v = elim (Bool-cases (n == m)) [
      | inl e ↦
          let same : n ≡ m = (eq_iff n m).0 e in
          let fresh : any (λ b. b == m) ns ≡ false =
            subst (λ x. any (λ b. b == x) ns ≡ false) same v.0 in
          migrate_all-other ns (failed || fails s n) (put n (migrate_database (sites n) (s n)).1 s)
            m fresh
          ∙ rw e (ap (λ x. (migrate_database (sites x) (s x)).1) same)
      | inr e ↦
          let d = (migrate_database (sites n) (s n)).1 in
          let kept : put n d s m ≡ s m = rw e refl in
          rw e (
            migrate_all-each ns (failed || fails s n) (put n d s) m v.1
            ∙ ap (λ x. if any (λ b. b == m) ns then (migrate_database (sites m) x).1 else x) kept)
    ]

    fails-put :
        (n : String) (d : Database D) (s : String → Database D) (ns : List String)
        → any (λ b. b == n) ns ≡ false
        → any (fails (put n d s)) ns ≡ any (fails s) ns
    fails-put n d s [] h = refl
    fails-put n d s (m ∷ ns) h =
        let other : (n == m) ≡ false = ground (arith, h, eq_iff n m, eq_iff m n) in
        let kept : put n d s m ≡ s m = rw other refl in
        rw (ap (λ x. (migrate_database (sites m) x).0) kept)
          (ap (λ b. fails s m || b) (fails-put n d s ns (ground (arith, h))))

    migrate_all-failed :
        (ns : List String) (failed : Bool) (s : String → Database D)
        → Unlike (λ a b. b == a) ns
        → (migrate_all sites ns failed s).0 ≡ (failed || any (fails s) ns)
    unfolding migrate_all
    migrate_all-failed [] failed s v = ground arith
    migrate_all-failed (n ∷ ns) failed s v =
        let d = (migrate_database (sites n) (s n)).1 in
        migrate_all-failed ns (failed || fails s n) (put n d s) v.1
        ∙ ap (λ b. (failed || fails s n) || b) (fails-put n d s ns v.0)
        ∙ or_assoc failed (fails s n) (any (fails s) ns)

    -- Each of the four databases ends as migrateDatabase leaves it by itself, whatever happens to the
    -- others, any other database stays as it is, and the process reports a failure exactly if one of
    -- the four failed.
    pub main_isolates :
        (s : String → Database D)
        → ((n : String)
            → (main sites s).1 n
              ≡ (if any (λ m. m == n) databases then (migrate_database (sites n) (s n)).1 else s n))
          × ((main sites s).0 ≡ any (λ n. not (migrate_database (sites n) (s n)).0) databases)
    unfolding main
    main_isolates s =
        let distinct : Unlike (λ a b. b == a) databases = (refl, (refl, (refl, (refl, tt)))) in
        (
          (λ n. migrate_all-each databases false s n distinct),
          migrate_all-failed databases false s distinct,
        )
