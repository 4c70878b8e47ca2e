-- ===== src/Migrate/Runs.antt =====
-- What the runs of backend/shared/migrate/main.go leave, whether they end well or not.
use unified_service_schedule.Common.{
  String, ◌≡◌, refl, false, Option, none, some, List, [], ◌∷◌, ◌==◌, arith, any, Bool-cases, inl,
  inr,
}
use unified_service_schedule.Migrate.{
  Commit, committed, refused, lost, Faults, Database, finish, record_applied, run_script,
  migrate_file, migrate_files,
}

module _ {D : Type 0} (script : String → Option (D → Option D)) (base : D) where
  abbrev run_on : Option (D → Option D) → Option D → Option D
  run_on none o = none
  run_on (some sql) none = none
  run_on (some sql) (some d) = sql d

  -- The scripts run on the base, the last of the list first.
  unfoldable pub replay : List String → Option D
  replay [] = some base
  replay (f ∷ fs) = run_on (script f) (replay fs)

  -- The recorded names differ.
  abbrev pub Distinct : List String → Type 0
  Distinct [] = Unit {0}
  Distinct (f ∷ fs) = (any (λ g. g == f) fs ≡ false) × Distinct fs

  -- The content is what the recorded scripts, each run once and in the order of the record, made of
  -- the base.
  pub record Consistent (db : Database D) : Type 0 where
    pub made : replay db.applied ≡ some db.content
    pub distinct : Distinct db.applied

  module _ (faults : String → Faults) where
    finish-Consistent :
        (c : Commit) (new old : Database D)
        → Consistent new
        → Consistent old
        → Consistent (finish script faults c new old).1
    unfolding finish
    finish-Consistent committed new old n o = n
    finish-Consistent refused new old n o = o
    finish-Consistent lost new old n o = n

    record_applied-Consistent :
        (f : String) (sql : D → Option D) (o : Option D) (db : Database D)
        → script f ≡ some sql
        → sql db.content ≡ o
        → any (λ g. g == f) db.applied ≡ false
        → Consistent db
        → Consistent (record_applied script faults f o db).1
    unfolding record_applied replay
    record_applied-Consistent f sql none db e q n c = c
    record_applied-Consistent f sql (some d) db e q n c =
        let new : Database D = record { content = d; applied = f ∷ db.applied } in
        let made : replay new.applied ≡ some d = ground (arith, e, q, c.made) in
        let done =
          finish-Consistent (faults f).commit new db
            (record { made = made; distinct = (n, c.distinct) }) c in
        ground (arith, c, done)

    run_script-Consistent :
        (f : String) (o : Option (D → Option D)) (db : Database D)
        → script f ≡ o
        → any (λ g. g == f) db.applied ≡ false
        → Consistent db
        → Consistent (run_script script faults f o db).1
    unfolding run_script
    run_script-Consistent f none db e n c = c
    run_script-Consistent f (some sql) db e n c =
        ground (arith, c, record_applied-Consistent f sql (sql db.content) db e refl n c)

    migrate_file-Consistent :
        (f : String) (db : Database D)
        → Consistent db
        → Consistent (migrate_file script faults f db).1
    unfolding migrate_file
    migrate_file-Consistent f db c = elim (Bool-cases (any (λ g. g == f) db.applied)) [
      | inl e ↦ ground (arith, c, e)
      | inr e ↦ ground (arith, c, e, run_script-Consistent f (script f) db refl e c)
    ]

    -- If the recorded scripts, each run once in the order of the record, had made the content
    -- before a run, they have made it after the run too, whatever fails in it: no script runs
    -- twice, and none is left in part.
    pub migrate_files-Consistent :
        (fs : List String) (db : Database D)
        → Consistent db
        → Consistent (migrate_files script faults fs db).1
    unfolding migrate_files
    migrate_files-Consistent [] db c = c
    migrate_files-Consistent (f ∷ fs) db c =
        let step = migrate_file-Consistent f db c in
        let rest = migrate_files-Consistent fs (migrate_file script faults f db).1 step in
        ground (arith, step, rest)
