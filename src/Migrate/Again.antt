-- ===== src/Migrate/Again.antt =====
-- Running the migrations of backend/shared/migrate/main.go again.
use unified_service_schedule.Common.{
  String, ◌≡◌, refl, true, false, Option, none, some, List, [], ◌∷◌, ◌==◌, eq_refl, arith, any, In,
  here, there, Option-cases, inl, inr,
}
use unified_service_schedule.Migrate.{
  Commit, committed, refused, lost, Faults, Database, finish, record_applied, run_script,
  migrate_file, migrate_files,
}

module _ {D : Type 0} (script : String → Option (D → Option D)) where
  finish-keeps :
      (faults : String → Faults) (c : Commit) (f g : String) (d : D) (db : Database D)
      → any (λ h. h == g) db.applied ≡ true
      → any
          (λ h. h == g)
          (finish script faults c (record { content = d; applied = f ∷ db.applied }) db).1.applied
        ≡ true
  unfolding finish
  finish-keeps faults committed f g d db h = ground arith
  finish-keeps faults refused f g d db h = h
  finish-keeps faults lost f g d db h = ground arith

  record_applied-keeps :
      (faults : String → Faults) (f g : String) (o : Option D) (db : Database D)
      → any (λ h. h == g) db.applied ≡ true
      → any (λ h. h == g) (record_applied script faults f o db).1.applied ≡ true
  unfolding record_applied
  record_applied-keeps faults f g none db h = h
  record_applied-keeps faults f g (some d) db h =
      ground (arith, finish-keeps faults (faults f).commit f g d db h)

  run_script-keeps :
      (faults : String → Faults) (f g : String) (o : Option (D → Option D)) (db : Database D)
      → any (λ h. h == g) db.applied ≡ true
      → any (λ h. h == g) (run_script script faults f o db).1.applied ≡ true
  unfolding run_script
  run_script-keeps faults f g none db h = h
  run_script-keeps faults f g (some sql) db h =
      ground (arith, record_applied-keeps faults f g (sql db.content) db h)

  migrate_file-keeps :
      (faults : String → Faults) (f g : String) (db : Database D)
      → any (λ h. h == g) db.applied ≡ true
      → any (λ h. h == g) (migrate_file script faults f db).1.applied ≡ true
  unfolding migrate_file
  migrate_file-keeps faults f g db h = ground (arith, run_script-keeps faults f g (script f) db h)

  finish-applies :
      (faults : String → Faults) (c : Commit) (f : String) (d : D) (db : Database D)
      → (finish script faults c (record { content = d; applied = f ∷ db.applied }) db).0 ≡ true
      → any
          (λ h. h == f)
          (finish script faults c (record { content = d; applied = f ∷ db.applied }) db).1.applied
        ≡ true
  unfolding finish
  finish-applies faults committed f d db h = ground (arith, eq_refl f)
  finish-applies faults refused f d db h = cc
  finish-applies faults lost f d db h = cc

  run_script-applies :
      (faults : String → Faults) (f : String) (o : Option (D → Option D)) (db : Database D)
      → (run_script script faults f o db).0 ≡ true
      → any (λ h. h == f) (run_script script faults f o db).1.applied ≡ true
  unfolding run_script record_applied
  run_script-applies faults f none db h = cc
  run_script-applies faults f (some sql) db h = elim (Option-cases (sql db.content)) [
    | inl e ↦ absurd (ground (arith, e))
    | inr (d, e) ↦ ground (arith, e, finish-applies faults (faults f).commit f d db)
  ]

  migrate_file-applies :
      (faults : String → Faults) (f : String) (db : Database D)
      → (migrate_file script faults f db).0 ≡ true
      → any (λ h. h == f) (migrate_file script faults f db).1.applied ≡ true
  unfolding migrate_file
  migrate_file-applies faults f db h = ground (arith, run_script-applies faults f (script f) db)

  migrate_files-keeps :
      (faults : String → Faults) (fs : List String) (g : String) (db : Database D)
      → any (λ h. h == g) db.applied ≡ true
      → any (λ h. h == g) (migrate_files script faults fs db).1.applied ≡ true
  unfolding migrate_files
  migrate_files-keeps faults [] g db h = h
  migrate_files-keeps faults (f ∷ fs) g db h =
      let step = migrate_file-keeps faults f g db h in
      ground (arith, step, migrate_files-keeps faults fs g (migrate_file script faults f db).1 step)

  -- A file that is recorded is passed over.
  migrate_file-again :
      (faults : String → Faults) (f : String) (db : Database D)
      → (faults f).query_fails ≡ false
      → any (λ h. h == f) db.applied ≡ true
      → migrate_file script faults f db ≡ (true, db)
  unfolding migrate_file
  migrate_file-again faults f db q h = ground (arith, q, h)

  migrate_files-skip :
      (faults : String → Faults) (fs : List String) (db : Database D)
      → ((f : String) → (faults f).query_fails ≡ false)
      → ((f : String) → In f fs → any (λ h. h == f) db.applied ≡ true)
      → migrate_files script faults fs db ≡ (true, db)
  unfolding migrate_files
  migrate_files-skip faults [] db q all = refl
  migrate_files-skip faults (f ∷ fs) db q all =
      rw (migrate_file-again faults f db (q f) (all f (here refl)))
        (migrate_files-skip faults fs db q (λ g m. all g (there m)))

  -- A run that ends well has recorded every file.
  migrate_files-applies :
      (faults : String → Faults) (fs : List String) (f : String) (db : Database D)
      → (migrate_files script faults fs db).0 ≡ true
      → In f fs
      → any (λ h. h == f) (migrate_files script faults fs db).1.applied ≡ true
  unfolding migrate_files
  migrate_files-applies faults [] f db h m = elim m [ ]
  migrate_files-applies faults (g ∷ fs) f db h (here p) =
      let on : (migrate_file script faults g db).0 ≡ true = ground arith in
      let step : any (λ h. h == f) (migrate_file script faults g db).1.applied ≡ true =
        rw (← p) (migrate_file-applies faults g db on) in
      ground (arith, on, migrate_files-keeps faults fs f (migrate_file script faults g db).1 step)
  migrate_files-applies faults (g ∷ fs) f db h (there m) =
      let next = (migrate_file script faults g db).1 in
      ground (arith, migrate_files-applies faults fs f next)

  -- After a run that ended well, a run of the same files in which the database answers the queries
  -- changes nothing and ends well.
  pub migrate_again :
      (faults later : String → Faults) (fs : List String) (db : Database D)
      → (migrate_files script faults fs db).0 ≡ true
      → ((f : String) → (later f).query_fails ≡ false)
      → let done = (migrate_files script faults fs db).1 in
        migrate_files script later fs done ≡ (true, done)
  migrate_again faults later fs db h q =
      migrate_files-skip later fs (migrate_files script faults fs db).1 q
        (λ f m. migrate_files-applies faults fs f db h m)
