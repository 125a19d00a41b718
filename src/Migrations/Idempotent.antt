-- ===== src/Migrations/Idempotent.antt =====
-- Running the migrations again does nothing.
use pyronites.Base.{
  ◌≡◌, ◌⊎◌, true, Option, none, some, List, [], ◌∷◌, Text, member, map, arith, refl, subst, sym,
  if◌then◌else◌, All, Bool-cases, Option-cases, inl, inr, ◌∙◌,
}
use pyronites.Db.{Exc, ok, Conn, healthy, execute, lift, duplicate_column, database_error, ◌>>=◌}
use pyronites.Db.Preserves.{
  Preserves, Preserves-execute, Preserves-catch, Preserves-bind, Preserves-bind-lift,
  Preserves-raise, Preserves-pure, Preserves-transaction,
}
use pyronites.Db.Transaction.{bind_returned}
use pyronites.Migrations.{
  MigDb, MigrationRow, Effect, done, raises, outcome, skip_duplicate, recorded,
  extract_migration_id, basename, insert_migration, run_statements, migrate_block, migrate,
  apply_text, apply_migration, apply_all, pending_of, get_applied_migrations, get_migration_files,
  run_pending_migrations,
}
use pyronites.Migrations.Scan.{parse_lines, start}
use pyronites.Migrations.Atomic.{member-append, ids-append, apply_migration_records}

abbrev Has : {S : Type 0} → Text → MigDb S → Type 0
Has x db = member x (recorded db) ≡ true

-- the file's id is among `ids`
abbrev pub Recorded : List Text → Text → Type 0
Recorded ids f = (id : Text) × (extract_migration_id f ≡ ok id) × (member id ids ≡ true)

-- with every file recorded nothing is pending
nothing_pending : (ids fs : List Text) → All (Recorded ids) fs → pending_of ids fs ≡ ok []
unfolding pending_of
nothing_pending ids [] h = refl
nothing_pending ids (f ∷ fs) h =
    let (id, named, known) = h.0 in ground (arith, nothing_pending ids fs h.1)

pending_cons :
    (applied : List Text) (f : Text) (fs gs : List Text)
    → pending_of applied (f ∷ fs) ≡ ok gs
    → (id : Text) × (hs : List Text) × (extract_migration_id f ≡ ok id)
      × (pending_of applied fs ≡ ok hs)
      × (gs ≡ (if member id applied then hs else f ∷ hs))
unfolding pending_of
pending_cons applied f fs gs h = ground arith

-- once what was pending is recorded too, every file is
pending_cover :
    (applied ids fs gs : List Text)
    → ((x : Text) → member x applied ≡ true → member x ids ≡ true)
    → pending_of applied fs ≡ ok gs
    → All (Recorded ids) gs
    → All (Recorded ids) fs
unfolding pending_of
pending_cover applied ids [] gs le h a = tt
pending_cover applied ids (f ∷ fs) gs le h a =
    let (id, hs, named, others, shape) = pending_cons applied f fs gs h in
    elim (Bool-cases (member id applied)) [
      | inl old ↦
          let same : gs ≡ hs = ground arith in
          ((id, named, le id old), pending_cover applied ids fs hs le others (rw same at a))
      | inr new ↦
          let more : gs ≡ f ∷ hs = ground arith in
          let b : All (Recorded ids) (f ∷ hs) = rw more at a in
          (b.0, pending_cover applied ids fs hs le others b.1)
    ]

Effect-cases :
    {S : Type 0} (x : Effect S) → ((db : MigDb S) × (x ≡ done db)) ⊎ ((e : Exc) × (x ≡ raises e))
Effect-cases (done db) = inl (db, refl)
Effect-cases (raises e) = inr (e, refl)

module _ {S : Type 0} (run_sql : Text → MigDb S → Effect S)
    (scripts_keep : (s : Text) (db db' : MigDb S) (x : Text)
      → run_sql s db ≡ done db'
      → Has x db
      → Has x db') where
  outcome-Has :
      (x : Text) (s : Text) (db : MigDb S) → Has x db → Has x (outcome (run_sql s db) db).1
  outcome-Has x s db h = elim (Effect-cases (run_sql s db)) [
    | inl (db', ran) ↦ rw ran (scripts_keep s db db' x ran h)
    | inr (e, failed) ↦ rw failed h
  ]

  insert-Has :
      (x : Text) (row : MigrationRow) (db : MigDb S) → Has x db → Has x (insert_migration row db).1
  unfolding insert_migration
  insert-Has x row db h = elim (Option-cases db.migrations) [
    | inl missing ↦ ground arith
    | inr (rows, there) ↦
        ground (arith, ids-append rows row, member-append x (map (λ r. r.id) rows) (row.id ∷ []))
  ]

  skip-Has : (x : Text) (e : Exc) → Preserves {S = MigDb S} (Has x) (skip_duplicate e)
  skip-Has x duplicate_column = Preserves-pure tt
  skip-Has x _ = record { kept = λ w h. h }

  statements-Has : (x : Text) (ss : List Text) → Preserves (Has x) (run_statements run_sql ss)
  unfolding run_statements
  statements-Has x [] = Preserves-pure tt
  statements-Has x (s ∷ ss) =
      Preserves-bind _ _ (Preserves-catch _ _ (Preserves-execute _ (outcome-Has x s)) (skip-Has x))
        (λ _. statements-Has x ss)

  migrate-Has :
      (x id name : Text) (lines : List Text) → Preserves (Has x) (migrate run_sql id name lines)
  unfolding migrate
  migrate-Has x id name lines = Preserves-transaction (migrate_block run_sql id name lines) (
      Preserves-bind (run_statements run_sql (parse_lines lines start)) _
        (statements-Has x (parse_lines lines start))
        (λ _. Preserves-execute _ (insert-Has x (record { id = id; name = name }))))

  module _ (read : Text → Option (List Text)) where
    text-Has :
        (x id name : Text) (o : Option (List Text))
        → Preserves (Has x) (apply_text run_sql read id name o)
    text-Has x id name none = record { kept = λ w h. h }
    text-Has x id name (some lines) = migrate-Has x id name lines

    migration-Has : (x f : Text) → Preserves (Has x) (apply_migration run_sql read f)
    unfolding apply_migration
    migration-Has x f = Preserves-bind-lift (extract_migration_id f) _ (λ id e.
        Preserves-catch _ _ (text-Has x id (basename f) (read f))
          (λ _. Preserves-raise database_error))

    all-Has : (x : Text) (fs : List Text) → Preserves (Has x) (apply_all run_sql read fs)
    unfolding apply_all
    all-Has x [] = Preserves-pure tt
    all-Has x (f ∷ fs) = Preserves-bind _ _ (migration-Has x f) (λ _. all-Has x fs)

    named_of :
        (f : Text) (w : Conn (MigDb S))
        → (apply_migration run_sql read f w).0 ≡ ok tt
        → (id : Text) × (extract_migration_id f ≡ ok id)
    unfolding apply_migration
    named_of f w h = ground arith

    -- files that were applied are recorded
    All-recorded :
        (fs : List Text) (w : Conn (MigDb S))
        → (apply_all run_sql read fs w).0 ≡ ok tt
        → All (Recorded (recorded (apply_all run_sql read fs w).1.tables)) fs
    unfolding apply_all
    All-recorded [] w h = tt
    All-recorded (f ∷ fs) w h =
        let (_, applied, rest, after) =
          bind_returned (apply_migration run_sql read f) (λ _. apply_all run_sql read fs) w tt h in
        let w' = (apply_migration run_sql read f w).1 in
        let (id, named) = named_of f w applied in
        subst (λ v. All (Recorded (recorded v.tables)) (f ∷ fs)) (sym after)
          (
            (
              id,
              named,
              (all-Has id fs).kept w' (apply_migration_records run_sql read f w id applied named),
            ),
            All-recorded fs w' rest,
          )

    -- what is taken for applied is recorded
    applied_recorded :
        (w : Conn (MigDb S)) (ids : List Text) (x : Text)
        → (get_applied_migrations w).0 ≡ ok ids
        → member x ids ≡ true
        → member x (recorded w.tables) ≡ true
    unfolding get_applied_migrations execute member
    applied_recorded w ids x h m = elim (Option-cases w.tables.migrations) [
      | inl missing ↦ absurd (ground arith)
      | inr (rows, there) ↦ ground arith
    ]

    tables-applied : (w : Conn (MigDb S)) → (get_applied_migrations w).1.tables ≡ w.tables
    unfolding get_applied_migrations execute
    tables-applied w = ground arith

    applied_healthy :
        (db : MigDb S) → get_applied_migrations (healthy db) ≡ (ok (recorded db), healthy db)
    unfolding get_applied_migrations execute
    applied_healthy db = elim (Option-cases db.migrations) [
      | inl missing ↦ rw missing
      | inr (rows, there) ↦ rw there
    ]

    nothing_to_do :
        (files : List Text) (db : MigDb S)
        → pending_of (recorded db) (get_migration_files files) ≡ ok []
        → run_pending_migrations run_sql read files (healthy db) ≡ (ok tt, healthy db)
    unfolding run_pending_migrations
    nothing_to_do files db h = rw applied_healthy (rw h)

    module _ (files : List Text) (w : Conn (MigDb S))
        (ran : (run_pending_migrations run_sql read files w).0 ≡ ok tt) where
      abbrev ended : MigDb S
      ended = (run_pending_migrations run_sql read files w).1.tables

      All-files-recorded : All (Recorded (recorded ended)) (get_migration_files files)
      unfolding run_pending_migrations
      All-files-recorded =
          let found = get_migration_files files in
          let w1 = (get_applied_migrations w).1 in
          let (ids, got, rest, after) =
            bind_returned get_applied_migrations
              (λ applied. lift (pending_of applied found) >>= apply_all run_sql read) w tt ran in
          let (gs, pending, applied, after') =
            bind_returned (lift (pending_of ids found)) (apply_all run_sql read) w1 tt rest in
          let le : (x : Text)
              → member x ids ≡ true
              → Has x (apply_all run_sql read gs w1).1.tables =
            λ x m. (all-Has x gs).kept w1 (rw tables-applied (applied_recorded w ids x got m)) in
          subst (λ v. All (Recorded (recorded v.tables)) found) (sym (after ∙ after'))
            (pending_cover ids _ found gs le pending (All-recorded gs w1 applied))

      -- Where no statement of a migration file takes rows out of the migrations table: once
      -- `run_pending_migrations` has returned, every file is recorded, and to run it again (no
      -- statement failing) changes nothing and raises nothing.
      pub run_again :
          All
            (Recorded (recorded (run_pending_migrations run_sql read files w).1.tables))
            (get_migration_files files)
          × (run_pending_migrations run_sql read files
                (healthy (run_pending_migrations run_sql read files w).1.tables)
              ≡ (ok tt, healthy (run_pending_migrations run_sql read files w).1.tables))
      run_again = (
        All-files-recorded,
        nothing_to_do files ended
            (nothing_pending (recorded ended) (get_migration_files files) All-files-recorded),
      )
