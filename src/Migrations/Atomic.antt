-- ===== src/Migrations/Atomic.antt =====
-- One migration is applied as a whole, and recorded, or not at all.
use pyronites.Base.{
  ◌≡◌, ◌||◌, true, Option, List, [], ◌∷◌, ◌++◌, Text, text_eq_refl, member, map, arith, refl,
  Option-cases, inl, inr, ◌⊎◌,
}
use pyronites.Db.{Exc, Result, ok, err, Conn, execute}
use pyronites.Db.Transaction.{
  transaction_aborts, transaction_returned, bind_returned, execute_returned,
}
use pyronites.Migrations.{
  MigDb, MigrationRow, Effect, recorded, extract_migration_id, basename, insert_migration,
  run_statements, migrate_block, migrate, apply_migration,
}
use pyronites.Migrations.Scan.{parse_lines, start}

pub member-append :
    (x : Text) (xs ys : List Text) → member x (xs ++ ys) ≡ (member x xs || member x ys)
unfolding member
member-append x [] ys = refl
member-append x (y ∷ xs) ys = ground (arith, member-append x xs ys)

pub ids-append :
    (rows : List MigrationRow) (r : MigrationRow)
    → map (λ r. r.id) (rows ++ r ∷ []) ≡ map (λ r. r.id) rows ++ r.id ∷ []
ids-append [] r = refl
ids-append (q ∷ rows) r = ground (arith, ids-append rows r)

Result-cases : {A : Type 0} (r : Result A) → ((a : A) × (r ≡ ok a)) ⊎ ((e : Exc) × (r ≡ err e))
Result-cases (ok a) = inl (a, refl)
Result-cases (err e) = inr (e, refl)

module _ {S : Type 0} (run_sql : Text → MigDb S → Effect S) where
  migrate_aborts :
      (id name : Text) (lines : List Text) (w : Conn (MigDb S)) (e : Exc)
      → (migrate run_sql id name lines w).0 ≡ err e
      → (migrate run_sql id name lines w).1.tables ≡ w.tables
  unfolding migrate
  migrate_aborts id name lines w e h = transaction_aborts _ w e h

  inserted :
      (row : MigrationRow) (db : MigDb S)
      → (insert_migration row db).0 ≡ ok tt
      → member row.id (recorded (insert_migration row db).1) ≡ true
  unfolding insert_migration member
  inserted row db h = elim (Option-cases db.migrations) [
    | inl missing ↦ absurd (ground arith)
    | inr (rows, there) ↦ ground (
      arith,
      ids-append rows row,
      member-append row.id (map (λ r. r.id) rows) (row.id ∷ []),
      text_eq_refl row.id,
    )
  ]

  migrate_records :
      (id name : Text) (lines : List Text) (w : Conn (MigDb S))
      → (migrate run_sql id name lines w).0 ≡ ok tt
      → member id (recorded (migrate run_sql id name lines w).1.tables) ≡ true
  unfolding migrate
  migrate_records id name lines w h =
      let row : MigrationRow = record { id = id; name = name } in
      let block = migrate_block run_sql id name lines in
      let (faults, returned, same) = transaction_returned block w tt h in
      let scripts = run_statements run_sql (parse_lines lines start) in
      let before : Conn (MigDb S) = record { tables = w.tables; faults = faults } in
      let (_, _, stored, after) =
        bind_returned scripts (λ _. execute (insert_migration row)) before tt returned in
      let (fresh, written) = execute_returned (insert_migration row) (scripts before).1 tt stored in
      let there = inserted row (scripts before).1.tables fresh in ground arith

  module _ (read : Text → Option (List Text)) (path : Text) (w : Conn (MigDb S)) where
    -- A migration that raises, at whatever statement, leaves the database as it was: neither its
    -- statements nor its record are there.
    apply_migration_aborts :
        (e : Exc)
        → (apply_migration run_sql read path w).0 ≡ err e
        → (apply_migration run_sql read path w).1.tables ≡ w.tables
    unfolding apply_migration
    apply_migration_aborts e h = elim (Result-cases (extract_migration_id path)) [
      | inr (e', bad) ↦ rw bad
      | inl (id, good) ↦ elim (Option-cases (read path)) [
        | inl unreadable ↦ rw (good, unreadable)
        | inr (lines, text) ↦ elim (Result-cases (migrate run_sql id (basename path) lines w).0) [
          | inl (x, returned) ↦ absurd (ground arith)
          | inr (e', failed) ↦
              rw (good, text, failed) (migrate_aborts id (basename path) lines w e' failed)
        ]
      ]
    ]

    -- A migration that returns is recorded.
    pub apply_migration_records :
        (id : Text)
        → (apply_migration run_sql read path w).0 ≡ ok tt
        → extract_migration_id path ≡ ok id
        → member id (recorded (apply_migration run_sql read path w).1.tables) ≡ true
    unfolding apply_migration
    apply_migration_records id h good = elim (Option-cases (read path)) [
      | inl unreadable ↦ absurd (ground arith)
      | inr (lines, text) ↦ elim (Result-cases (migrate run_sql id (basename path) lines w).0) [
        | inl (x, returned) ↦
            rw (good, text, returned) (migrate_records id (basename path) lines w (ground arith))
        | inr (e', failed) ↦ absurd (ground arith)
      ]
    ]
