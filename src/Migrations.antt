-- ===== src/Migrations.antt =====
-- backend/core/migrations.py: the migration files, their splitting into statements, and the runner.
--
-- The file system and SQLite are parameters: `read` gives a file's text, and `run_sql` the effect
-- of one statement of a file, on the migrations table too. A statement that fails changes nothing.
pub mod Scan
pub mod Parse
pub mod Atomic
pub mod Idempotent
use pyronites.Base.{
  ℕ, ◌+◌, ◌*◌, ◌-◌, Bool, true, false, not, ◌||◌, Option, none, some, List, [], ◌∷◌, ◌++◌, Text,
  codes, text_eq, strip, starts_with, is_digit, member, join, any, map, leb, ◌==◌, if◌then◌else◌,
}
use pyronites.Db.{
  Exc, Result, ok, err, value_error, database_error, operational_error, integrity_error,
  duplicate_column, is_database_error, Conn, Exec, pure, raise, lift, execute, transaction, catch,
  ◌>>=◌, ◌>>◌,
}
use pyronites.Migrations.Scan.{parse_lines, start}

-- the `/` of a path
unfoldable pub basename_from : Text → Text → Text
basename_from cur [] = cur
basename_from cur (c ∷ s) = basename_from (if c == b'/' then [] else cur ++ c ∷ []) s

-- os.path.basename
unfoldable pub basename : Text → Text
unfolding basename_from
basename = basename_from []

-- the digits at the front: `^(\d+)`
unfoldable pub digits : Text → Text
digits [] = []
digits (c ∷ s) = let rest = digits s in if is_digit c then c ∷ rest else []

unfoldable pub number : ℕ → Text → ℕ
number n [] = n
number n (c ∷ s) = number (n * 10 + (c - b'0')) s

-- _sort_key: no digits count as 0
unfoldable pub sort_key : Text → ℕ
unfolding basename digits number
sort_key path = number 0 (digits (basename path))

-- extract_migration_id
unfoldable pub extract_migration_id : Text → Result Text
unfolding basename digits
extract_migration_id path = elim (digits (basename path)) [
  | [] ↦ err value_error
  | c ∷ s ↦ ok (c ∷ s)
]

-- `sorted(files, key=_sort_key)`, which is stable
unfoldable pub insert_file : Text → List Text → List Text
unfolding sort_key
insert_file f [] = f ∷ []
insert_file f (g ∷ gs) = if leb (sort_key f) (sort_key g) then f ∷ g ∷ gs else g ∷ insert_file f gs

-- get_migration_files, of the paths that `glob` found
unfoldable pub get_migration_files : List Text → List Text
unfolding insert_file
get_migration_files [] = []
get_migration_files (f ∷ fs) = insert_file f (get_migration_files fs)

pub record MigrationRow : Type 0 where
  pub id : Text
  pub name : Text

-- The database: its other tables, and the migrations table, if it is there.
pub record MigDb (S : Type 0) : Type 0 where
  pub schema : S
  pub migrations : Option (List MigrationRow)

abbrev pub recorded : {S : Type 0} → MigDb S → List Text
recorded db = elim db.migrations [ none ↦ [] | some rows ↦ map (λ r. r.id) rows ]

-- what a statement of a migration file does
pub data Effect (S : Type 0) : Type 0 where
  done : MigDb S → Effect S
  raises : Exc → Effect S

-- the list comprehension over the files, which raises at the first misnamed one
unfoldable pub pending_of : List Text → List Text → Result (List Text)
pending_of applied [] = ok []
pending_of applied (f ∷ fs) =
    let rest = pending_of applied fs in
    elim (extract_migration_id f) [
      | err e ↦ err e
      | ok id ↦ elim rest [ err e ↦ err e | ok gs ↦ ok (if member id applied then gs else f ∷ gs) ]
    ]

module _ {S : Type 0} where
  -- SELECT id FROM migrations, if the table is there
  unfoldable pub read_ids : Option (List MigrationRow) → Exec (MigDb S) (List Text)
  read_ids none = pure []
  read_ids (some rows) = execute (λ db. (ok (recorded db), db))

  -- get_applied_migrations
  unfoldable pub get_applied_migrations : Exec (MigDb S) (List Text)
  unfolding read_ids
  get_applied_migrations =
      catch (do table ← execute (λ db. (ok db.migrations, db)); read_ids table)
        (λ e. if is_database_error e then pure [] else raise e)

  -- INSERT INTO migrations: `id` is the primary key
  unfoldable pub insert_migration : MigrationRow → MigDb S → Result (Unit {0}) × MigDb S
  insert_migration row db = elim db.migrations [
    | none ↦ (err operational_error, db)
    | some rows ↦
        if member row.id (map (λ r. r.id) rows)
        then (err integrity_error, db)
        else (ok tt, record db { migrations = some (rows ++ row ∷ []) })
  ]

  abbrev outcome : Effect S → MigDb S → Result (Unit {0}) × MigDb S
  outcome (done db') db = (ok tt, db')
  outcome (raises e) db = (err e, db)

  abbrev skip_duplicate : Exc → Exec (MigDb S) (Unit {0})
  skip_duplicate duplicate_column = pure tt
  skip_duplicate e = raise e

  module _ (run_sql : Text → MigDb S → Effect S) where
    -- the loop over the statements
    unfoldable pub run_statements : List Text → Exec (MigDb S) (Unit {0})
    run_statements [] = pure tt
    run_statements (s ∷ ss) = do
      catch (execute (λ db. outcome (run_sql s db) db)) skip_duplicate
      run_statements ss

    -- the block of the transaction
    abbrev pub migrate_block : Text → Text → List Text → Exec (MigDb S) (Unit {0})
    migrate_block id name lines = do
      run_statements (parse_lines lines start)
      execute (insert_migration (record { id = id; name = name }))

    unfoldable pub migrate : Text → Text → List Text → Exec (MigDb S) (Unit {0})
    migrate id name lines = transaction (migrate_block id name lines)

    -- the lines of each file, or the error of opening or decoding it
    module _ (read : Text → Option (List Text)) where
      abbrev apply_text : Text → Text → Option (List Text) → Exec (MigDb S) (Unit {0})
      apply_text id name none = raise operational_error
      apply_text id name (some lines) = migrate id name lines

      -- apply_migration: whatever fails in the `try` becomes a DatabaseError
      unfoldable pub apply_migration : Text → Exec (MigDb S) (Unit {0})
      apply_migration path = do
        id ← lift (extract_migration_id path)
        catch (apply_text id (basename path) (read path)) (λ _. raise database_error)

      unfoldable pub apply_all : List Text → Exec (MigDb S) (Unit {0})
      unfolding apply_migration migrate run_statements insert_migration
      apply_all [] = pure tt
      apply_all (f ∷ fs) = do apply_migration f; apply_all fs

      -- run_pending_migrations, over the paths that `glob` found
      unfoldable pub run_pending_migrations : List Text → Exec (MigDb S) (Unit {0})
      unfolding get_applied_migrations apply_all pending_of extract_migration_id
      run_pending_migrations files = do
        applied ← get_applied_migrations
        pending ← lift (pending_of applied (get_migration_files files))
        apply_all pending
