-- ===== src/Tests/Schema.antt =====
-- Migrations, and the validation of a table.
use pyronites.Base.{
  All, starts_with, upper, join, ℕ, ◌+◌, ◌≡◌, refl, true, false, Option, none, some, List, [], ◌∷◌,
  map, arith, Text, codes, text_eq, strip, member, is_digit, ◌==◌, if◌then◌else◌,
}
use pyronites.Db.{ok, Conn, healthy, execute, transaction, operational_error}
use pyronites.Migrations.{
  get_migration_files, MigDb, Effect, done, raises, recorded, apply_migration,
  run_pending_migrations,
}
use pyronites.Migrations.Scan.{parse_lines, start, after_close, has_open, ends_statement}
use pyronites.Migrations.Idempotent.{Recorded, run_again}
use pyronites.Migrations.Parse.{Piece, IsPiece, lines_of, text_of, parse_lines-pieces}
use pyronites.SchemaRules.{Column, render_default_literal, quoted}
use pyronites.SchemaRules.Literal.{is_closed, render_default_closed}

-- a database that counts the statements that were run, and whose third statement fails
abbrev count : Text → MigDb ℕ → Effect ℕ
count sql db =
    if ◌==◌ db.schema 2
    then raises operational_error
    else done (record db { schema = db.schema + 1 })

abbrev script : Text → Option (List Text)
script path = some (codes "CREATE TABLE t" ∷ codes "  (id TEXT);" ∷ [])

abbrev files : List Text
files = codes "m/0002_b.sql" ∷ codes "m/0001_a.sql" ∷ []

abbrev empty : ℕ → MigDb ℕ
empty n = record { schema = n; migrations = some [] }

abbrev applied_one : Conn (MigDb ℕ)
applied_one = (apply_migration count script (codes "m/0001_a.sql") (healthy (empty 0))).1

count_keeps :
    (s : Text) (db db' : MigDb ℕ) (x : Text)
    → count s db ≡ done db'
    → member x (recorded db) ≡ true
    → member x (recorded db') ≡ true
count_keeps s db db' x h m = ground arith

run_again_example :
    All
      (Recorded (recorded (run_pending_migrations count script files (healthy (empty 0))).1.tables))
      (get_migration_files files)
    × (run_pending_migrations count script files
          (healthy (run_pending_migrations count script files (healthy (empty 0))).1.tables)
        ≡ (ok tt, healthy (run_pending_migrations count script files (healthy (empty 0))).1.tables))
unfolding execute transaction run_pending_migrations get_migration_files is_digit member parse_lines
    strip starts_with join text_eq
run_again_example = run_again count count_keeps script files (healthy (empty 0)) refl

abbrev piece : Piece
piece = record { before = codes "CREATE TABLE t" ∷ []; last = codes "  (id TEXT);" }

piece-IsPiece : IsPiece piece
unfolding strip after_close has_open ends_statement starts_with join
piece-IsPiece = record {
  plain = (record { full = refl; no_dashes = refl; no_open = refl; no_close = refl }, tt);
  open_ended = (refl, tt);
  plain_last = record { full = refl; no_dashes = refl; no_open = refl; no_close = refl };
  closed = refl;
  text = refl;
}

parse_lines-pieces_example :
    parse_lines (lines_of (piece ∷ piece ∷ [])) start
    ≡ map (λ p. text_of p.before p.last) (piece ∷ piece ∷ [])
parse_lines-pieces_example =
    parse_lines-pieces (piece ∷ piece ∷ []) (piece-IsPiece, (piece-IsPiece, tt))

-- a default that tries to leave its quotes
abbrev hostile : Text
hostile = codes "x'; DROP TABLE users; --"

render_default_closed_example : is_closed is_digit false (quoted hostile) ≡ true
unfolding render_default_literal quoted strip is_digit text_eq upper
render_default_closed_example =
    render_default_closed is_digit refl (some hostile) (quoted hostile) refl

abbrev column : Text → Column
column name = record {
  name = name;
  type = codes "text";
  not_null = false;
  unique = false;
  default = none;
}

abbrev columns : List Column
columns = column (codes "id") ∷ column (codes "total") ∷ []
