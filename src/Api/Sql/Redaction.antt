-- ===== src/Api/Sql/Redaction.antt =====
-- No answer shows a sensitive column.
use pyronites.Base.{ℕ, ◌≡◌, refl, true, Option, none, some, List, [], ◌∷◌, Text, All}
use pyronites.Json.{Value}
use pyronites.Db.{Exc, Result, Exec}
use pyronites.Db.Returns.{
  Returns, Returns-pure, Returns-raise, Returns-if, Returns-catch, Returns-bind, Returns-after,
}
use pyronites.Backups.{Disk}
use pyronites.Api.{MetaDb}
use pyronites.Api.AuthDeps.{Request}
use pyronites.Api.Sql.{split_statements}
use pyronites.Api.Sql.Session.{Versions, sql_transaction-Returns}
use pyronites.Api.Sql.Execute.{
  Cell, Cursor, Outcome, Response, redacted, is_sensitive, redact_row, redact_rows, outcome_by,
  run_all, run_batch, execute_sql, on_sql_error, checked, backup_first,
}

-- every value of a sensitive column is `<redacted>`
abbrev pub IsRedacted : List Text → List Value → Type 0
IsRedacted (c ∷ cs) (v ∷ vs) = (is_sensitive c ≡ true → v ≡ redacted) × IsRedacted cs vs
IsRedacted [] vs = Unit {0}
IsRedacted (c ∷ cs) [] = Unit {0}

abbrev pub IsClean : Outcome → Type 0
IsClean o = All (IsRedacted o.columns) o.rows

module _ (py_int : ℕ → Text) where
  redact_row-IsRedacted :
      (columns : List Text) (row : List Cell) → IsRedacted columns (redact_row py_int columns row)
  unfolding redact_row
  redact_row-IsRedacted [] row = tt
  redact_row-IsRedacted (c ∷ cs) [] = tt
  redact_row-IsRedacted (c ∷ cs) (v ∷ vs) = (λ h. rw h refl, redact_row-IsRedacted cs vs)

  redact_rows-All :
      (columns : List Text) (rows : List (List Cell))
      → All (IsRedacted columns) (redact_rows py_int columns rows)
  unfolding redact_rows
  redact_rows-All columns [] = tt
  redact_rows-All columns (r ∷ rs) = (redact_row-IsRedacted columns r, redact_rows-All columns rs)

  outcome_by-IsClean :
      (s : Text) (changes : Value) (rows : List (List Cell)) (d : Option (List Text))
      → IsClean (outcome_by py_int s changes rows d)
  outcome_by-IsClean s changes rows none = tt
  outcome_by-IsClean s changes rows (some columns) = redact_rows-All columns rows

  module _ (run : Text → Versions → Result Cursor × Versions) where
    run_all-IsClean : (ss : List Text) → Returns (All IsClean) (run_all py_int run ss)
    unfolding run_all
    run_all-IsClean [] = Returns-pure [] tt
    run_all-IsClean (s ∷ ss) = Returns-after _ _ λ cursor.
        Returns-bind _ _ (run_all-IsClean ss) λ rest clean.
          Returns-pure _
            (outcome_by-IsClean s cursor.rowcount cursor.rows cursor.description, clean)

    on_sql_error-IsClean : (e : Exc) → Returns (All IsClean) (on_sql_error py_int run e)
    on_sql_error-IsClean e = Returns-if _ _ _ (Returns-raise _) (Returns-raise e)

    run_batch-IsClean :
        (path : Text) (now : ℕ) (ss : List Text)
        → Returns (λ r. All IsClean r.results) (run_batch py_int run path now ss)
    unfolding run_batch
    run_batch-IsClean path now ss = Returns-after (backup_first py_int run path now ss) _ λ backup.
        Returns-bind _ _
          (Returns-catch _ _ (sql_transaction-Returns _ _ (run_all-IsClean ss))
            on_sql_error-IsClean)
          (λ results clean. Returns-pure (record { results = results; backup = backup }) clean)

    checked-IsClean :
        (ss : List Text) (rest : Exec (Disk MetaDb) Response)
        → Returns (λ r. All IsClean r.results) rest
        → Returns (λ r. All IsClean r.results) (checked py_int run ss rest)
    checked-IsClean [] rest h = Returns-raise _
    checked-IsClean (s ∷ ss) rest h = Returns-if _ _ _ (Returns-raise _) h

    -- Whatever the batch and SQLite's answers, every row of the answer of `execute_sql` has
    -- `<redacted>` in each column named password, password_hash, token, session_token or key_hash.
    pub execute_sql-IsClean :
        (sha256 : Text → Text) (now : ℕ) (path : Text) (request : Request) (sql : Text)
        → Returns (λ r. All IsClean r.results) (execute_sql py_int run sha256 now path request sql)
    unfolding execute_sql
    execute_sql-IsClean sha256 now path request sql = Returns-after _ _ (λ info.
        checked-IsClean (split_statements sql) _
          (run_batch-IsClean path now (split_statements sql)))
