-- ===== src/Api/Sql/Execute.antt =====
-- backend/api/sql_editor.py: `execute_sql`. SQLite is the parameter `run`: what one statement
-- answers and does, to the database and to what a rollback would leave of it.
use pyronites.Base.{
  ℕ, Bool, not, Option, none, some, List, [], ◌∷◌, ◌++◌, Text, codes, lower, member, any, ltb,
  length, if◌then◌else◌,
}
use pyronites.Json.{Value, str}
use pyronites.Db.{
  Exc, Result, http_exception, database_error, is_database_error, Exec, pure, raise, execute, catch,
  ◌>>=◌, ◌>>◌,
}
use pyronites.Backups.{Disk, backup_now}
use pyronites.Api.{MetaDb}
use pyronites.Api.AuthDeps.{
  Request, AuthInfo, resolve_auth, enforce_legacy_plane_key, require_sql_scopes,
}
use pyronites.Api.Sql.{split_statements, is_readonly}
use pyronites.Api.Sql.Session.{Versions, SqlState, versions, with_versions, sql_transaction}

-- a value of a row
pub data Cell : Type 0 where
  value : Value → Cell
  blob : List ℕ → Cell

-- what `cursor` says after a statement; `description` is none for one that returns no rows
pub record Cursor : Type 0 where
  pub description : Option (List Text)
  pub rows : List (List Cell)
  pub rowcount : Value

pub data Kind : Type 0 where
  select write : Kind

-- an entry of `results`, without its count of rows
pub record Outcome : Type 0 where
  pub statement : Text
  pub kind : Kind
  pub columns : List Text
  pub rows : List (List Value)
  pub changes : Value

pub record Response : Type 0 where
  pub results : List Outcome
  pub backup : Option Text

abbrev pub redacted_columns : List Text
redacted_columns =
    codes "password"
    ∷ codes "password_hash"
    ∷ codes "token"
    ∷ codes "session_token"
    ∷ codes "key_hash"
    ∷ []

abbrev pub redacted : Value
redacted = str (codes "<redacted>")

abbrev pub max_statements : ℕ
max_statements = 50

abbrev pub is_sensitive : Text → Bool
is_sensitive column = member (lower column) redacted_columns

module _ {A : Type 0} where
  -- an action on the meta database, which is the live one
  abbrev pub on_live : Exec MetaDb A → Exec (Disk MetaDb) A
  on_live act w =
      let (r, v) = act (record { tables = w.tables.live; faults = w.faults }) in
      (r, record { tables = record w.tables { live = v.tables }; faults = v.faults })

-- `py_int` writes a number
module _ (py_int : ℕ → Text) where
  abbrev pub jsonable : Cell → Value
  jsonable (value v) = v
  jsonable (blob bytes) = str (codes "<blob " ++ py_int (length bytes) ++ codes " bytes>")

  -- _redact_row
  unfoldable pub redact_row : List Text → List Cell → List Value
  redact_row [] row = []
  redact_row (c ∷ cs) [] = []
  redact_row (c ∷ cs) (v ∷ vs) =
      (if is_sensitive c then redacted else jsonable v) ∷ redact_row cs vs

  unfoldable pub redact_rows : List Text → List (List Cell) → List (List Value)
  unfolding redact_row
  redact_rows columns [] = []
  redact_rows columns (r ∷ rs) = redact_row columns r ∷ redact_rows columns rs

  abbrev pub outcome_by : Text → Value → List (List Cell) → Option (List Text) → Outcome
  outcome_by statement changes rows none = record {
    statement = statement;
    kind = write;
    columns = [];
    rows = [];
    changes = changes;
  }
  outcome_by statement changes rows (some columns) = record {
    statement = statement;
    kind = select;
    columns = columns;
    rows = redact_rows columns rows;
    changes = changes;
  }

  abbrev pub outcome_of : Text → Cursor → Outcome
  outcome_of statement c = outcome_by statement c.rowcount c.rows c.description

  module _ (run : Text → Versions → Result Cursor × Versions) where
    abbrev pub effect : Text → SqlState → Result Cursor × SqlState
    effect statement s = let (r, v) = run statement (versions s) in (r, with_versions s v)

    -- the loop in the block: any exception of a statement is a DatabaseError
    unfoldable pub run_all : List Text → Exec SqlState (List Outcome)
    unfolding redact_rows
    run_all [] = pure []
    run_all (s ∷ ss) = do
      cursor ← catch (execute (effect s)) (λ _. raise database_error)
      rest ← run_all ss
      pure (outcome_of s cursor ∷ rest)

    abbrev pub taken : Text → ℕ → Exec (Disk MetaDb) (Option Text)
    taken path now = do file ← backup_now path now; pure (some file)

    -- the backup before a batch that may write
    unfoldable pub backup_first : Text → ℕ → List Text → Exec (Disk MetaDb) (Option Text)
    unfolding backup_now is_readonly
    backup_first path now statements =
        if any (λ s. not (is_readonly s)) statements
        then catch (taken path now) (λ _. raise (http_exception 500))
        else pure none

    abbrev pub on_sql_error : Exc → Exec (Disk MetaDb) (List Outcome)
    on_sql_error e = if is_database_error e then raise (http_exception 400) else raise e

    unfoldable pub run_batch : Text → ℕ → List Text → Exec (Disk MetaDb) Response
    unfolding backup_first run_all sql_transaction
    run_batch path now statements = do
      backup ← backup_first path now statements
      results ← catch (sql_transaction (run_all statements)) on_sql_error
      pure (record { results = results; backup = backup })

    abbrev pub checked : List Text → Exec (Disk MetaDb) Response → Exec (Disk MetaDb) Response
    checked [] rest = raise (http_exception 400)
    checked (s ∷ ss) rest =
        if ltb max_statements (length (s ∷ ss)) then raise (http_exception 400) else rest

    module _ (sha256 : Text → Text) (now : ℕ) where
      unfoldable pub authorize : Request → Exec MetaDb AuthInfo
      unfolding resolve_auth enforce_legacy_plane_key require_sql_scopes
      authorize request = do
        info ← resolve_auth sha256 now request
        enforce_legacy_plane_key info
        require_sql_scopes info

      -- execute_sql; `path` is the backup's file
      unfoldable pub execute_sql : Text → Request → Text → Exec (Disk MetaDb) Response
      unfolding authorize run_batch split_statements
      execute_sql path request sql = do
        on_live (authorize request)
        let statements = split_statements sql
        checked statements (run_batch path now statements)
