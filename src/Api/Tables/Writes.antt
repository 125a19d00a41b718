-- ===== src/Api/Tables/Writes.antt =====
-- backend/api/tables.py: the handlers that write, behind the caller that `auth` describes.
use pyronites.Base.{
  Bool, false, not, ◌&&◌, Option, none, some, List, [], ◌∷◌, Text, codes, text_eq, strip, member,
  keep, any, if◌then◌else◌,
}
use pyronites.Db.{
  Exc, Result, ok, err, Exec, pure, raise, lift, execute, catch, http_exception, integrity_error,
  is_database_error, ◌>>=◌, ◌>>◌,
}
use pyronites.Json.{str, Fields, end, field, get?, set}
use pyronites.SchemaRules.{CreateTable, build_create_table_ddl}
use pyronites.Auth.ApiKeys.{write_scope, admin_scope}
use pyronites.Api.AuthDeps.{AuthInfo, require_scopes}
use pyronites.Api.Rows.{prepare_row_for_write, deserialize_row}
use pyronites.Api.Tables.{
  ColumnInfo, Row, DataDb, Libraries, reading, writing, by_rowid, without_id, amended, amend_rows,
  insert_row, drop_rows,
}
use pyronites.Api.Tables.Routes.{
  platform_tables, get_allowed_tables, validate_table, validate_column, table_info, types,
  column_names, or_not_found, answer, select_id,
}

-- the loop over the keys of the body
unfoldable pub validate_columns : Fields → List Text → Result (Unit {0})
unfolding validate_column
validate_columns end allowed = ok tt
validate_columns (field k v fs) allowed =
    let rest = validate_columns fs allowed in
    elim (validate_column k allowed) [ err e ↦ err e | ok _ ↦ rest ]

-- `if not data`
abbrev pub check_body : Fields → Result (Unit {0})
check_body end = err (http_exception 400)
check_body (field k v fs) = ok tt

-- `except DatabaseIntegrityError`, `except DatabaseError`
abbrev pub write_error : Exc → Exc
write_error integrity_error = http_exception 409
write_error e = if is_database_error e then http_exception 400 else e

abbrev pub is_numbered : Option Text → Bool
is_numbered none = false
is_numbered (some type) = text_eq type (codes "INTEGER")

-- the id that is made where the table has the column, the body not, and SQLite does not number it
abbrev pub with_id : Text → List ColumnInfo → Fields → Fields
with_id uuid columns values =
    if member (codes "id") (column_names columns) && not (is_numbered (types columns (codes "id")))
    then elim (get? (codes "id") values) [
      | none ↦ set (codes "id") (str uuid) values
      | some v ↦ values
    ]
    else values

module _ (libs : Libraries) where
  abbrev pub inserted : List ColumnInfo → Fields → Option Row → Fields
  inserted columns prepared none = deserialize_row libs.dumps libs.loads (types columns) prepared
  inserted columns prepared (some r) = answer libs columns r

  -- SELECT … WHERE rowid = last_insert_rowid()
  abbrev pub select_last : Text → Exec DataDb (Option Row)
  select_last table = execute (λ d. reading (by_rowid d.last_insert_rowid) table d)

  -- create_table_row, from the columns of the table on
  unfoldable pub write_row : Text → Text → Fields → List ColumnInfo → Exec DataDb Fields
  unfolding validate_columns prepare_row_for_write insert_row execute
  write_row uuid valid values columns = do
    lift (validate_columns values (column_names columns))
    prepared ←
        lift (
          prepare_row_for_write libs.dumps libs.loads (types columns) (with_id uuid columns values))
    catch (execute (insert_row libs valid prepared)) (λ e. raise (write_error e))
    row ← select_last valid
    pure (inserted columns prepared row)

  -- create_table_row
  unfoldable pub create_table_row : Text → Option AuthInfo → Text → Fields → Exec DataDb Fields
  unfolding require_scopes get_allowed_tables validate_table table_info write_row
  create_table_row uuid auth table values = do
    require_scopes auth (write_scope ∷ [])
    lift (check_body values)
    allowed ← get_allowed_tables
    valid ← lift (validate_table table allowed)
    columns ← table_info valid
    write_row uuid valid values columns

  -- update_table_row, from the columns of the table on
  unfoldable pub amend_row : Text → Text → Fields → List ColumnInfo → Exec DataDb Fields
  unfolding validate_columns prepare_row_for_write execute amend_rows
  amend_row valid id values columns = do
    lift (validate_columns values (column_names columns))
    prepared ← lift (prepare_row_for_write libs.dumps libs.loads (types columns) values)
    catch (execute (writing libs (amended libs id prepared) valid)) (λ e. raise (write_error e))
    found ← select_id libs valid id
    row ← lift (or_not_found found)
    pure (answer libs columns row)

  -- update_table_row
  unfoldable pub update_table_row : Option AuthInfo → Text → Text → Fields → Exec DataDb Fields
  unfolding require_scopes get_allowed_tables validate_table table_info amend_row
  update_table_row auth table id values = do
    require_scopes auth (write_scope ∷ [])
    lift (check_body values)
    allowed ← get_allowed_tables
    valid ← lift (validate_table table allowed)
    columns ← table_info valid
    amend_row valid id values columns

  -- delete_table_row
  unfoldable pub delete_table_row : Option AuthInfo → Text → Text → Exec DataDb (Unit {0})
  unfolding require_scopes get_allowed_tables validate_table execute keep
  delete_table_row auth table id = do
    require_scopes auth (write_scope ∷ [])
    allowed ← get_allowed_tables
    valid ← lift (validate_table table allowed)
    found ← select_id libs valid id
    lift (or_not_found found)
    execute (writing libs (without_id libs id) valid)

  -- `body.primary_key and not any(…)`
  abbrev pub check_primary_key : CreateTable → Result (Unit {0})
  check_primary_key body = elim body.primary_key [
    | none ↦ ok tt
    | some [] ↦ ok tt
    | some (c ∷ s) ↦
        if any (λ column. text_eq column.name (c ∷ s)) body.columns
        then ok tt
        else err (http_exception 400)
  ]

  -- create_table
  unfoldable pub create_table : Option AuthInfo → CreateTable → Exec DataDb CreateTable
  unfolding require_scopes build_create_table_ddl execute any
  create_table auth body = do
    require_scopes auth (admin_scope ∷ [])
    lift (check_primary_key body)
    catch
        (execute (
          libs.define (build_create_table_ddl libs.digit body.table body.columns body.primary_key)))
        (λ e. raise (http_exception 400))
    pure body

abbrev pub check_confirmed : Text → Text → Result (Unit {0})
check_confirmed table confirm_name =
    if text_eq (strip confirm_name) table then ok tt else err (http_exception 400)

abbrev pub check_unprotected : Text → Result (Unit {0})
check_unprotected table = if member table platform_tables then err (http_exception 403) else ok tt

module _ (libs : Libraries) where
  -- drop_table
  unfoldable pub drop_table : Option AuthInfo → Text → Text → Exec DataDb (Unit {0})
  unfolding require_scopes get_allowed_tables validate_table execute drop_rows
  drop_table auth table confirm_name = do
    require_scopes auth (admin_scope ∷ [])
    allowed ← get_allowed_tables
    lift (validate_table table allowed)
    lift (check_confirmed table confirm_name)
    lift (check_unprotected table)
    execute (drop_rows libs table)
