-- ===== src/Api/Tables.antt =====
-- backend/api/tables.py, and its copies in backend/api/project_scoped.py: the routes of the tables
-- that a project's users make.
--
-- SQLite keeps the tables; a column has its declared type, and a row its rowid. What SQLite
-- decides by itself is a parameter: whether a stored value equals a bound text (`same`), what it
-- stores of an INSERT or an UPDATE or which constraint it names (`insert`, `amend`), what a text
-- of DDL does (`define`), and what foreign keys and triggers do after an UPDATE, a DELETE or a
-- DROP (`react`: the table, the database before, and with the changed rows). Those of an INSERT
-- are not described. What Python's `\d` matches is a parameter too (`digit`). A name that SQLite
-- cannot read without quotes makes the statement fail, as any other fault. Rows come in the order
-- of their insertion, where SQL promises none. `auth` is what the plane found out about the caller
-- before, in the meta database.
pub mod Routes
pub mod Writes
pub mod Planes
pub mod Hidden
pub mod Deleted
pub mod Gone
pub mod Created
pub mod ReadBack
pub mod Masked
use pyronites.Base.{
  ℕ, suc, ◌==◌, Bool, true, false, not, ◌&&◌, ◌||◌, Option, none, some, List, [], ◌∷◌, ◌++◌, map,
  Text, codes, text_eq, lower, upper, strip, member, starts_with, leb, ltb, length, keep, first,
  update, any, take, drop, if◌then◌else◌,
}
use pyronites.Db.{
  Exc, Result, ok, err, Conn, Exec, pure, raise, lift, execute, catch, http_exception,
  operational_error, integrity_error, is_database_error, ◌>>=◌, ◌>>◌,
}
use pyronites.Json.{Value, null, str, Fields, end, field, get?}
use pyronites.SchemaRules.{Column, CreateTable, build_create_table_ddl}
use pyronites.Auth.ApiKeys.{read_scope, write_scope, admin_scope}
use pyronites.Api.AuthDeps.{AuthInfo, require_scopes}
use pyronites.Api.Rows.{prepare_row_for_write, deserialize_row}

-- what PRAGMA table_info says of a column
pub record ColumnInfo : Type 0 where
  pub name : Text
  pub type : Text
  pub pk : Bool

pub record Row : Type 0 where
  pub rowid : ℕ
  pub fields : Fields

pub record Table : Type 0 where
  pub name : Text
  pub columns : List ColumnInfo
  pub rows : List Row

pub record DataDb : Type 0 where
  pub tables : List Table
  pub last_insert_rowid : ℕ

pub record Libraries : Type 0 where
  pub same : Text → Value → Text → Bool
  pub insert : Table → Fields → Result Row
  pub amend : Table → Row → Fields → Result Row
  pub define : Text → DataDb → Result (Unit {0}) × DataDb
  pub react : Text → DataDb → DataDb → Result DataDb
  pub digit : ℕ → Bool
  pub dumps : Value → Text
  pub loads : Text → Option Value

-- ── the statements ──

abbrev pub is_table : Text → Table → Bool
is_table name t = text_eq t.name name

abbrev pub find_table : Text → DataDb → Option Table
find_table name d = first (is_table name) d.tables

module _ {A : Type 0} where
  abbrev pub on_table : (Table → Result A) → Option Table → Result A
  on_table f none = err operational_error
  on_table f (some t) = f t

  abbrev pub reading : (Table → Result A) → Text → DataDb → Result A × DataDb
  reading f name d = (on_table f (find_table name d), d)

abbrev pub with_rows : List Row → Table → Table
with_rows rows t = record t { rows = rows }

-- SQLite's names know no case
abbrev pub is_id : Text → Bool
is_id name = text_eq (lower name) (codes "id")

unfoldable pub id_value : Fields → Value
id_value end = null
id_value (field k v fs) = if is_id k then v else id_value fs

abbrev pub all_rows : Table → Result (List Row)
all_rows t = ok t.rows

abbrev pub count_rows : Table → Result ℕ
count_rows t = ok (length t.rows)

abbrev pub by_rowid : ℕ → Table → Result (Option Row)
by_rowid n t = ok (first (λ r. r.rowid == n) t.rows)

-- the columns that are set in the rows that pass
unfoldable pub amend_rows : (Row → Bool) → (Row → Result Row) → List Row → Result (List Row)
amend_rows p f [] = ok []
amend_rows p f (r ∷ rs) =
    let rest = amend_rows p f rs in
    if p r
    then elim (f r) [ err e ↦ err e | ok u ↦ elim rest [ err e ↦ err e | ok us ↦ ok (u ∷ us) ] ]
    else elim rest [ err e ↦ err e | ok us ↦ ok (r ∷ us) ]

module _ (libs : Libraries) where
  -- where foreign keys and triggers let the statement be
  abbrev pub with_reaction : DataDb → Result DataDb → Result (Unit {0}) × DataDb
  with_reaction before (err e) = (err e, before)
  with_reaction before (ok d) = (ok tt, d)

  abbrev pub put_rows : Text → Result (List Row) → DataDb → Result (Unit {0}) × DataDb
  put_rows name (err e) d = (err e, d)
  put_rows name (ok rows) d =
      with_reaction d
        (libs.react name d (record d { tables = update (is_table name) (with_rows rows) d.tables }))

  abbrev pub writing : (Table → Result (List Row)) → Text → DataDb → Result (Unit {0}) × DataDb
  writing f name d = put_rows name (on_table f (find_table name d)) d

  -- `WHERE id = ?`
  abbrev pub has_row_id : Text → Text → Row → Bool
  has_row_id id type r = libs.same type (id_value r.fields) id

  abbrev pub id_test : Text → Option ColumnInfo → Result (Row → Bool)
  id_test id none = err operational_error
  id_test id (some c) = ok (has_row_id id c.type)

  abbrev pub where_id : Text → Table → Result (Row → Bool)
  where_id id t = id_test id (first (λ c. is_id c.name) t.columns)

  abbrev pub by_id : Text → Table → Result (Option Row)
  by_id id t = elim (where_id id t) [ err e ↦ err e | ok p ↦ ok (first p t.rows) ]

  abbrev pub without_id : Text → Table → Result (List Row)
  without_id id t = elim (where_id id t) [
    | err e ↦ err e
    | ok p ↦ ok (keep (λ r. not (p r)) t.rows)
  ]

  abbrev pub amended : Text → Fields → Table → Result (List Row)
  amended id values t = elim (where_id id t) [
    | err e ↦ err e
    | ok p ↦ amend_rows p (λ r. libs.amend t r values) t.rows
  ]

  abbrev pub put_row : Text → Table → Result Row → DataDb → Result (Unit {0}) × DataDb
  put_row name t (err e) d = (err e, d)
  put_row name t (ok r) d = (
    ok tt,
    record {
      tables = update (is_table name) (with_rows (t.rows ++ r ∷ [])) d.tables;
      last_insert_rowid = r.rowid;
    },
  )

  abbrev pub insert_into : Option Table → Text → Fields → DataDb → Result (Unit {0}) × DataDb
  insert_into none name values d = (err operational_error, d)
  insert_into (some t) name values d = put_row name t (libs.insert t values) d

  -- INSERT INTO
  unfoldable pub insert_row : Text → Fields → DataDb → Result (Unit {0}) × DataDb
  insert_row name values d = insert_into (find_table name d) name values d

  -- DROP TABLE IF EXISTS
  unfoldable pub drop_rows : Text → DataDb → Result (Unit {0}) × DataDb
  drop_rows name d =
      with_reaction d
        (libs.react name d (record d { tables = keep (λ t. not (is_table name t)) d.tables }))
