-- ===== src/Api/Tables/ReadBack.antt =====
-- backend/api/tables.py: what get_table_row finds after create_table_row.
use pyronites.Base.{
  ◌≡◌, ◌∙◌, ◌==◌, sym, ap, subst, arith, true, false, Option, some, [], ◌∷◌, ◌++◌, keep, first, any,
  all, member, Text, first-append_new,
}
use pyronites.Db.{ok, err, Conn, continue, healthy, execute}
use pyronites.Json.{Fields}
use pyronites.Auth.ApiKeys.{read_scope}
use pyronites.Api.AuthDeps.{AuthInfo, granted, require_scopes}
use pyronites.Api.Rows.{prepare_row_for_write}
use pyronites.Api.Tables.{
  ColumnInfo, Row, Table, DataDb, Libraries, find_table, with_rows, by_id, where_id, id_test,
  on_table, is_id, has_row_id,
}
use pyronites.Api.Tables.Routes.{
  is_listed, names, answer, get_allowed_tables, validate_table, table_info, select_id, columns_of,
  types, get_table_row,
}
use pyronites.Api.Tables.Writes.{inserted, with_id, create_table_row}
use pyronites.Api.Tables.Gone.{answer_found}
use pyronites.Api.Tables.Created.{create_table_row-Makes}

module _ (libs : Libraries) (table id : Text) where
  -- SQLite gives a row a rowid that its table does not have; and the row that it makes of the body
  -- has the id, as no row of the table had
  abbrev pub IsNew : Text → Fields → DataDb → Type 0
  IsNew uuid given d =
      (t : Table) (values : Fields) (r : Row)
      → find_table table d ≡ some t
      → prepare_row_for_write libs.dumps libs.loads (types t.columns) (with_id uuid t.columns given)
        ≡ ok values
      → libs.insert t values ≡ ok r
      → (any (λ x. x.rowid == r.rowid) t.rows ≡ false)
        × ((c : ColumnInfo) × (first (λ x. is_id x.name) t.columns ≡ some c)
            × (has_row_id libs id c.type r ≡ true)
            × (any (has_row_id libs id c.type) t.rows ≡ false))

  select_id_found :
      (d : DataDb) (t : Table) (c : ColumnInfo) (r : Row)
      → find_table table d ≡ some t
      → first (λ x. is_id x.name) t.columns ≡ some c
      → first (has_row_id libs id c.type) t.rows ≡ some r
      → select_id libs table id (healthy d) ≡ (ok (some r), healthy d)
  unfolding execute
  select_id_found d t c r there column found =
      let test : where_id libs id t ≡ ok (has_row_id libs id c.type) =
        ap (id_test libs id) column in
      let here : by_id libs id t ≡ ok (some r) =
        ap (λ o. elim o [ err e ↦ err e | ok p ↦ ok (first p t.rows) ]) test ∙ ap ok found in
      ap (λ x. (x, healthy d)) (ap (on_table (by_id libs id)) there ∙ here)

  get_table_row_found :
      (reader : AuthInfo) (d : DataDb) (t : Table) (c : ColumnInfo) (r : Row)
      → member read_scope (granted reader) ≡ true
      → member table (keep is_listed (names d)) ≡ true
      → find_table table d ≡ some t
      → first (λ x. is_id x.name) t.columns ≡ some c
      → first (has_row_id libs id c.type) t.rows ≡ some r
      → (get_table_row libs (some reader) table id (healthy d)).0 ≡ ok (answer libs t.columns r)
  unfolding get_table_row require_scopes get_allowed_tables validate_table table_info execute all
  get_table_row_found reader d t c r may listed there column found = rw may (
      rw listed (
        ap (λ x. (continue x (answer_found libs table id)).0)
          (select_id_found d t c r there column found)
        ∙ ap (λ o. ok (answer libs (columns_of o) r)) there))

  -- A row that was created is read back as it was answered, on a database that does not fail and by
  -- any caller that may read, where SQLite gave it a rowid that was free in its table, and the id that
  -- is asked for is that of the new row and of no other: JSON columns, defaults and the id that the
  -- server or SQLite chose included.
  pub get_table_row-create_table_row :
      (uuid : Text) (auth : Option AuthInfo) (reader : AuthInfo) (given a : Fields)
      (w : Conn DataDb)
      → IsNew uuid given w.tables
      → member read_scope (granted reader) ≡ true
      → (create_table_row libs uuid auth table given w).0 ≡ ok a
      → (get_table_row libs
          (some reader)
          table
          id
          (healthy (create_table_row libs uuid auth table given w).1.tables)).0
        ≡ ok a
  get_table_row-create_table_row uuid auth reader given a w new may h =
      let after : DataDb = (create_table_row libs uuid auth table given w).1.tables in
      let (listed, (prepared, coerced, (t, r, put, answered))) =
        (create_table_row-Makes libs table uuid given auth).made w a h in
      let (there, stored, left, same, _) = put in
      let (numbered, (c, column, is_it, fresh)) =
        new t prepared r there
          (subst
            (λ o.
              prepare_row_for_write libs.dumps libs.loads (types (columns_of o))
                (with_id uuid (columns_of o) given)
              ≡ ok prepared)
            there coerced)
          stored in
      let last : first (λ x. x.rowid == r.rowid) (t.rows ++ r ∷ []) ≡ some r =
        first-append_new (λ x. x.rowid == r.rowid) t.rows r numbered (ground arith) in
      let shown : a ≡ answer libs t.columns r =
        answered
        ∙ ap
            (λ o.
              inserted libs (columns_of o) prepared
                (first (λ x. x.rowid == r.rowid) (t.rows ++ r ∷ [])))
            there
        ∙ ap (inserted libs t.columns prepared) last in
      get_table_row_found reader after (with_rows (t.rows ++ r ∷ []) t) c r may
        (subst (λ ns. member table (keep is_listed ns) ≡ true) (sym same) listed) left column
        (first-append_new (has_row_id libs id c.type) t.rows r fresh is_it)
      ∙ ap ok (sym shown)
