-- ===== src/Api/Tables/Created.antt =====
-- backend/api/tables.py: what create_table_row makes of the tables.
use pyronites.Base.{
  ◌≡◌, ◌∙◌, ◌==◌, refl, sym, ap, subst, arith, true, Option, none, some, List, [], ◌∷◌, ◌++◌, keep,
  first, update, map, member, Text, Bool-cases, inl, inr,
}
use pyronites.Db.{Result, ok, err, Conn, Exec, pure, raise, lift, execute, catch, ◌>>=◌, ◌>>◌}
use pyronites.Db.Transaction.{execute_returned, bind_returned, catch_returned}
use pyronites.Db.Refused.{Makes, Makes-after, Makes-lift, Makes-query, Makes-weaken, lift-Reads}
use pyronites.Json.{Fields}
use pyronites.Auth.ApiKeys.{write_scope}
use pyronites.Api.AuthDeps.{AuthInfo, require_scopes}
use pyronites.Api.Rows.{prepare_row_for_write}
use pyronites.Api.Tables.{
  ColumnInfo, Row, Table, DataDb, Libraries, is_table, find_table, with_rows, reading, by_rowid,
  on_table, insert_into, insert_row, put_row,
}
use pyronites.Api.Tables.Routes.{
  is_listed, names, get_allowed_tables, validate_table, table_info, types, columns_of, column_names,
}
use pyronites.Api.Tables.Writes.{
  check_body, validate_columns, with_id, inserted, select_last, write_error, write_row,
  create_table_row,
}
use pyronites.Api.Tables.Hidden.{require_scopes-Reads}
use pyronites.Api.Tables.Deleted.{find-update_same, validate_table_sound}

names-update :
    (name : Text) (rows : List Row) (ts : List Table)
    → map (λ t. t.name) (update (is_table name) (with_rows rows) ts) ≡ map (λ t. t.name) ts
unfolding update
names-update name rows [] = refl
names-update name rows (t ∷ ts) = elim (Bool-cases (is_table name t)) [
  | inl e ↦ rw e (ap (λ ns. t.name ∷ ns) (names-update name rows ts))
  | inr f ↦ rw f (ap (λ ns. t.name ∷ ns) (names-update name rows ts))
]

validate_table-member :
    (table valid : Text) (allowed : List Text)
    → validate_table table allowed ≡ ok valid
    → member table allowed ≡ true
unfolding validate_table
validate_table-member table valid allowed h = elim (Bool-cases (member table allowed)) [
  | inl t ↦ t
  | inr f ↦ absurd (ground arith)
]

module _ (libs : Libraries) (table : Text) where
  -- the row that SQLite made of the values, behind those that were there
  abbrev pub IsPut : Fields → DataDb → Table → Row → DataDb → Type 0
  IsPut values before t r after =
      (find_table table before ≡ some t)
      × (libs.insert t values ≡ ok r)
      × (find_table table after ≡ some (with_rows (t.rows ++ r ∷ []) t))
      × (names after ≡ names before)
      × (after.last_insert_rowid ≡ r.rowid)

  put_row-IsPut :
      (values : Fields) (d : DataDb) (t : Table) (o : Result Row)
      → find_table table d ≡ some t
      → libs.insert t values ≡ o
      → (put_row libs table t o d).0 ≡ ok tt
      → (r : Row) × IsPut values d t r (put_row libs table t o d).1
  put_row-IsPut values d t (err e) there made h = absurd (ground arith)
  put_row-IsPut values d t (ok r) there made h = (
    r,
    (
      there,
      made,
      find-update_same table (t.rows ++ r ∷ []) d.tables t there,
      names-update table (t.rows ++ r ∷ []) d.tables,
      refl,
    ),
  )

  insert_row-IsPut :
      (values : Fields) (d : DataDb)
      → (insert_row libs table values d).0 ≡ ok tt
      → (t : Table) × (r : Row) × IsPut values d t r (insert_row libs table values d).1
  unfolding insert_row
  insert_row-IsPut values d h = go (find_table table d) refl h
    where
      go :
          (o : Option Table)
          → find_table table d ≡ o
          → (insert_into libs o table values d).0 ≡ ok tt
          → (t : Table) × (r : Row) × IsPut values d t r (insert_into libs o table values d).1
      go none e k = absurd (ground arith)
      go (some t) e k =
          (let (r, put) = put_row-IsPut values d t (libs.insert t values) e refl k in (t, r, put))

  -- and the answer: the row that stands under the new rowid
  abbrev pub IsStored : List ColumnInfo → Fields → DataDb → Fields → DataDb → Type 0
  IsStored columns values before a after =
      (t : Table) × (r : Row) × IsPut values before t r after
      × (a ≡ inserted libs columns values (first (λ x. x.rowid == r.rowid) (t.rows ++ r ∷ [])))

  abbrev read_back : List ColumnInfo → Fields → Exec DataDb Fields
  read_back columns values = do
    row ← select_last libs table
    pure (inserted libs columns values row)

  read_back_row :
      (columns : List ColumnInfo) (values a : Fields) (w : Conn DataDb) (t : Table) (r : Row)
      → find_table table w.tables ≡ some t
      → w.tables.last_insert_rowid ≡ r.rowid
      → (read_back columns values w).0 ≡ ok a
      → (a ≡ inserted libs columns values (first (λ x. x.rowid == r.rowid) t.rows))
        × ((read_back columns values w).1.tables ≡ w.tables)
  read_back_row columns values a w t r there last h =
      let (row, got, rest, same) =
        bind_returned (select_last libs table) (λ o. pure (inserted libs columns values o)) w a h in
      let (ran, left) =
        execute_returned (λ d. reading (by_rowid d.last_insert_rowid) table d) w row got in
      let here : on_table (by_rowid w.tables.last_insert_rowid) (some t) ≡ ok row =
        sym (ap (on_table (by_rowid w.tables.last_insert_rowid)) there) ∙ ran in
      let numbered : on_table (by_rowid r.rowid) (some t) ≡ ok row =
        ap (λ n. on_table (by_rowid n) (some t)) (sym last) ∙ here in
      let found : first (λ x. x.rowid == r.rowid) t.rows ≡ row = ground arith in
      let given : inserted libs columns values row ≡ a = ground arith in
      (rw found (sym given), ap (λ v. v.tables) same ∙ left)

  put_back-Makes :
      (columns : List ColumnInfo) (values : Fields)
      → Makes (IsStored columns values) (do
        catch (execute (insert_row libs table values)) (λ e. raise (write_error e))
        read_back columns values)
  put_back-Makes columns values = record {
    made = λ w a h.
        (let act : Exec DataDb (Unit {0}) =
            catch (execute (insert_row libs table values)) (λ e. raise (write_error e)) in
          let (_, got, rest, same) = bind_returned act (λ _. read_back columns values) w a h in
          let (went, kept) =
            catch_returned (execute (insert_row libs table values)) (λ e. raise (write_error e)) w
              tt (λ e v k. ground arith) got in
          let (ran, tables) = execute_returned (insert_row libs table values) w tt went in
          let after : (act w).1.tables ≡ (insert_row libs table values w.tables).1 =
            ap (λ v. v.tables) kept ∙ tables in
          let (t, r, put) = insert_row-IsPut values w.tables ran in
          let at : IsPut values w.tables t r (act w).1.tables =
            subst (IsPut values w.tables t r) (sym after) put in
          let (answered, left) =
            read_back_row columns values a (act w).1 (with_rows (t.rows ++ r ∷ []) t) r at.2 at.4
              rest in
          (
            t,
            r,
            subst (IsPut values w.tables t r) (sym (ap (λ v. v.tables) same ∙ left)) at,
            answered,
          ));
  }

  module _ (uuid : Text) (given : Fields) where
    -- what is stored is the body, with the id, as it was coerced
    abbrev pub IsInserted : List ColumnInfo → DataDb → Fields → DataDb → Type 0
    IsInserted columns before a after =
        (values : Fields) × (prepare_row_for_write libs.dumps libs.loads (types columns)
            (with_id uuid columns given)
          ≡ ok values)
        × IsStored columns values before a after

    write_row-Makes :
        (columns : List ColumnInfo)
        → Makes (IsInserted columns) (write_row libs uuid table given columns)
    unfolding write_row
    write_row-Makes columns = Makes-lift (validate_columns given (column_names columns)) _ (λ _ _.
        Makes-lift
          (prepare_row_for_write libs.dumps libs.loads (types columns) (with_id uuid columns given))
          _
          (λ values e.
            Makes-weaken _ (λ d a u stored. (values, e, stored)) (put_back-Makes columns values)))

    -- the table is listed, and its columns are those of PRAGMA table_info
    abbrev pub IsCreated : DataDb → Fields → DataDb → Type 0
    IsCreated before a after =
        (member table (keep is_listed (names before)) ≡ true)
        × IsInserted (columns_of (find_table table before)) before a after

    after_table_info :
        Makes
          (λ d a e. IsInserted (columns_of (find_table table d)) d a e)
          (do columns ← table_info table; write_row libs uuid table given columns)
    unfolding table_info
    after_table_info =
        Makes-query (λ d. ok (columns_of (find_table table d))) (write_row libs uuid table given)
          (λ columns.
            Makes-weaken (write_row libs uuid table given columns)
              (λ d a e made same.
                let known : columns ≡ columns_of (find_table table d) = ground arith in
                subst (λ cs. IsInserted cs d a e) known made)
              (write_row-Makes columns))

    pub create_table_row-Makes :
        (auth : Option AuthInfo) → Makes IsCreated (create_table_row libs uuid auth table given)
    unfolding create_table_row get_allowed_tables
    create_table_row-Makes auth =
        Makes-after (require_scopes auth (write_scope ∷ [])) _ (require_scopes-Reads _ _) (λ _.
          Makes-after (lift (check_body given)) _ (lift-Reads _) (λ _.
            Makes-query (λ d. ok (keep is_listed (names d))) _
              (λ allowed. Makes-lift (validate_table table allowed) _ (λ valid e.
                subst
                  (λ x.
                    Makes (λ d a u. ok (keep is_listed (names d)) ≡ ok allowed → IsCreated d a u)
                      (do columns ← table_info x; write_row libs uuid x given columns))
                  (validate_table_sound table valid allowed e)
                  (Makes-weaken _
                    (λ d a u made same.
                      let listed : keep is_listed (names d) ≡ allowed = ground arith in
                      (rw listed (validate_table-member table valid allowed e), made))
                    after_table_info)))))
