-- ===== src/Api/Tables/Gone.antt =====
-- backend/api/tables.py: what get_table_row finds after delete_table_row.
use pyronites.Base.{
  ◌≡◌, ◌≢◌, ◌∙◌, refl, sym, ap, subst, arith, Bool, false, not, Option, none, some, [], ◌∷◌, keep,
  first, Text, first-keep_kept,
}
use pyronites.Db.{Result, ok, err, Conn, Exec, pure, lift, ◌>>=◌}
use pyronites.Db.Transaction.{execute_returned, bind_returned}
use pyronites.Db.Refused.{Makes, Makes-after, Makes-lift}
use pyronites.Json.{Fields}
use pyronites.Auth.ApiKeys.{read_scope}
use pyronites.Api.AuthDeps.{AuthInfo, require_scopes}
use pyronites.Api.Tables.{
  ColumnInfo, Row, Table, DataDb, Libraries, find_table, with_rows, reading, by_id, on_table,
  where_id, id_test, has_row_id, is_id,
}
use pyronites.Api.Tables.Routes.{
  get_allowed_tables, validate_table, table_info, or_not_found, select_id, answer, get_table_row,
}
use pyronites.Api.Tables.Writes.{delete_table_row}
use pyronites.Api.Tables.Hidden.{require_scopes-Reads, get_allowed_tables-Reads}
use pyronites.Api.Tables.Deleted.{
  IsGone, IsDeleted, IsKept, IsDeleted→IsGone, delete_table_row-Makes, validate_table_sound,
}

module _ (libs : Libraries) (table id : Text) where
  -- the row that a request for the id finds
  abbrev IsFound : DataDb → Type 0
  IsFound d =
      (t : Table) × (p : Row → Bool) × (r : Row) × (find_table table d ≡ some t)
      × (where_id libs id t ≡ ok p)
      × (first p t.rows ≡ some r)

  by_id-IsFound :
      (d : DataDb) (r : Row) → (reading (by_id libs id) table d).0 ≡ ok (some r) → IsFound d
  by_id-IsFound d r h = go (find_table table d) refl h
    where
      in_table :
          (t : Table) (o : Result (Row → Bool))
          → find_table table d ≡ some t
          → where_id libs id t ≡ o
          → elim o [ err e ↦ err e | ok p ↦ ok (first p t.rows) ] ≡ ok (some r)
          → IsFound d
      in_table t (err e) there test k = absurd (ground arith)
      in_table t (ok p) there test k = (t, p, r, there, test, ground arith)

      go :
          (o : Option Table)
          → find_table table d ≡ o
          → on_table (by_id libs id) o ≡ ok (some r)
          → IsFound d
      go none e k = absurd (ground arith)
      go (some t) e k = in_table t (where_id libs id t) e refl k

  abbrev pub answer_found : Option Row → Exec DataDb Fields
  answer_found found = do
    row ← lift (or_not_found found)
    columns ← table_info table
    pure (answer libs columns row)

  select-IsFound : Makes (λ d _ _. IsFound d) (select_id libs table id >>= answer_found)
  select-IsFound = record {
    made = λ w a h.
        (let (found, got, rest, _) = bind_returned (select_id libs table id) answer_found w a h in
          go w found got a rest);
  }
    where
      go :
          (w : Conn DataDb) (found : Option Row)
          → (select_id libs table id w).0 ≡ ok found
          → (a : Fields) → (answer_found found (select_id libs table id w).1).0 ≡ ok a
          → IsFound w.tables
      go w none got a h = absurd (ground arith)
      go w (some r) got a h =
          by_id-IsFound w.tables r
            (execute_returned (reading (by_id libs id) table) w (some r) got).0

  get_table_row-Makes :
      (auth : Option AuthInfo) → Makes (λ d _ _. IsFound d) (get_table_row libs auth table id)
  unfolding get_table_row
  get_table_row-Makes auth =
      Makes-after (require_scopes auth (read_scope ∷ [])) _ (require_scopes-Reads _ _) (λ _.
        Makes-after get_allowed_tables _ get_allowed_tables-Reads (λ allowed.
          Makes-lift (validate_table table allowed) _ (λ valid e.
            subst
              (λ x.
                Makes (λ d _ _. IsFound d)
                  (do
                    found ← select_id libs x id
                    row ← lift (or_not_found found)
                    columns ← table_info x
                    pure (answer libs columns row)))
              (validate_table_sound table valid allowed e) select-IsFound)))

  abbrev pub NeverFound : DataDb → Type 0
  NeverFound d =
      (reader : Option AuthInfo) (v : Conn DataDb) (row : Fields)
      → v.tables ≡ d
      → (get_table_row libs reader table id v).0 ≢ ok row

  IsGone→NeverFound : (d : DataDb) → IsGone libs table id d → NeverFound d
  IsGone→NeverFound d gone reader v row same h =
      let (t, p, r, there, test, found) = (get_table_row-Makes reader).made v row h in
      let none_left : first p t.rows ≡ none =
        gone t p (ap (find_table table) (sym same) ∙ there) test in
      ground arith

  -- whatever row a test finds first among the rows, if it has another id
  abbrev pub KeepsOthers : DataDb → DataDb → Type 0
  KeepsOthers before after =
      (t : Table) (c : ColumnInfo) (q : Row → Bool) (r : Row)
      → find_table table before ≡ some t
      → first (λ x. is_id x.name) t.columns ≡ some c
      → first q t.rows ≡ some r
      → has_row_id libs id c.type r ≡ false
      → (u : Table) × (find_table table after ≡ some u) × (first q u.rows ≡ some r)

  kept_row :
      (t : Table) (c : ColumnInfo) (p q : Row → Bool) (r : Row)
      → first (λ x. is_id x.name) t.columns ≡ some c
      → where_id libs id t ≡ ok p
      → first q t.rows ≡ some r
      → has_row_id libs id c.type r ≡ false
      → first q (keep (λ x. not (p x)) t.rows) ≡ some r
  kept_row t c p q r column test first_is other =
      let tests : ok (has_row_id libs id c.type) ≡ ok p =
        ap (id_test libs id) (sym column) ∙ test in
      let same : has_row_id libs id c.type ≡ p = ground arith in
      first-keep_kept q (λ x. not (p x)) t.rows r first_is (rw (← same) (rw other refl))

  IsDeleted→KeepsOthers :
      (before after : DataDb) → IsDeleted libs table id before after → KeepsOthers before after
  IsDeleted→KeepsOthers before after (u, p, there, test, left) t c q r found column first_is other =
      let same : t ≡ u = ground arith in
      (
        with_rows (keep (λ x. not (p x)) u.rows) u,
        left,
        kept_row u c p q r (subst (λ x. first (λ y. is_id y.name) x.columns ≡ some c) same column)
            test (subst (λ x. first q x.rows ≡ some r) same first_is) other,
      )

  -- Where no foreign key and no trigger acts on a deletion from the table: after a deletion that was
  -- answered no request for the id of the row returns one, on whatever connection and by whomever;
  -- the tables of other names are as they were, and so is every row of this table with another id.
  pub delete_table_row_gone :
      (auth : Option AuthInfo) (w : Conn DataDb)
      → ((d e : DataDb) → libs.react table d e ≡ ok e)
      → (delete_table_row libs auth table id w).0 ≡ ok tt
      → NeverFound (delete_table_row libs auth table id w).1.tables
        × IsKept libs table id w.tables (delete_table_row libs auth table id w).1.tables
        × KeepsOthers w.tables (delete_table_row libs auth table id w).1.tables
  delete_table_row_gone auth w quiet h =
      let after : DataDb = (delete_table_row libs auth table id w).1.tables in
      let (removed, kept) = (delete_table_row-Makes libs table id quiet auth).made w tt h in
      (
        IsGone→NeverFound after (IsDeleted→IsGone libs table id w.tables after removed),
        kept,
        IsDeleted→KeepsOthers w.tables after removed,
      )
