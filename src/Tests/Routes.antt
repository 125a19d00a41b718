-- ===== src/Tests/Routes.antt =====
-- The routes of the tables.
use pyronites.Base.{
  update, upper, first, starts_with, all, member, lower, is_digit, refl, Bool, true, false, none,
  some, [], ◌∷◌, Text, codes, text_eq, ◌==◌, All, any, arith, ◌≡◌, subst, sym,
}
use pyronites.Json.{set, get?, Value, Fields, str, end, field}
use pyronites.Db.{ok, err, operational_error, healthy}
use pyronites.Db.Refused.{Refused}
use pyronites.Db.Returns.{Returns}
use pyronites.Api.Tables.{id_value, ColumnInfo, is_id, has_row_id, Row, Table, DataDb, Libraries}
use pyronites.Api.Tables.Writes.{with_id, create_table_row, delete_table_row}
use pyronites.Api.Tables.ReadBack.{IsNew, get_table_row-create_table_row}
use pyronites.Api.Rows.{deserialize_row, prepare_row_for_write}
use pyronites.Api.Tables.Routes
use pyronites.Api.Tables.Planes.{list_table_rows, get_table_row}
use pyronites.Api.Tables.Hidden.{on_drop, serve, hidden_tables-Refused}
use pyronites.Api.Tables.Deleted.{IsKept}
use pyronites.Api.Tables.Gone.{NeverFound, KeepsOthers, delete_table_row_gone}
use pyronites.Api.Tables.Masked.{IsMasked, scoped_rows-IsMasked}
use pyronites.Tests.Scoped.{caller, context}

abbrev text_is : Value → Text → Bool
text_is (str s) v = text_eq s v
text_is _ v = false

abbrev libs : Libraries
libs = record {
  same = λ type. text_is;
  insert = λ t values. ok (record { rowid = 3; fields = values });
  amend = λ t r values. ok (record { rowid = r.rowid; fields = values });
  define = λ ddl d. (err operational_error, d);
  react = λ table d e. ok e;
  digit = is_digit;
  dumps = λ v. codes "null";
  loads = λ s. none;
}

abbrev note : Text → Row
note id = record { rowid = 1; fields = field (codes "id") (str id) end }

abbrev id_column : ColumnInfo
id_column = record { name = codes "id"; type = codes "TEXT"; pk = true }

abbrev notes : Table
notes = record {
  name = codes "notes";
  columns = id_column ∷ record { name = codes "title"; type = codes "TEXT"; pk = false } ∷ [];
  rows = note (codes "a") ∷ note (codes "b") ∷ [];
}

abbrev stored : DataDb
stored = record { tables = notes ∷ []; last_insert_rowid = 0 }

hidden_tables-Refused_example :
    Refused (serve libs (some caller) (on_drop (codes "api_keys") (codes "api_keys")))
unfolding starts_with lower member text_eq
hidden_tables-Refused_example =
    hidden_tables-Refused libs (some caller) (on_drop (codes "api_keys") (codes "api_keys")) refl

delete_table_row_gone_example :
    NeverFound libs
      (codes "notes")
      (codes "a")
      (delete_table_row libs (some caller) (codes "notes") (codes "a") (healthy stored)).1.tables
    × IsKept libs
        (codes "notes")
        (codes "a")
        stored
        (delete_table_row libs (some caller) (codes "notes") (codes "a") (healthy stored)).1.tables
    × KeepsOthers libs
        (codes "notes")
        (codes "a")
        stored
        (delete_table_row libs (some caller) (codes "notes") (codes "a") (healthy stored)).1.tables
unfolding delete_table_row all text_eq starts_with lower first id_value
delete_table_row_gone_example =
    delete_table_row_gone libs (codes "notes") (codes "a") (some caller) (healthy stored)
      (λ d e. refl) refl

scoped_rows-IsMasked_example :
    Returns (All IsMasked) (list_table_rows context libs (codes "notes") 10 0 none none)
    × Returns IsMasked (get_table_row context libs (codes "notes") (codes "a"))
scoped_rows-IsMasked_example =
    scoped_rows-IsMasked context libs (codes "notes") 10 0 none none (codes "a")

abbrev titled : Fields
titled = field (codes "title") (str (codes "hi")) end

abbrev titled_row : Row
titled_row = record {
  rowid = 3;
  fields = field (codes "title") (str (codes "hi")) (field (codes "id") (str (codes "z")) end);
}

abbrev IsNewIn : Table → Row → Type 0
IsNewIn t r =
    (any (λ x. x.rowid == r.rowid) t.rows ≡ false)
    × ((c : ColumnInfo) × (first (λ x. is_id x.name) t.columns ≡ some c)
        × (has_row_id libs (codes "z") c.type r ≡ true)
        × (any (has_row_id libs (codes "z") c.type) t.rows ≡ false))

titled-IsNew : IsNew libs (codes "notes") (codes "z") (codes "z") titled stored
unfolding first any prepare_row_for_write member text_eq upper get? set lower id_value
titled-IsNew t values r there coerced made =
    let table : notes ≡ t = ground arith in
    let here : ok titled_row.fields ≡ ok values =
      subst
        (λ x.
          prepare_row_for_write libs.dumps libs.loads (Routes.types x.columns)
            (with_id (codes "z") x.columns titled)
          ≡ ok values)
        (sym table) coerced in
    let same : titled_row.fields ≡ values = ground arith in
    let row : record { rowid = 3; fields = values } ≡ r = ground arith in
    subst (λ x. IsNewIn x r) table
      (subst (IsNewIn notes) row (
        subst (λ x. IsNewIn notes (record { rowid = 3; fields = x })) same
          (refl, (id_column, refl, refl, refl))))

get_table_row-create_table_row_example :
    (Routes.get_table_row libs (some caller) (codes "notes") (codes "z") (
      healthy
        (create_table_row libs
          (codes "z")
          (some caller)
          (codes "notes")
          titled
          (healthy stored)).1.tables)).0
    ≡ ok titled_row.fields
unfolding member text_eq create_table_row all starts_with lower first upper get? set update
    deserialize_row
get_table_row-create_table_row_example =
    get_table_row-create_table_row libs (codes "notes") (codes "z") (codes "z") (some caller) caller
      titled titled_row.fields (healthy stored) titled-IsNew refl refl
