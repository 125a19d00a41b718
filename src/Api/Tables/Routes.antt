-- ===== src/Api/Tables/Routes.antt =====
-- backend/api/tables.py: the handlers that read, behind the caller that `auth` describes.
use pyronites.Base.{
  ℕ, ◌==◌, Bool, true, false, not, ◌&&◌, ◌||◌, Option, none, some, List, [], ◌∷◌, map, Text, codes,
  text_eq, lower, upper, member, starts_with, leb, ltb, length, keep, first, take, drop,
  if◌then◌else◌,
}
use pyronites.Db.{
  Result, ok, err, Exec, pure, lift, execute, catch, http_exception, operational_error, ◌>>=◌, ◌>>◌,
}
use pyronites.Json.{Fields, get}
use pyronites.Auth.ApiKeys.{read_scope}
use pyronites.Api.AuthDeps.{AuthInfo, require_scopes}
use pyronites.Api.Rows.{deserialize_row}
use pyronites.Api.Tables.{
  ColumnInfo, Row, Table, DataDb, Libraries, reading, find_table, count_rows, by_id,
}

-- the tables of the platform, by the NOT IN of the query, and by PROTECTED
abbrev pub platform_tables : List Text
platform_tables =
    codes "users"
    ∷ codes "sessions"
    ∷ codes "api_keys"
    ∷ codes "migrations"
    ∷ codes "projects"
    ∷ codes "storage_files"
    ∷ codes "password_reset_tokens"
    ∷ []

-- `LIKE 'sqlite_%'`: of any case, and the `_` is any one character
abbrev pub is_internal : Text → Bool
is_internal name = starts_with (codes "sqlite") (lower name) && leb 7 (length name)

abbrev pub is_listed : Text → Bool
is_listed name = not (is_internal name) && not (member name platform_tables)

abbrev pub names : DataDb → List Text
names d = map (λ t. t.name) d.tables

-- get_allowed_tables
unfoldable pub get_allowed_tables : Exec DataDb (List Text)
unfolding execute keep
get_allowed_tables = execute (λ d. (ok (keep is_listed (names d)), d))

-- validate_table
unfoldable pub validate_table : Text → List Text → Result Text
unfolding member
validate_table table allowed = if member table allowed then ok table else err (http_exception 404)

-- validate_column
unfoldable pub validate_column : Text → List Text → Result Text
unfolding member
validate_column column allowed =
    if member column allowed then ok column else err (http_exception 404)

abbrev pub columns_of : Option Table → List ColumnInfo
columns_of none = []
columns_of (some t) = t.columns

-- PRAGMA table_info
unfoldable pub table_info : Text → Exec DataDb (List ColumnInfo)
unfolding execute
table_info name = execute (λ d. (ok (columns_of (find_table name d)), d))

abbrev pub type_of : Option ColumnInfo → Option Text
type_of none = none
type_of (some c) = some (upper c.type)

-- the dict that get_column_types returns
abbrev pub types : List ColumnInfo → Text → Option Text
types columns key = type_of (first (λ c. text_eq c.name key) columns)

abbrev pub column_names : List ColumnInfo → List Text
column_names columns = map (λ c. c.name) columns

-- the order of `sorted` on texts
unfoldable pub text_le : Text → Text → Bool
text_le [] t = true
text_le (c ∷ s) [] = false
text_le (c ∷ s) (d ∷ t) = ltb c d || (c == d && text_le s t)

unfoldable pub place : Text → List Text → List Text
unfolding text_le
place s [] = s ∷ []
place s (t ∷ ts) = if text_le s t then s ∷ t ∷ ts else t ∷ place s ts

unfoldable pub sorted : List Text → List Text
unfolding place
sorted [] = []
sorted (s ∷ ss) = place s (sorted ss)

-- an entry of the list of tables
pub record TableCount : Type 0 where
  pub name : Text
  pub rows : ℕ

-- SELECT COUNT(*), and 0 where it fails
unfoldable pub count_table : Text → Exec DataDb ℕ
unfolding execute
count_table name = catch (execute (reading count_rows name)) (λ e. pure 0)

unfoldable pub count_tables : List Text → Exec DataDb (List TableCount)
unfolding count_table
count_tables [] = pure []
count_tables (n ∷ ns) = do
  count ← count_table n
  rest ← count_tables ns
  pure (record { name = n; rows = count } ∷ rest)

-- list_tables
unfoldable pub list_tables : Option AuthInfo → Exec DataDb (List TableCount)
unfolding require_scopes get_allowed_tables sorted count_tables
list_tables auth = do
  require_scopes auth (read_scope ∷ [])
  allowed ← get_allowed_tables
  count_tables (sorted allowed)

-- table_schema
unfoldable pub table_schema : Option AuthInfo → Text → Exec DataDb (List ColumnInfo)
unfolding require_scopes get_allowed_tables validate_table table_info
table_schema auth table = do
  require_scopes auth (read_scope ∷ [])
  allowed ← get_allowed_tables
  valid ← lift (validate_table table allowed)
  table_info valid

-- `if filter_column and filter_value`: the condition, on a column that is known
abbrev pub row_filter : Option Text → Option Text → List Text → Result (Option (Text × Text))
row_filter (some (c ∷ s)) (some (d ∷ t)) allowed = elim (validate_column (c ∷ s) allowed) [
  | err e ↦ err e
  | ok column ↦ ok (some (column, d ∷ t))
]
row_filter _ _ allowed = ok none

-- the bounds of `limit` in the signature
abbrev pub check_limit : ℕ → Result (Unit {0})
check_limit limit = if leb 1 limit && leb limit 200 then ok tt else err (http_exception 422)

abbrev pub or_not_found : Option Row → Result Row
or_not_found none = err (http_exception 404)
or_not_found (some r) = ok r

module _ (libs : Libraries) where
  abbrev pub answer : List ColumnInfo → Row → Fields
  answer columns r = deserialize_row libs.dumps libs.loads (types columns) r.fields

  abbrev pub has_value : Text → Text → Option ColumnInfo → Result (Row → Bool)
  has_value key v none = err operational_error
  has_value key v (some c) = ok (λ r. libs.same c.type (get key r.fields) v)

  abbrev pub row_test : Option (Text × Text) → Table → Result (Row → Bool)
  row_test none t = ok (λ r. true)
  row_test (some (key, v)) t = has_value key v (first (λ c. text_eq c.name key) t.columns)

  -- SELECT … WHERE … LIMIT … OFFSET
  abbrev pub page : Option (Text × Text) → ℕ → ℕ → Table → Result (List Row)
  page condition limit offset t = elim (row_test condition t) [
    | err e ↦ err e
    | ok p ↦ ok (take limit (drop offset (keep p t.rows)))
  ]

  abbrev pub select_id : Text → Text → Exec DataDb (Option Row)
  select_id table id = execute (reading (by_id libs id) table)

  -- list_table_rows
  unfoldable pub list_table_rows :
      Option AuthInfo → Text → ℕ → ℕ → Option Text → Option Text → Exec DataDb (List Fields)
  unfolding require_scopes get_allowed_tables validate_table table_info validate_column execute keep
  list_table_rows auth table limit offset filter_column filter_value = do
    lift (check_limit limit)
    require_scopes auth (read_scope ∷ [])
    allowed ← get_allowed_tables
    valid ← lift (validate_table table allowed)
    known ← table_info valid
    condition ← lift (row_filter filter_column filter_value (column_names known))
    rows ← execute (reading (page condition limit offset) valid)
    columns ← table_info valid
    pure (map (answer columns) rows)

  -- get_table_row
  unfoldable pub get_table_row : Option AuthInfo → Text → Text → Exec DataDb Fields
  unfolding require_scopes get_allowed_tables validate_table table_info execute
  get_table_row auth table id = do
    require_scopes auth (read_scope ∷ [])
    allowed ← get_allowed_tables
    valid ← lift (validate_table table allowed)
    found ← select_id valid id
    row ← lift (or_not_found found)
    columns ← table_info valid
    pure (answer columns row)
