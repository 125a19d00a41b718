-- ===== src/SchemaRules.antt =====
-- backend/core/schema_rules.py: the names and types that go into DDL, and the DDL itself.
pub mod Literal
pub mod Names
use pyronites.Base.{
  ℕ, ◌≤◌, Bool, true, false, not, ◌&&◌, ◌||◌, Option, none, some, List, [], ◌∷◌, ◌++◌, map, Text,
  codes, text_eq, strip, upper, lower, member, join, is_letter, is_digit, leb, length, ◌==◌,
  if◌then◌else◌,
}

-- A column of the request. `default` is `str` of what was given; None stays apart.
pub record Column : Type 0 where
  pub name : Text
  pub type : Text
  pub not_null : Bool
  pub unique : Bool
  pub default : Option Text

pub record CreateTable : Type 0 where
  pub table : Text
  pub columns : List Column
  pub primary_key : Option Text

-- the ValueErrors of the validators
pub data Refusal : Type 0 where
  bad_table reserved_table no_column too_many bad_column bad_type duplicate long_default bad_key :
      Refusal

pub data Checked {ℓ} (A : Type ℓ) : Type ℓ where
  accepted : A → Checked A
  refused : Refusal → Checked A

abbrev pub is_word : ℕ → Bool
is_word c = is_letter c || is_digit c || c == b'_'

-- `[A-Za-z0-9_]*$`; a `$` also matches before a last newline
unfoldable pub word_rest : Text → Bool
word_rest [] = true
word_rest (c ∷ []) = is_word c || c == 10
word_rest (c ∷ d ∷ s) = is_word c && word_rest (d ∷ s)

-- IDENT_RE.match
unfoldable pub is_ident : Text → Bool
unfolding word_rest
is_ident [] = false
is_ident (c ∷ s) = (is_letter c || c == b'_') && word_rest s

abbrev pub allowed_column_types : List Text
allowed_column_types =
    codes "TEXT"
    ∷ codes "INTEGER"
    ∷ codes "REAL"
    ∷ codes "BLOB"
    ∷ codes "NUMERIC"
    ∷ codes "BOOLEAN"
    ∷ codes "DATETIME"
    ∷ codes "DATE"
    ∷ codes "JSON"
    ∷ []

abbrev pub reserved_tables : List Text
reserved_tables =
    codes "users"
    ∷ codes "sessions"
    ∷ codes "api_keys"
    ∷ codes "migrations"
    ∷ codes "projects"
    ∷ codes "sqlite_sequence"
    ∷ codes "storage_files"
    ∷ codes "password_reset_tokens"
    ∷ codes "oauth_identities"
    ∷ codes "oauth_states"
    ∷ codes "rate_limit_hits"
    ∷ []

-- CreateTableBody._table
unfoldable pub check_table : Text → Checked Text
check_table v =
    let t = strip v in
    if not (is_ident t)
    then refused bad_table
    else if member (lower t) reserved_tables
    then refused reserved_table
    else accepted t

abbrev default_text : Option Text → Text
default_text none = []
default_text (some d) = d

-- the loop of CreateTableBody._columns, after the names `seen`
unfoldable pub check_columns : List Text → List Column → Option Refusal
check_columns seen [] = none
check_columns seen (c ∷ cs) =
    let name = strip c.name in
    let later = check_columns (lower name ∷ seen) cs in
    if not (is_ident name)
    then some bad_column
    else if not (member (upper (strip c.type)) allowed_column_types)
    then some bad_type
    else if member (lower name) seen
    then some duplicate
    else if leb 501 (length (default_text c.default))
    then some long_default
    else later

abbrev or_columns : List Column → Option Refusal → Checked (List Column)
or_columns cs none = accepted cs
or_columns cs (some r) = refused r

-- CreateTableBody._columns
unfoldable pub check_column_list : List Column → Checked (List Column)
unfolding check_columns
check_column_list [] = refused no_column
check_column_list (c ∷ cs) =
    if leb 101 (length (c ∷ cs))
    then refused too_many
    else or_columns (c ∷ cs) (check_columns [] (c ∷ cs))

-- CreateTableBody._pk
unfoldable pub check_key : Option Text → Checked (Option Text)
check_key none = accepted none
check_key (some []) = accepted (some [])
check_key (some (c ∷ s)) = if is_ident (c ∷ s) then accepted (some (c ∷ s)) else refused bad_key

-- ── DDL ──

-- the end, or a last newline
abbrev at_end : Text → Bool
at_end [] = true
at_end (c ∷ []) = c == 10
at_end (c ∷ d ∷ s) = false

abbrev pub quote : ℕ
quote = 39

-- `value.replace("'", "''")`
unfoldable pub escape : Text → Text
escape [] = []
escape (c ∷ s) = let rest = escape s in if c == quote then quote ∷ quote ∷ rest else c ∷ rest

unfoldable pub quoted : Text → Text
unfolding escape
quoted v = quote ∷ (escape v ++ quote ∷ [])

abbrev or_text : Text → Text
or_text [] = codes "TEXT"
or_text (c ∷ s) = c ∷ s

abbrev default_part : Option Text → List Text
default_part none = []
default_part (some d) = (codes "DEFAULT " ++ d) ∷ []

abbrev flag : Bool → Text → List Text
flag b t = if b then t ∷ [] else []

abbrev key_def : Option Text → List Text
key_def none = []
key_def (some []) = []
key_def (some (c ∷ s)) = (codes "PRIMARY KEY (" ++ ((c ∷ s) ++ codes ")")) ∷ []

-- `digit` is `\d` of Python's re, which is more than 0 to 9 for a str
module _ (digit : ℕ → Bool) where
  -- what is left behind the digits at the front
  unfoldable pub skip_digits : Text → Text
  skip_digits [] = []
  skip_digits (c ∷ s) = if digit c then skip_digits s else c ∷ s

  abbrev first_digit : Text → Bool
  first_digit [] = false
  first_digit (c ∷ s) = digit c

  -- `([eE][+-]?\d+)?$`
  unfoldable pub digits_end : Text → Bool
  unfolding skip_digits
  digits_end s = first_digit s && at_end (skip_digits s)

  abbrev signed_end : Text → Bool
  signed_end [] = false
  signed_end (c ∷ s) = if c == b'+' || c == b'-' then digits_end s else digits_end (c ∷ s)

  unfoldable pub exponent_end : Text → Bool
  unfolding digits_end
  exponent_end [] = true
  exponent_end (c ∷ s) = if c == b'e' || c == b'E' then signed_end s else at_end (c ∷ s)

  -- `(\.\d+)?` and the exponent
  unfoldable pub fraction_end : Text → Bool
  unfolding exponent_end
  fraction_end [] = true
  fraction_end (c ∷ s) =
      if c == b'.' then first_digit s && exponent_end (skip_digits s) else exponent_end (c ∷ s)

  unfoldable pub unsigned_number : Text → Bool
  unfolding fraction_end
  unsigned_number s = first_digit s && fraction_end (skip_digits s)

  -- _NUMERIC_LITERAL_RE.match
  unfoldable pub is_numeric : Text → Bool
  unfolding unsigned_number
  is_numeric [] = false
  is_numeric (c ∷ s) = if c == b'-' then unsigned_number s else unsigned_number (c ∷ s)

  unfoldable pub render_value : Text → Option Text
  unfolding is_numeric quoted
  render_value [] = none
  render_value (c ∷ s) =
      let v = c ∷ s in
      if is_numeric v
      then some v
      else if text_eq (upper v) (codes "NULL")
      then some (codes "NULL")
      else if text_eq (upper v) (codes "TRUE") || text_eq (upper v) (codes "FALSE")
      then some (upper v)
      else some (quoted v)

  -- render_default_literal
  unfoldable pub render_default_literal : Option Text → Option Text
  unfolding render_value
  render_default_literal none = none
  render_default_literal (some raw) = render_value (strip raw)

  -- one column of the statement
  unfoldable pub column_def : Column → Text
  unfolding render_default_literal
  column_def c = join (codes " ") (
      strip c.name
      ∷ upper (strip (or_text c.type))
      ∷ (flag c.not_null (codes "NOT NULL")
          ++ (flag c.unique (codes "UNIQUE") ++ default_part (render_default_literal c.default))))

  -- build_create_table_ddl
  unfoldable pub build_create_table_ddl : Text → List Column → Option Text → Text
  unfolding column_def
  build_create_table_ddl table columns primary_key =
      codes "CREATE TABLE IF NOT EXISTS "
      ++ (table
          ++ (codes " ("
              ++ (join (codes ", ") (map column_def columns ++ key_def primary_key) ++ codes ")")))
