-- ===== src/Api/Rows.antt =====
-- backend/api/tables.py: the values of a row on their way to SQLite and back.
--
-- `dumps` and `loads` are json's; `loads` is none where it raises JSONDecodeError. A row is the dict
-- of its columns, and `types` the dict of their declared types.
pub mod Answered
use pyronites.Base.{
  Bool, true, false, ◌≡◌, refl, ap, sym, arith, Option, none, some, Text, codes, text_eq,
  if◌then◌else◌, Bool-cases, inl, inr,
}
use pyronites.Db.{Result, ok, err, http_exception}
use pyronites.Json.{Value, null, bool, num, str, arr, obj, Fields, end, field}

abbrev pub json : Text
json = codes "JSON"

-- `col_types.get(key, "TEXT")`
abbrev pub or_plain : Option Text → Text
or_plain none = codes "TEXT"
or_plain (some t) = t

abbrev pub is_json : Option Text → Bool
is_json none = false
is_json (some t) = text_eq t json

abbrev pub or_same : Text → Option Value → Value
or_same s none = str s
or_same s (some v) = v

module _ (dumps : Value → Text) (loads : Text → Option Value) where
  -- a text is kept where it is JSON
  abbrev pub json_text : Text → Option Value → Result Value
  json_text s none = err (http_exception 400)
  json_text s (some v) = ok (str s)

  abbrev pub json_value : Value → Result Value
  json_value null = ok null
  json_value (str s) = json_text s (loads s)
  json_value (bool b) = ok (str (dumps (bool b)))
  json_value (num t) = ok (str (dumps (num t)))
  json_value (arr vs) = ok (str (dumps (arr vs)))
  json_value (obj fs) = ok (str (dumps (obj fs)))

  abbrev pub scalar : Value → Result Value
  scalar (arr vs) = err (http_exception 400)
  scalar (obj fs) = err (http_exception 400)
  scalar null = ok null
  scalar (bool b) = ok (bool b)
  scalar (num t) = ok (num t)
  scalar (str s) = ok (str s)

  -- _coerce_write_value
  unfoldable pub coerce_write_value : Value → Text → Result Value
  coerce_write_value v type = if text_eq type json then json_value v else scalar v

  abbrev pub with_field : Text → Result Value → Result Fields → Result Fields
  with_field k (err e) rest = err e
  with_field k (ok v) (err e) = err e
  with_field k (ok v) (ok fs) = ok (field k v fs)

  -- prepare_row_for_write: the first field that is refused ends it
  unfoldable pub prepare_row_for_write : (Text → Option Text) → Fields → Result Fields
  unfolding coerce_write_value
  prepare_row_for_write types end = ok end
  prepare_row_for_write types (field k v fs) =
      with_field k (coerce_write_value v (or_plain (types k))) (prepare_row_for_write types fs)

  -- the value that a row's answer shows
  unfoldable pub read_value : Bool → Value → Value
  read_value false v = v
  read_value true null = null
  read_value true (bool b) = bool b
  read_value true (num t) = num t
  read_value true (str s) = or_same s (loads s)
  read_value true (arr vs) = arr vs
  read_value true (obj fs) = obj fs

  -- deserialize_row
  unfoldable pub deserialize_row : (Text → Option Text) → Fields → Fields
  unfolding read_value
  deserialize_row types end = end
  deserialize_row types (field k v fs) =
      field k (read_value (is_json (types k)) v) (deserialize_row types fs)
