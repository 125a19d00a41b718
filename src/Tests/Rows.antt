-- ===== src/Tests/Rows.antt =====
-- Rows of tables.
use pyronites.Base.{◌≡◌, refl, none, some, Option, Text, codes, text_eq, if◌then◌else◌}
use pyronites.Json.{Value, null, num, str, arr, nil, Fields, end, field}
use pyronites.Api.Rows.{prepare_row_for_write, deserialize_row}
use pyronites.Api.Rows.Answered.{IsWritable, deserialize_row-prepare_row_for_write}

-- the JSON texts `[]`, `7` and `null`
abbrev dumps : Value → Text
dumps (arr vs) = codes "[]"
dumps (num t) = codes "7"
dumps v = codes "null"

abbrev loads : Text → Option Value
loads t =
    if text_eq t (codes "[]")
    then some (arr nil)
    else if text_eq t (codes "7")
    then some (num (codes "7"))
    else if text_eq t (codes "null")
    then some null
    else none

abbrev types : Text → Option Text
types name = if text_eq name (codes "tags") then some (codes "JSON") else some (codes "INTEGER")

abbrev given : Fields
given = field (codes "n") (num (codes "7")) (field (codes "tags") (arr nil) end)

abbrev written : Fields
written = field (codes "n") (num (codes "7")) (field (codes "tags") (str (codes "[]")) end)

deserialize_row-prepare_row_for_write_example :
    deserialize_row dumps loads types written ≡ deserialize_row dumps loads types given
unfolding IsWritable text_eq prepare_row_for_write
deserialize_row-prepare_row_for_write_example =
    deserialize_row-prepare_row_for_write dumps loads types given written (refl, (refl, tt)) refl
