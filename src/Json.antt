-- ===== src/Json.antt =====
-- JSON values as the client and the backend handle them: what `json.loads` gives, and `json.dumps`
-- takes.
use pyronites.Base.{
  Bool, true, false, not, ◌||◌, Option, none, some, [], ◌∷◌, Text, codes, text_eq, if◌then◌else◌,
}

-- A number is kept as the text that Python's `str` gives for it.
mutual
  pub data Value : Type 0 where
    null : Value
    bool : Bool → Value
    num : Text → Value
    str : Text → Value
    arr : Items → Value
    obj : Fields → Value

  pub data Items : Type 0 where
    nil : Items
    cons : Value → Items → Items

  pub data Fields : Type 0 where
    end : Fields
    field : Text → Value → Fields → Fields

-- `d.get(key)`, with the missing key apart
unfoldable pub get? : Text → Fields → Option Value
get? key end = none
get? key (field k v fs) = if text_eq k key then some v else get? key fs

abbrev pub or_null : Option Value → Value
or_null none = null
or_null (some v) = v

-- `d.get(key)`
abbrev pub get : Text → Fields → Value
get key fs = or_null (get? key fs)

-- `d[key] = v`
unfoldable pub set : Text → Value → Fields → Fields
set key v end = field key v end
set key v (field k u fs) = if text_eq k key then field k v fs else field k u (set key v fs)

-- the truth value: numbers by their text
unfoldable pub truthy : Value → Bool
truthy null = false
truthy (bool b) = b
truthy (num t) = not (text_eq t (codes "0") || text_eq t (codes "0.0") || text_eq t (codes "-0.0"))
truthy (str []) = false
truthy (str (c ∷ s)) = true
truthy (arr nil) = false
truthy (arr (cons v vs)) = true
truthy (obj end) = false
truthy (obj (field k v fs)) = true

-- `a or b`
abbrev pub or_value : Value → Value → Value
or_value a b = if truthy a then a else b
