-- ===== src/Api/Rows/Answered.antt =====
-- backend/api/tables.py: what a written row is answered as.
use pyronites.Base.{
  true, ◌≡◌, refl, ap, sym, arith, Option, none, some, Text, text_eq, Bool-cases, inl, inr,
}
use pyronites.Db.{Result, ok, err}
use pyronites.Json.{Value, null, bool, num, str, arr, obj, Fields, end, field}
use pyronites.Api.Rows.{
  json, or_plain, is_json, or_same, json_text, json_value, scalar, coerce_write_value, with_field,
  prepare_row_for_write, read_value, deserialize_row,
}

plain_is_json : (o : Option Text) → text_eq (or_plain o) json ≡ is_json o
unfolding text_eq
plain_is_json none = refl
plain_is_json (some t) = refl

module _ (dumps : Value → Text) (loads : Text → Option Value) where
  -- json reads back what it wrote, at the values of the row
  unfoldable pub IsWritable : Fields → Type 0
  IsWritable end = Unit {0}
  IsWritable (field k v fs) = (loads (dumps v) ≡ some v) × IsWritable fs

  read-json :
      (v u : Value)
      → loads (dumps v) ≡ some v
      → json_value dumps loads v ≡ ok u
      → read_value dumps loads true u ≡ read_value dumps loads true v
  unfolding read_value
  read-json null u back h = ground arith
  read-json (bool b) u back h = ground arith
  read-json (num t) u back h = ground arith
  read-json (str s) u back h = go (loads s) refl h
    where
      go :
          (o : Option Value)
          → loads s ≡ o
          → json_text dumps loads s o ≡ ok u
          → read_value dumps loads true u ≡ or_same s (loads s)
      go none e k = absurd (ground arith)
      go (some w) e k = ground arith
  read-json (arr vs) u back h = ground arith
  read-json (obj fs) u back h = ground arith

  read-scalar : (v u : Value) → scalar dumps loads v ≡ ok u → u ≡ v
  read-scalar null u h = ground arith
  read-scalar (bool b) u h = ground arith
  read-scalar (num t) u h = ground arith
  read-scalar (str s) u h = ground arith
  read-scalar (arr vs) u h = absurd (ground arith)
  read-scalar (obj fs) u h = absurd (ground arith)

  read-coerced :
      (o : Option Text) (v u : Value)
      → loads (dumps v) ≡ some v
      → coerce_write_value dumps loads v (or_plain o) ≡ ok u
      → read_value dumps loads (is_json o) u ≡ read_value dumps loads (is_json o) v
  unfolding coerce_write_value read_value
  read-coerced o v u back h = elim (Bool-cases (is_json o)) [
    | inl t ↦ rw t (read-json v u back (ground (arith, plain_is_json o)))
    | inr f ↦ rw f (read-scalar v u (ground (arith, plain_is_json o)))
  ]

  deserialize_field :
      (types : Text → Option Text) (k : Text) (v : Value) (fs row : Fields)
      → loads (dumps v) ≡ some v
      → (a : Result Value) (b : Result Fields)
      → coerce_write_value dumps loads v (or_plain (types k)) ≡ a
      → ((us : Fields)
          → b ≡ ok us
          → deserialize_row dumps loads types us ≡ deserialize_row dumps loads types fs)
      → with_field dumps loads k a b ≡ ok row
      → deserialize_row dumps loads types row ≡ deserialize_row dumps loads types (field k v fs)
  unfolding deserialize_row
  deserialize_field types k v fs row back (err e) b p q r = absurd (ground arith)
  deserialize_field types k v fs row back (ok u) (err e) p q r = absurd (ground arith)
  deserialize_field types k v fs row back (ok u) (ok us) p q r =
      let same : field k u us ≡ row = ground arith in
      rw (← same) (rw (read-coerced (types k) v u back p) (rw (q us refl) refl))

  -- Where json reads back what it wrote, a row that is accepted for writing is answered as the
  -- written row itself would be: its JSON columns show their values, and a text of one of them the
  -- value that it parses to; all other columns are as they were given.
  pub deserialize_row-prepare_row_for_write :
      (types : Text → Option Text) (given row : Fields)
      → IsWritable given
      → prepare_row_for_write dumps loads types given ≡ ok row
      → deserialize_row dumps loads types row ≡ deserialize_row dumps loads types given
  unfolding prepare_row_for_write deserialize_row IsWritable
  deserialize_row-prepare_row_for_write types end row w h =
      (let same : end ≡ row = ground arith in ap (deserialize_row dumps loads types) (sym same))
  deserialize_row-prepare_row_for_write types (field k v fs) row (back, w) h =
      deserialize_field types k v fs row back
        (coerce_write_value dumps loads v (or_plain (types k)))
        (prepare_row_for_write dumps loads types fs) refl
        (λ us e. deserialize_row-prepare_row_for_write types fs us w e) h
