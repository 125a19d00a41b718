-- ===== src/Client/Local.antt =====
-- pyronites/pyronites/local.py: the JSON rows that the client keeps in SQLite, a list for each
-- table in the order in which SQLite returns them. SQLite takes table names that differ only in case
-- for one table: a store is asked for the name in lower case. `py_str` is Python's `str` of a JSON value, and
-- a row that is stored and read back is the same row. A table that was never written is empty.
pub mod Rows
use pyronites.Base.{
  ℕ, zero, suc, ◌+◌, Bool, true, false, not, ◌||◌, ◌&&◌, Option, none, some, List, [], ◌∷◌, ◌++◌,
  Text, codes, text_eq, lower, keep, first, update, any, all, is_letter, is_digit, drop, take,
  length, ◌==◌, if◌then◌else◌,
}
use pyronites.Json.{Value, null, str, Fields, end, field, get?, get, set, or_null, truthy}

pub record Row : Type 0 where
  pub id : Text
  pub fields : Fields

abbrev pub Store : Type 0
Store = Text → List Row

pub data Fault : Type 0 where
  -- ApiError: an invalid table name; 404
  bad_name : Fault
  row_not_found : Fault
  -- sqlite3.IntegrityError
  integrity : Fault

pub data Reaction {ℓ} (A : Type ℓ) : Type ℓ where
  gives : A → Reaction A
  throws : Fault → Reaction A

abbrev pub id_key : Text
id_key = codes "id"

abbrev pub Local : Type 0 → Type 0
Local A = Store → Reaction A × Store

-- `name.replace("_", "").isalnum()`, for a name of ASCII characters
unfoldable pub is_table_name : Text → Bool
is_table_name name =
    any (λ c. not (c == b'_')) name && all (λ c. c == b'_' || is_letter c || is_digit c) name

abbrev pub write : Text → List Row → Store → Store
write table rows s name = if text_eq name table then rows else s name

abbrev pub has_id : Text → Row → Bool
has_id id r = text_eq r.id id

-- `if "id" not in row: row["id"] = …`
unfoldable pub with_id : Row → Fields
with_id r = elim (get? id_key r.fields) [
  | none ↦ set id_key (str r.id) r.fields
  | some v ↦ r.fields
]

abbrev guarded : {A : Type 0} → Text → Local A → Local A
guarded table m s = if is_table_name table then m s else (throws bad_name, s)

-- INSERT OR REPLACE: the row that is replaced goes, and the new one stands last
unfoldable pub upsert : Row → List Row → List Row
upsert r rows = keep (λ q. not (has_id r.id q)) rows ++ r ∷ []

-- `{**existing, **data}`
unfoldable pub merge : Fields → Fields → Fields
merge old end = old
merge old (field k v fs) = merge (set k v old) fs

module _ (py_str : Value → Text) where
  -- `str(row.get(column)) != str(value)` skips the row
  abbrev matching : Option (Text × Text) → Fields → Bool
  matching none fs = true
  matching (some (column, value)) fs = text_eq (py_str (get column fs)) value

  unfoldable pub select_rows : Option (Text × Text) → List Row → List Fields
  select_rows filter [] = []
  select_rows filter (r ∷ rows) =
      let rest = select_rows filter rows in
      if matching filter (with_id r) then with_id r ∷ rest else rest

  abbrev skipped : Option ℕ → List Fields → List Fields
  skipped none rows = rows
  skipped (some n) rows = drop n rows

  abbrev capped : Option ℕ → List Fields → List Fields
  capped none rows = rows
  capped (some n) rows = take n rows

  -- LocalStore.select; the filter is a column and a value, or none unless both were given
  unfoldable pub select : Text → Option (Text × Text) → Option ℕ → Option ℕ → Local (List Fields)
  unfolding select_rows
  select table filter limit offset =
      guarded table
        (λ s. (gives (capped limit (skipped offset (select_rows filter (s (lower table))))), s))

  -- LocalStore.get
  unfoldable pub get_row : Text → Text → Local (Option Fields)
  get_row table id = guarded table (λ s. (
    gives (elim (first (has_id id) (s (lower table))) [ none ↦ none | some r ↦ some (with_id r) ]),
    s,
  ))

  -- the id of a row to be stored, with the new uuid `fresh`, and the row
  unfoldable pub keyed : Text → Fields → Row
  keyed fresh fs =
      let id = if truthy (get id_key fs) then py_str (get id_key fs) else fresh in
      record { id = id; fields = set id_key (str id) fs }

  -- LocalStore.insert
  unfoldable pub insert : Text → Text → Fields → Local Fields
  insert fresh table fs = guarded table (λ s.
      let r = keyed fresh fs in
      (gives r.fields, write (lower table) (upsert r (s (lower table))) s))

  abbrev update_found :
      Text → Text → Fields → Reaction (Option Fields) × Store → Reaction Fields × Store
  update_found table id new (throws f, s) = (throws f, s)
  update_found table id new (gives none, s) = (throws row_not_found, s)
  update_found table id new (gives (some old), s) =
      let merged = set id_key (str id) (merge old new) in
      (
        gives merged,
        write (lower table)
            (update (has_id id) (λ r. record r { fields = merged }) (s (lower table))) s,
      )

  -- LocalStore.update
  unfoldable pub update_row : Text → Text → Fields → Local Fields
  unfolding get_row merge
  update_row table id new s = update_found table id new (get_row table id s)

  abbrev delete_found : Text → Text → Reaction (Option Fields) × Store → Reaction (Unit {0}) × Store
  delete_found table id (throws f, s) = (throws f, s)
  delete_found table id (gives none, s) = (throws row_not_found, s)
  delete_found table id (gives (some old), s) =
      (gives tt, write (lower table) (keep (λ r. not (has_id id r)) (s (lower table))) s)

  -- LocalStore.delete
  unfoldable pub delete_row : Text → Text → Local (Unit {0})
  unfolding get_row
  delete_row table id s = delete_found table id (get_row table id s)

  -- the loop of `replace_all`, `fresh` being the uuids to come: a second row of the same id raises,
  -- with the rows so far in place
  unfoldable pub insert_all :
      (ℕ → Text) → ℕ → List Fields → List Row → Reaction (Unit {0}) × List Row
  unfolding keyed
  insert_all fresh n [] rows = (gives tt, rows)
  insert_all fresh n (fs ∷ rest) rows =
      let r = keyed (fresh n) fs in
      let more = insert_all fresh (suc n) rest (rows ++ r ∷ []) in
      if any (has_id r.id) rows then (throws integrity, rows) else more

  -- LocalStore.replace_all
  unfoldable pub replace_all : (ℕ → Text) → Text → List Fields → Local (Unit {0})
  unfolding insert_all
  replace_all fresh table new =
      guarded table (λ s.
        let (result, rows) = insert_all fresh 0 new [] in (result, write (lower table) rows s))
