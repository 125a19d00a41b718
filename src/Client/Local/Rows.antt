-- ===== src/Client/Local/Rows.antt =====
-- What the local store returns after it was written.
use pyronites.Base.{
  first_sound, Option-cases, first-update, update, text_eq_sound, ◌≡◌, Bool, true, false, not, none,
  some, List, [], ◌∷◌, ◌++◌, Text, text_eq, lower, text_eq_refl, text_eq_iff, text_eq_sound, keep,
  first, first-keep-none, arith, refl, if◌then◌else◌, Bool-cases, inl, inr,
}
use pyronites.Json.{Value, str, Fields, end, field, get?, set}
use pyronites.Client.Local.{
  delete_row, update_row, merge, select, select_rows, Row, Store, gives, id_key, is_table_name,
  has_id, with_id, upsert, keyed, insert, get_row,
}

pub get?-set :
    (k j : Text) (v : Value) (fs : Fields)
    → get? j (set k v fs) ≡ (if text_eq k j then some v else get? j fs)
unfolding get? set
get?-set k j v end = refl
get?-set k j v (field i u fs) =
    ground (arith, text_eq_iff k j, text_eq_iff i k, text_eq_iff i j, get?-set k j v fs)

first-append {ℓ} :
    {A : Type ℓ} (p : A → Bool) (xs : List A) (x : A)
    → first p (xs ++ x ∷ [])
      ≡ elim (first p xs) [ none ↦ (if p x then some x else none) | some y ↦ some y ]
unfolding first
first-append p [] x = refl
first-append p (y ∷ ys) x = ground (arith, first-append p ys x)

first-keep_ne :
    (k j : Text) (rows : List Row)
    → text_eq k j ≡ false
    → first (has_id j) (keep (λ q. not (has_id k q)) rows) ≡ first (has_id j) rows
unfolding first keep
first-keep_ne k j [] h = refl
first-keep_ne k j (r ∷ rows) h =
    ground
      (arith, first-keep_ne k j rows h, text_eq_iff r.id k, text_eq_iff r.id j, text_eq_iff k j)

first-keep_self :
    (k : Text) (rows : List Row) → first (has_id k) (keep (λ q. not (has_id k q)) rows) ≡ none
first-keep_self k rows =
    first-keep-none (has_id k) (λ q. not (has_id k q)) rows (λ q e. ground arith)

first-upsert :
    (r : Row) (j : Text) (rows : List Row)
    → first (has_id j) (upsert r rows) ≡ (if text_eq r.id j then some r else first (has_id j) rows)
unfolding upsert
first-upsert r j rows = elim (Bool-cases (text_eq r.id j)) [
  | inl own ↦
      let same : r.id ≡ j = text_eq_sound r.id j own in
      rw own (rw first-append (ground (arith, first-keep_self j rows, same)))
  | inr other ↦ rw other (rw first-append (ground (arith, first-keep_ne r.id j rows other)))
]

-- the field "id" of a stored row is its key
abbrev pub IsKeyed : Row → Type 0
IsKeyed r = get? id_key r.fields ≡ some (str r.id)

pub with_id-keyed : (r : Row) → IsKeyed r → with_id r ≡ r.fields
unfolding with_id
with_id-keyed r h = ground (arith, h)

set-IsKeyed :
    (id : Text) (fs : Fields) → IsKeyed (record { id = id; fields = set id_key (str id) fs })
set-IsKeyed id fs = rw (get?-set, text_eq_refl id_key)

-- a row that is written over the rows of an id
first-update_self :
    (id j : Text) (fs : Fields) (rows : List Row) (old : Row)
    → text_eq id j ≡ true
    → first (has_id id) rows ≡ some old
    → first (has_id j) (update (has_id id) (λ r. record r { fields = fs }) rows)
      ≡ some (record old { fields = fs })
first-update_self id j fs rows old own found =
    let same : id ≡ j = text_eq_sound id j own in
    let owner : has_id id old ≡ true = first_sound (has_id id) rows old found in
    let written =
      first-update (has_id id) (has_id id) (λ r. record r { fields = fs }) rows old (λ r. refl)
        found in
    rw (← same) (ground arith)

first-update_ne :
    (id j : Text) (fs : Fields) (rows : List Row)
    → text_eq id j ≡ false
    → first (has_id j) (update (has_id id) (λ r. record r { fields = fs }) rows)
      ≡ first (has_id j) rows
unfolding first update
first-update_ne id j fs [] h = refl
first-update_ne id j fs (r ∷ rows) h = ground (
  arith,
  first-update_ne id j fs rows h,
  text_eq_iff r.id id,
  text_eq_iff r.id j,
  text_eq_iff id j,
)

with_id-set :
    (rid id : Text) (fs : Fields)
    → with_id (record { id = rid; fields = set id_key (str id) fs }) ≡ set id_key (str id) fs
unfolding with_id
with_id-set rid id fs = ground (arith, get?-set id_key id_key (str id) fs, text_eq_refl id_key)

module _ (py_str : Value → Text) (table : Text) (named : is_table_name table ≡ true) where
  pub keyed-IsKeyed : (fresh : Text) (fs : Fields) → IsKeyed (keyed py_str fresh fs)
  unfolding keyed
  keyed-IsKeyed fresh fs = set-IsKeyed _ fs

  -- In a table with a valid name, a row that was inserted is found under its id, with that id in
  -- its field "id"; what is found under any other id is what was found before.
  pub get-insert :
      (fresh : Text) (fs : Fields) (j : Text) (s : Store)
      → (get_row py_str table j (insert py_str fresh table fs s).1).0 ≡ (
          if text_eq (keyed py_str fresh fs).id j
          then gives (some (keyed py_str fresh fs).fields)
          else (get_row py_str table j s).0)
  unfolding get_row insert
  get-insert fresh fs j s = ground (
    arith,
    first-upsert (keyed py_str fresh fs) j (s (lower table)),
    with_id-keyed (keyed py_str fresh fs) (keyed-IsKeyed fresh fs),
    text_eq_refl (lower table),
    named,
  )

  -- a select of everything from a table that holds the inserted row alone
  pub select-insert :
      (fresh : Text) (fs : Fields) (s : Store)
      → s (lower table) ≡ []
      → select py_str table none none none (insert py_str fresh table fs s).1
        ≡ (gives ((keyed py_str fresh fs).fields ∷ []), (insert py_str fresh table fs s).1)
  unfolding select insert upsert select_rows keep
  select-insert fresh fs s h = ground (
    arith,
    with_id-keyed (keyed py_str fresh fs) (keyed-IsKeyed fresh fs),
    text_eq_refl (lower table),
    named,
  )

  -- In a table with a valid name, once a row was deleted, nothing is found under its id; what is
  -- found under any other id is what was found before.
  get-delete_row :
      (id j : Text) (s : Store)
      → (delete_row py_str table id s).0 ≡ gives tt
      → (get_row py_str table j (delete_row py_str table id s).1).0
        ≡ (if text_eq id j then gives none else (get_row py_str table j s).0)
  unfolding get_row delete_row
  get-delete_row id j s h = elim (Bool-cases (text_eq id j)) [
    | inl own ↦
        let same : id ≡ j = text_eq_sound id j own in
        ground
          (arith, first-keep_self id (s (lower table)), text_eq_refl (lower table), named, same)
    | inr other ↦
        ground
          (arith, first-keep_ne id j (s (lower table)) other, text_eq_refl (lower table), named)
  ]

  -- In a table with a valid name, once a row was updated, its id finds the row that the update
  -- returned; what is found under any other id is what was found before.
  get-update_row :
      (id j : Text) (new fs : Fields) (s : Store)
      → (update_row py_str table id new s).0 ≡ gives fs
      → (get_row py_str table j (update_row py_str table id new s).1).0
        ≡ (if text_eq id j then gives (some fs) else (get_row py_str table j s).0)
  unfolding get_row update_row
  get-update_row id j new fs s h = elim (Option-cases (first (has_id id) (s (lower table)))) [
    | inl missing ↦ absurd (ground arith)
    | inr (old, found) ↦ elim (Bool-cases (text_eq id j)) [
      | inl own ↦ ground (
        arith,
        first-update_self id j fs (s (lower table)) old own found,
        with_id-set old.id id (merge (with_id old) new),
        text_eq_refl (lower table),
        named,
      )
      | inr other ↦ ground (
        arith,
        first-update_ne id j fs (s (lower table)) other,
        text_eq_refl (lower table),
        named,
      )
    ]
  ]
