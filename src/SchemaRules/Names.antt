-- ===== src/SchemaRules/Names.antt =====
-- What the validators of `CreateTableBody` let through.
use pyronites.Base.{
  ◌≡◌, ◌≤◌, true, false, ◌||◌, none, List, [], ◌∷◌, Text, All, all, member, lower, upper, strip,
  length, ◌==◌, arith, refl,
}
use pyronites.SchemaRules.{
  Column, accepted, is_ident, is_word, word_rest, check_table, check_columns, check_column_list,
  allowed_column_types, reserved_tables,
}

word_rest_chars : (s : Text) → word_rest s ≡ true → all (λ c. is_word c || c == 10) s ≡ true
unfolding word_rest all
word_rest_chars [] h = refl
word_rest_chars (c ∷ []) h = ground arith
word_rest_chars (c ∷ d ∷ s) h = ground (arith, word_rest_chars (d ∷ s))

ident_chars : (s : Text) → is_ident s ≡ true → all (λ c. is_word c || c == 10) s ≡ true
unfolding is_ident all
ident_chars [] h = refl
ident_chars (c ∷ s) h = ground (arith, word_rest_chars s)

-- A table name that is accepted is the given one without the blanks around it. It has only letters,
-- digits, `_` and newlines, and is, in lower case, none of the reserved names.
check_table_sound :
    (v t : Text)
    → check_table v ≡ accepted t
    → (t ≡ strip v)
      × (all (λ c. is_word c || c == 10) t ≡ true)
      × (member (lower t) reserved_tables ≡ false)
unfolding check_table
check_table_sound v t h = ground (arith, ident_chars (strip v))

-- the name of a column, as it is compared
abbrev pub folded : Column → Text
folded c = lower (strip c.name)

-- a column that may go into the DDL
pub record IsSound (c : Column) : Type 0 where
  pub ident : is_ident (strip c.name) ≡ true
  pub typed : member (upper (strip c.type)) allowed_column_types ≡ true

-- no name stands twice, and none of them in `seen`
abbrev pub AreNew : List Text → List Column → Type 0
AreNew seen [] = Unit
AreNew seen (c ∷ cs) = (member (folded c) seen ≡ false) × AreNew (folded c ∷ seen) cs

columns-IsSound :
    (seen : List Text) (cs : List Column)
    → check_columns seen cs ≡ none
    → All IsSound cs × AreNew seen cs
unfolding check_columns
columns-IsSound seen [] h = (tt, tt)
columns-IsSound seen (c ∷ cs) h =
    let later = columns-IsSound (folded c ∷ seen) cs (ground arith) in
    ((ground arith, later.0), (ground arith, later.1))

-- The columns of an accepted table are between 1 and 100; each has an identifier for a name and
-- one of the allowed types, and no two names agree, upper and lower case taken for the same.
check_column_list-IsSound :
    (cs cs' : List Column)
    → check_column_list cs ≡ accepted cs'
    → (cs' ≡ cs) × (1 ≤ length cs) × (length cs ≤ 100) × All IsSound cs × AreNew [] cs
unfolding check_column_list
check_column_list-IsSound [] cs' h = absurd (ground arith)
check_column_list-IsSound (c ∷ cs) cs' h =
    let sound = columns-IsSound [] (c ∷ cs) (ground arith) in
    (ground arith, omega arith, ground arith, sound.0, sound.1)
