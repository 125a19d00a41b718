-- ===== src/Client/Table/Cached.antt =====
-- A table with the policy `cache`, after a row was inserted.
use pyronites.Base.{ℕ, ◌≡◌, true, none, List, [], ◌∷◌, Text, lower, text_eq_refl, arith}
use pyronites.Client.Config.{cache}
use pyronites.Json.{Value, Fields, obj}
use pyronites.Client.Http.{Platform, Request, Answer, Reply, parsed}
use pyronites.Client.Http
use pyronites.Client.Local.{Store, Row, is_table_name, keyed, insert, get_row}
use pyronites.Client.Local.Rows.{get-insert, select-insert}
use pyronites.Client.Table.{Query, World, gave}
use pyronites.Client.Table.Calls.{get_one, insert_one, execute_select, remember}

store-get_row :
    (py_str : Value → Text) (table id : Text) (s : Store) → (get_row py_str table id s).1 ≡ s
unfolding get_row
store-get_row py_str table id s = ground arith

module _ (px : Platform) (c : Http.Policy) (server : List Request → Answer) (py_str : Value → Text)
    (fresh : ℕ → Text) (decimal : ℕ → Text) (q : Query) (cached : q.policy ≡ cache)
    (opened : q.has_local ≡ true) (named : is_table_name q.name ≡ true) where
  abbrev stored : Fields → Row
  stored fs = keyed py_str (fresh 0) fs

  abbrev after_insert : Fields → World → World
  after_insert fs w = (insert_one px c server py_str fresh decimal q fs w).1

  -- the store after the insert is the one that keeps what the server answered
  rows-insert_one :
      (fs gs : Fields) (w : World)
      → (insert_one px c server py_str fresh decimal q fs w).0 ≡ gave (parsed (obj gs))
      → (after_insert fs w).rows ≡ (insert py_str (fresh 0) q.name gs w.rows).1
  unfolding insert_one remember insert
  rows-insert_one fs gs w h = ground arith

  -- With the policy `cache`, an open store and a valid table name: an insert that the server answered
  -- with a row is read back from the store. A get of that row's id gives the row, changes nothing and
  -- sends nothing.
  get_one-insert_one :
      (fs gs : Fields) (w : World)
      → (insert_one px c server py_str fresh decimal q fs w).0 ≡ gave (parsed (obj gs))
      → get_one px c server py_str fresh decimal q (stored gs).id (after_insert fs w)
        ≡ (gave (parsed (obj (stored gs).fields)), after_insert fs w)
  unfolding get_one
  get_one-insert_one fs gs w h =
      let there = get-insert py_str q.name named (fresh 0) gs (stored gs).id w.rows in
      ground (
        arith,
        there,
        rows-insert_one fs gs w h,
        text_eq_refl (stored gs).id,
        store-get_row py_str q.name (stored gs).id (after_insert fs w).rows,
      )

  -- With the policy `cache`, an open store and a valid table name: after an insert through an empty
  -- cache that the server answered with a row, a select without filter, limit and offset returns
  -- that row alone and sends nothing, whatever other rows the server holds.
  execute_select-insert_one :
      (fs gs : Fields) (w : World)
      → q.filter_column ≡ none
      → q.limit ≡ none
      → q.offset ≡ none
      → w.rows (lower q.name) ≡ []
      → (insert_one px c server py_str fresh decimal q fs w).0 ≡ gave (parsed (obj gs))
      → execute_select px c server py_str fresh decimal q (after_insert fs w)
        ≡ (gave (obj (stored gs).fields ∷ []), after_insert fs w)
  unfolding execute_select
  execute_select-insert_one fs gs w all no_limit no_offset empty h =
      let there = select-insert py_str q.name named (fresh 0) gs w.rows empty in
      ground (arith, there, rows-insert_one fs gs w h)
