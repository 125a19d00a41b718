-- ===== src/Client/Table/Calls.antt =====
-- The calls of TableQuery.
--
-- `fresh` gives the uuids to come, `decimal` is Python's `str` of an int. A row of an answer that
-- is no JSON object makes `dict(row)` raise; that `dict` also takes an empty array or text, and an
-- array of pairs, is left out.
use pyronites.Base.{
  ℕ, suc, Option, none, some, List, [], ◌∷◌, ◌++◌, map, Text, codes, if◌then◌else◌,
}
use pyronites.Client.Config.{remote, local, cache}
use pyronites.Json.{Value, Fields, null, num, str, arr, obj, end, field}
use pyronites.Client.Http.{Platform, Request, Answer, Reply, parsed, request}
use pyronites.Client.Http
use pyronites.Client.Local.{select, get_row, insert, update_row, delete_row, replace_all}
use pyronites.Client.Table.{
  selecting, updating, deleting, no_store, no_filter, no_operation, no_rows, many_rows, not_found,
  assertion, type_error, Done, gave, World, Act, Query, give, fail, on_store, ◌>>=◌, ◌>>◌, received,
  table_path, row_path, filter_of, rows_of, items, objects, row_id, is_cached,
}

module _ (px : Platform) (c : Http.Policy) (server : List Request → Answer) (py_str : Value → Text)
    (fresh : ℕ → Text) (decimal : ℕ → Text) where
  abbrev pub call : Text → Text → Fields → Value → Act Reply
  call method path params body w =
      received
        (request px c server (record { method = method; path = path; params = params; body = body })
          w.http)
        w

  -- the end of a cached call: a row that came back is stored
  unfoldable pub remember : Query → Reply → Act Reply
  remember q (parsed (obj fs)) =
      if is_cached q
      then (do on_store (insert py_str (fresh 0) q.name fs); give (parsed (obj fs)))
      else give (parsed (obj fs))
  remember q r = give r

  -- _select_remote
  abbrev param : Text → Option Value → Fields → Fields
  param k none fs = fs
  param k (some v) fs = field k v fs

  abbrev number : Option ℕ → Option Value
  number none = none
  number (some n) = some (num (decimal n))

  abbrev filter_params : Option (Text × Text) → Fields
  filter_params none = end
  filter_params (some (column, value)) =
      field (codes "filter_column") (str column) (field (codes "filter_value") (str value) end)

  unfoldable pub select_remote : Query → Act (List Value)
  select_remote q = do
    result ←
        call (codes "GET") (table_path q.name)
          (param (codes "limit") (number q.limit) (
            param (codes "offset") (number q.offset)
              (filter_params (filter_of q.filter_column q.filter_value))))
          null
    give (rows_of result)

  abbrev select_local : Query → Act (List Value)
  select_local q = do
    rows ←
        on_store (select py_str q.name (filter_of q.filter_column q.filter_value) q.limit q.offset)
    give (map obj rows)

  -- `self._local.replace_all(self._name, remote_rows)`
  unfoldable pub refill : Text → List Value → Act (Unit {0})
  unfolding objects
  refill name vs =
      let (rows, bad) = objects vs in
      (do on_store (replace_all py_str fresh name rows); if bad then fail type_error else give tt)

  -- the cache held no row
  unfoldable pub select_through : Query → Act (List Value)
  unfolding select_remote refill
  select_through q = do
    rows ← select_remote q
    elim rows [ [] ↦ give [] | v ∷ vs ↦ refill q.name (v ∷ vs) >> give (v ∷ vs) ]

  unfoldable pub execute_select : Query → Act (List Value)
  unfolding select_through
  execute_select q = elim q.policy [
    | local ↦ if q.has_local then select_local q else fail no_store
    | cache ↦
        if q.has_local
        then (do
          rows ← select_local q
          elim rows [ [] ↦ select_through q | v ∷ vs ↦ give (v ∷ vs) ])
        else select_remote q
    | remote ↦ select_remote q
  ]

  unfoldable pub single : Query → Act Value
  unfolding execute_select
  single q = do
    rows ← execute_select q
    elim rows [ [] ↦ fail no_rows | v ∷ vs ↦ elim vs [ [] ↦ give v | u ∷ us ↦ fail many_rows ] ]

  abbrev get_remote : Query → Text → Act Reply
  get_remote q id = do result ← call (codes "GET") (row_path q.name id) end null; remember q result

  -- get
  unfoldable pub get_one : Query → Text → Act Reply
  unfolding remember
  get_one q id = elim q.policy [
    | local ↦
        if q.has_local
        then (do
          found ← on_store (get_row py_str q.name id)
          elim found [ none ↦ fail not_found | some fs ↦ give (parsed (obj fs)) ])
        else fail assertion
    | cache ↦
        if q.has_local
        then (do
          found ← on_store (get_row py_str q.name id)
          elim found [ none ↦ get_remote q id | some fs ↦ give (parsed (obj fs)) ])
        else get_remote q id
    | remote ↦ get_remote q id
  ]

  -- _insert_one; a list is inserted row by row
  unfoldable pub insert_one : Query → Fields → Act Reply
  unfolding remember
  insert_one q fs = elim q.policy [
    | local ↦
        if q.has_local
        then (do stored ← on_store (insert py_str (fresh 0) q.name fs); give (parsed (obj stored)))
        else fail no_store
    | _ ↦ (do result ← call (codes "POST") (table_path q.name) end (obj fs); remember q result)
  ]

  abbrev update_found : Query → Text → Fields → Act Reply
  update_found q id fs = elim q.policy [
    | local ↦
        if q.has_local
        then (do stored ← on_store (update_row py_str q.name id fs); give (parsed (obj stored)))
        else fail no_store
    | _ ↦ (do result ← call (codes "PATCH") (row_path q.name id) end (obj fs); remember q result)
  ]

  unfoldable pub execute_update : Query → Act Reply
  unfolding remember
  execute_update q = elim (row_id q) [
    | none ↦ fail no_filter
    | some id ↦ elim q.update_data [ none ↦ fail assertion | some fs ↦ update_found q id fs ]
  ]

  abbrev deleted_reply : Reply
  deleted_reply = parsed (obj (field (codes "message") (str (codes "Row deleted")) end))

  -- `except ApiError: pass`, around a call that raises nothing else
  abbrev quietly : Done (Unit {0}) × World → Done (Unit {0}) × World
  quietly (r, w) = (gave tt, w)

  abbrev delete_found : Query → Text → Act Reply
  delete_found q id = elim q.policy [
    | local ↦
        if q.has_local
        then (do on_store (delete_row py_str q.name id); give deleted_reply)
        else fail no_store
    | _ ↦ (do
      result ← call (codes "DELETE") (row_path q.name id) end null
      if is_cached q
          then (λ w. quietly (on_store (delete_row py_str q.name id) w)) >> give result
          else give result)
  ]

  unfoldable pub execute_delete : Query → Act Reply
  execute_delete q = elim (row_id q) [ none ↦ fail no_filter | some id ↦ delete_found q id ]

  -- _dispatch
  unfoldable pub dispatch : Query → Act Reply
  unfolding execute_select execute_update execute_delete
  dispatch q = elim q.op [
    | none ↦ fail no_operation
    | some selecting ↦ (do rows ← execute_select q; give (parsed (arr (items rows))))
    | some updating ↦ execute_update q
    | some deleting ↦ execute_delete q
  ]

  -- eq: a query that updates or deletes runs at once
  unfoldable pub eq : Text → Option Text → Query → Query × Option (Act Reply)
  unfolding dispatch
  eq column value q =
      let q' = record q { filter_column = some column; filter_value = value } in
      (
        q',
        elim q.op [ none ↦ none | some o ↦ elim o [ selecting ↦ none | _ ↦ some (dispatch q') ] ],
      )

  unfoldable pub schema : Query → Act (List Value)
  schema q = do
    result ← call (codes "GET") (table_path q.name ++ codes "/schema") end null
    give (rows_of result)

-- insert, of a list of rows
unfoldable pub insert_rows :
    Platform
    → Http.Policy
    → (List Request → Answer)
    → (Value → Text)
    → (ℕ → Text)
    → (ℕ → Text)
    → Query
    → List Fields
    → Act (List Reply)
unfolding insert_one
insert_rows px c server py_str fresh decimal q [] = give []
insert_rows px c server py_str fresh decimal q (fs ∷ rest) = do
  one ← insert_one px c server py_str fresh decimal q fs
  more ← insert_rows px c server py_str (λ n. fresh (suc n)) decimal q rest
  give (one ∷ more)
