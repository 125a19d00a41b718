-- ===== src/Client/Table.antt =====
-- pyronites/pyronites/table.py: queries on one table, over the transport and the local store.
--
-- This file has the queries and how a call may end; the calls themselves are in Calls.
pub mod Calls
pub mod Confined
pub mod Cached
use pyronites.Base.{
  ℕ, zero, suc, Bool, true, false, not, ◌&&◌, ◌||◌, Option, none, some, List, [], ◌∷◌, ◌++◌, map,
  Text, codes, text_eq, if◌then◌else◌,
}
use pyronites.Client.Config.{Policy, remote, local, cache, ClientConfig, table_policy}
use pyronites.Json.{Value, Items, nil, cons, Fields, null, num, str, arr, obj, end, field}
use pyronites.Client.Http.{
  Platform, Request, Answer, ApiError, Reply, parsed, Outcome, returned, raised, Transport, request,
}
use pyronites.Client.Http
use pyronites.Client.Local.{
  Store, Fault, bad_name, row_not_found, integrity, Reaction, gives, throws, select, get_row,
  insert, update_row, delete_row, replace_all, id_key,
}

pub data Op : Type 0 where
  selecting updating deleting : Op

-- what a call of this file may raise
pub data Failure : Type 0 where
  -- from the transport; from the local store
  from_http : ApiError → Failure
  from_store : Fault → Failure
  -- ApiError: "Local store is not configured", no .eq("id", value), no operation, .single()
  no_store no_filter no_operation no_rows many_rows empty_update : Failure
  -- NotFoundError of get; AssertionError; TypeError of dict(row)
  not_found assertion type_error : Failure

pub data Done (A : Type 0) : Type 0 where
  gave : A → Done A
  failed : Failure → Done A

pub record World : Type 0 where
  pub http : Transport
  pub rows : Store

abbrev pub Act : Type 0 → Type 0
Act A = World → Done A × World

-- TableQuery; `has_local`: a local store was given
pub record Query : Type 0 where
  pub name : Text
  pub policy : Policy
  pub has_local : Bool
  pub filter_column : Option Text
  pub filter_value : Option Text
  pub limit : Option ℕ
  pub offset : Option ℕ
  pub update_data : Option Fields
  pub op : Option Op

module _ {A : Type 0} where
  abbrev pub give : A → Act A
  give a w = (gave a, w)

  abbrev pub fail : Failure → Act A
  fail e w = (failed e, w)

  abbrev pub reacted : Reaction A × Store → World → Done A × World
  reacted (gives a, s) w = (gave a, record w { rows = s })
  reacted (throws e, s) w = (failed (from_store e), record w { rows = s })

  -- a call of the local store
  abbrev pub on_store : (Store → Reaction A × Store) → Act A
  on_store m w = reacted (m w.rows) w

module _ {A B : Type 0} where
  abbrev pub continue : Done A × World → (A → Act B) → Done B × World
  continue (gave a, w) f = f a w
  continue (failed e, w) f = (failed e, w)

  infixl 10 ◌>>=◌ ◌>>◌
  abbrev pub ◌>>=◌ : Act A → (A → Act B) → Act B
  ◌>>=◌ m f w = continue (m w) f

  abbrev pub ◌>>◌ : Act A → Act B → Act B
  ◌>>◌ m n w = continue (m w) (λ _. n)

abbrev pub received : Outcome × Transport → World → Done Reply × World
received (returned v, t) w = (gave v, record w { http = t })
received (raised e, t) w = (failed (from_http e), record w { http = t })

abbrev pub table_path : Text → Text
table_path name = codes "/tables/" ++ name

abbrev pub row_path : Text → Text → Text
row_path name id = table_path name ++ b'/' ∷ id

-- the filter of `select`: none unless column and value are both there
abbrev pub filter_of : Option Text → Option Text → Option (Text × Text)
filter_of (some column) (some value) = some (column, value)
filter_of _ _ = none

-- how a chain of calls sets a query up
abbrev pub limit : ℕ → Query → Query
limit n q = record q { limit = some n }

abbrev pub offset : ℕ → Query → Query
offset n q = record q { offset = some n }

abbrev pub select_op : Query → Query
select_op q = record q { op = some selecting }

abbrev pub delete_op : Query → Query
delete_op q = record q { op = some deleting }

-- no query for empty data, which raises
abbrev pub update_op : Fields → Query → Option Query
update_op end q = none
update_op (field k v fs) q =
    some (record q { op = some updating; update_data = some (field k v fs) })

-- the elements of an array
unfoldable pub values : Items → List Value
values nil = []
values (cons v vs) = v ∷ values vs

-- `result if isinstance(result, list) else []`
abbrev pub rows_of : Reply → List Value
rows_of (parsed (arr vs)) = values vs
rows_of _ = []

unfoldable pub items : List Value → Items
items [] = nil
items (v ∷ vs) = cons v (items vs)

-- the rows up to the first one that is no object, and whether there is such a one
unfoldable pub objects : List Value → List Fields × Bool
objects [] = ([], false)
objects (obj fs ∷ vs) = let (rest, bad) = objects vs in (fs ∷ rest, bad)
objects (v ∷ vs) = ([], true)

-- the id of `.eq("id", value)`, which update and delete want
abbrev pub row_id : Query → Option Text
row_id q = elim q.filter_column [
  | none ↦ none
  | some column ↦ if text_eq column id_key then q.filter_value else none
]

abbrev is_empty : {A : Type 0} → List A → Bool
is_empty [] = true
is_empty (x ∷ xs) = false

abbrev given : Option Text → Bool
given (some (c ∷ s)) = true
given _ = false

-- PyronitesClient: whether the configuration opens a local store
abbrev opens_store : ClientConfig → Bool
opens_store c =
    given c.local_db_path || not (is_empty c.local_tables) || not (is_empty c.cache_tables)

-- PyronitesClient.table; no query for an empty name
unfoldable pub table : ClientConfig → Text → Option Query
unfolding table_policy
table c [] = none
table c (a ∷ s) = some (record {
  name = a ∷ s;
  policy = table_policy c (a ∷ s);
  has_local = opens_store c;
  filter_column = none;
  filter_value = none;
  limit = none;
  offset = none;
  update_data = none;
  op = none;
})

abbrev pub is_cached : Query → Bool
is_cached q = elim q.policy [ cache ↦ q.has_local | _ ↦ false ]
