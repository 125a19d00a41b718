-- ===== src/Client/Table/Confined.antt =====
-- What a policy keeps a table from.
use pyronites.Base.{ℕ, ◌≡◌, true, some, List, [], ◌∷◌, Text, member, arith, ◌∙◌}
use pyronites.Client.Config.{remote, local, ClientConfig}
use pyronites.Json.{Value, Fields}
use pyronites.Client.Http.{Platform, Request, Answer}
use pyronites.Client.Http
use pyronites.Client.Table.{Query, World, table}
use pyronites.Client.Table.Calls.{
  get_one, insert_one, execute_select, execute_update, execute_delete, single, dispatch, remember,
  select_remote,
}

made-local :
    (cfg : ClientConfig) (name : Text) (made : Query)
    → member name cfg.local_tables ≡ true
    → table cfg name ≡ some made
    → made.policy ≡ local
unfolding table
made-local cfg [] made named t = absurd (ground arith)
made-local cfg (a ∷ s) made named t = ground arith

module _ (px : Platform) (c : Http.Policy) (server : List Request → Answer) (py_str : Value → Text)
    (fresh : ℕ → Text) (decimal : ℕ → Text) (q : Query) (w : World) where
  -- every call of a query leaves the transport alone
  pub record IsLocal : Type 0 where
    pub gets : (id : Text) → (get_one px c server py_str fresh decimal q id w).1.http ≡ w.http
    pub inserts :
        (fs : Fields) → (insert_one px c server py_str fresh decimal q fs w).1.http ≡ w.http
    pub dispatches : (dispatch px c server py_str fresh decimal q w).1.http ≡ w.http
    pub singles : (single px c server py_str fresh decimal q w).1.http ≡ w.http

  -- every call of a query leaves the local store alone
  pub record IsRemote : Type 0 where
    pub gets : (id : Text) → (get_one px c server py_str fresh decimal q id w).1.rows ≡ w.rows
    pub inserts :
        (fs : Fields) → (insert_one px c server py_str fresh decimal q fs w).1.rows ≡ w.rows
    pub dispatches : (dispatch px c server py_str fresh decimal q w).1.rows ≡ w.rows
    pub singles : (single px c server py_str fresh decimal q w).1.rows ≡ w.rows

  local_select :
      q.policy ≡ local → (execute_select px c server py_str fresh decimal q w).1.http ≡ w.http
  unfolding execute_select
  local_select h = ground arith

  local_IsLocal : q.policy ≡ local → IsLocal
  unfolding get_one insert_one single dispatch execute_update execute_delete
  local_IsLocal h = record {
    gets = λ id. ground arith;
    inserts = λ fs. ground arith;
    dispatches = ground (arith, local_select h);
    singles = ground (arith, local_select h);
  }

  -- With the policy `remote`, a query reads and writes the server alone: no insert, get, select,
  -- update, delete or `.single()` changes the local store.
  remote-IsRemote : q.policy ≡ remote → IsRemote
  unfolding get_one insert_one single dispatch execute_update execute_delete execute_select
      select_remote remember
  remote-IsRemote h = record {
    gets = λ id. ground arith;
    inserts = λ fs. ground arith;
    dispatches = ground arith;
    singles = ground arith;
  }

  -- A table that the configuration names in `local_tables` never reaches the network: whatever
  -- filter, limit, update and operation are put on its query, no insert, get, select, update, delete
  -- or `.single()` sends a request.
  table-IsLocal :
      (cfg : ClientConfig) (made : Query)
      → member q.name cfg.local_tables ≡ true
      → table cfg q.name ≡ some made
      → q.policy ≡ made.policy
      → IsLocal
  table-IsLocal cfg made named t same = local_IsLocal (same ∙ made-local cfg q.name made named t)
