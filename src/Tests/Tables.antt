-- ===== src/Tests/Tables.antt =====
-- Queries of the client.
use pyronites.Base.{ℕ, true, none, some, List, [], ◌∷◌, Text, codes}
use pyronites.Client.Config.{Policy, local, cache, ClientConfig}
use pyronites.Json.{Value, str, obj, Fields, end, field}
use pyronites.Client.Http.{
  Platform, Response, Answer, response, Reply, parsed, Delay, wait, Request, Transport, request,
  do_request, handle_response,
}
use pyronites.Client.Http
use pyronites.Client.Local.{Store}
use pyronites.Client.Table.{Query, World}

abbrev platform : Platform
platform = record {
  http_text = λ n. codes "HTTP";
  parse_float = λ s. none;
  render_params = λ fs. [];
  sha256 = λ s. s;
}

abbrev retries : Http.Policy
retries = record { max_retries = 2; backoff_base = 1000; timeout_text = codes "timed out" }

abbrev row : Fields
row = field (codes "text") (str (codes "hi")) (field (codes "id") (str (codes "7")) end)

-- a server that answers every request with one row
abbrev server : List Request → Answer
server rs = response (record {
  status_code = 200;
  content = codes "{}";
  text = codes "{}";
  json = some (obj row);
  retry_after = none;
})

abbrev py_str : Value → Text
py_str (str s) = s
py_str _ = codes "None"

abbrev fresh : ℕ → Text
fresh n = codes "new"

abbrev decimal : ℕ → Text
decimal n = codes "10"

abbrev no_rows : Store
no_rows name = []

abbrev world : World
world = record { http = record { sent = []; slept = []; inflight = [] }; rows = no_rows }

abbrev config : ClientConfig
config = record {
  url = codes "http://h";
  key = none;
  local_tables = codes "drafts" ∷ [];
  remote_tables = [];
  cache_tables = codes "notes" ∷ [];
  local_db_path = none;
}

abbrev query : Text → Policy → Query
query name policy = record {
  name = name;
  policy = policy;
  has_local = true;
  filter_column = none;
  filter_value = none;
  limit = none;
  offset = none;
  update_data = none;
  op = none;
}

abbrev drafts : Query
drafts = query (codes "drafts") local

abbrev notes : Query
notes = query (codes "notes") cache
