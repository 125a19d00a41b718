-- ===== src/Tests/Transport.antt =====
-- The client: requests, and the local store.
use pyronites.Base.{ℕ, none, some, List, [], ◌∷◌, Text, codes}
use pyronites.Json.{set, Value, null, str, Fields, end, field}
use pyronites.Client.Http.{
  Kind, ApiError, Response, Answer, timed_out, response, wait, Platform, Policy, Request, Transport,
  do_request,
}
use pyronites.Client.Http.Retries.{Ends, do_request-Ends}
use pyronites.Client.Local.{id_key, Store}

abbrev platform : Platform
platform = record {
  http_text = λ n. codes "HTTP";
  parse_float = λ s. some (wait 1000);
  render_params = λ fs. [];
  sha256 = λ s. s;
}

abbrev policy : Policy
policy = record { max_retries = 2; backoff_base = 1000; timeout_text = codes "timed out" }

abbrev reply : ℕ → Response
reply status = record {
  status_code = status;
  content = codes "{}";
  text = codes "{}";
  json = some null;
  retry_after = none;
}

-- unavailable, then a timeout, then an answer
abbrev server : List Request → Answer
server [] = timed_out
server (a ∷ []) = response (reply 503)
server (a ∷ b ∷ []) = timed_out
server (a ∷ b ∷ c ∷ rs) = response (reply 200)

abbrev steady : List Request → Answer
steady rs = response (record (reply 200) { json = some (str (codes "row")) })

abbrev idle : Transport
idle = record { sent = []; slept = []; inflight = [] }

abbrev post : Text → Request
post body = record { method = codes "POST"; path = codes "tables/t"; params = end; body = str body }

do_request-Ends_example :
    Ends platform policy server 3 idle
      (do_request platform policy server (post (codes "a")) idle).0
      (do_request platform policy server (post (codes "a")) idle).1
do_request-Ends_example = do_request-Ends platform policy server (post (codes "a")) idle

abbrev missing : ApiError
missing = record {
  kind = Kind.not_found;
  message = str (codes "{}");
  status_code = some 404;
  code = null;
  body = null;
}

abbrev py_str : Value → Text
py_str (str s) = s
py_str _ = codes "None"

abbrev todo : Fields
todo = field (codes "text") (str (codes "buy milk")) end

abbrev no_rows : Store
no_rows name = []

abbrev two_rows : Store
two_rows name =
    record { id = codes "a"; fields = todo } ∷ record { id = codes "b"; fields = todo } ∷ []

abbrev merged : Fields
merged = set id_key (str (codes "a")) (field (codes "text") (str (codes "done")) end)
