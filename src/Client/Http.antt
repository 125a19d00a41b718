-- ===== src/Client/Http.antt =====
-- pyronites/pyronites/http.py: one request with its retries, the mapping of responses to results
-- and errors, and the table of requests in flight.
--
-- The server is a parameter: what it does with a request may depend on every request before it.
-- Times are milliseconds.
pub mod Mapping
pub mod Retries
pub mod Replay
use pyronites.Base.{
  ℕ, zero, suc, ◌+◌, ◌*◌, ◌^◌, min, Bool, true, false, ◌&&◌, ◌||◌, Option, none, some, List, [],
  ◌∷◌, ◌++◌, Text, codes, text_eq, upper, leb, ltb, ◌==◌, if◌then◌else◌,
}
use pyronites.Json.{Value, null, obj, Fields, str, get, or_null, or_value}

-- ApiError, AuthError, NotFoundError; and the ValueError of `time.sleep`
pub data Kind : Type 0 where
  api auth not_found value : Kind

pub record ApiError : Type 0 where
  pub kind : Kind
  pub message : Value
  pub status_code : Option ℕ
  pub code : Value
  pub body : Value

pub record Response : Type 0 where
  pub status_code : ℕ
  pub content : Text
  pub text : Text
  -- `response.json()`, or the ValueError
  pub json : Option Value
  pub retry_after : Option Text

-- what `httpx.Client.request` does
pub data Answer : Type 0 where
  timed_out : Answer
  network_error : Text → Answer
  response : Response → Answer

-- a result of `request`: None, parsed JSON, or bytes
pub data Reply : Type 0 where
  nothing : Reply
  parsed : Value → Reply
  bytes : Text → Reply

pub data Outcome : Type 0 where
  returned : Reply → Outcome
  raised : ApiError → Outcome

abbrev message_key : Text
message_key = codes "message"

abbrev code_key : Text
code_key = codes "code"

abbrev detail_key : Text
detail_key = codes "detail"

-- `response.text or f"HTTP {status}"`; `http_text` renders the status
abbrev or_status : Text → Text → Value
or_status [] fallback = str fallback
or_status (c ∷ s) fallback = str (c ∷ s)

-- the error's `code` and `message`, from a parsed body
unfoldable pub from_fields : Value → Fields → Value × Value
from_fields message fs = elim (get detail_key fs) [
  | obj d ↦ (get code_key d, or_value (get message_key d) message)
  | _ ↦ (get code_key fs, or_value (get message_key fs) message)
]

unfoldable pub from_body : Value → Option Value → Value × Value
unfolding from_fields
from_body message (some (obj fs)) = from_fields message fs
from_body message _ = (null, message)

unfoldable pub kind_of : ℕ → Kind
kind_of status =
    if status == 401 || status == 403
    then Kind.auth
    else if status == 404
    then Kind.not_found
    else Kind.api

abbrev pub is_success : ℕ → Bool
is_success status = leb 200 status && ltb status 300

unfoldable pub success : Text → Option Value → Reply
success [] j = nothing
success (c ∷ s) (some v) = parsed v
success (c ∷ s) none = bytes (c ∷ s)

-- the argument of `time.sleep`: milliseconds, or a negative number or NaN, which it refuses
pub data Delay : Type 0 where
  wait : ℕ → Delay
  refused : Delay

-- What the client takes from Python and from hashlib.
pub record Platform : Type 0 where
  -- `f"HTTP {status}"`
  pub http_text : ℕ → Text
  -- `float(value)` in milliseconds, or the ValueError
  pub parse_float : Text → Option Delay
  -- `sorted(params.items())`, rendered
  pub render_params : Fields → Text
  pub sha256 : Text → Text

-- the constructor's arguments
pub record Policy : Type 0 where
  pub max_retries : ℕ
  pub backoff_base : ℕ
  -- "Request timed out after …s"
  pub timeout_text : Text

-- A call of `request`. `body` is what it sends: `json`, `data` or `files`.
pub record Request : Type 0 where
  pub method : Text
  pub path : Text
  pub params : Fields
  pub body : Value

-- an entry of `_inflight`: the list `future`, and `done`
pub record Entry : Type 0 where
  pub future : List Reply
  pub done : Bool

pub record Transport : Type 0 where
  -- every request that went out, the latest first
  pub sent : List Request
  -- every sleep, the latest first
  pub slept : List ℕ
  pub inflight : List (Text × Entry)

-- after one attempt: try again after a delay, or leave the loop
pub data Next : Type 0 where
  retry : Delay → ApiError → Next
  finish : Outcome → Next

abbrev client_error : Text → ApiError
client_error message = record {
  kind = Kind.api;
  message = str message;
  status_code = none;
  code = null;
  body = null;
}

abbrev value_error : ApiError
value_error = record {
  kind = Kind.value;
  message = null;
  status_code = none;
  code = null;
  body = null;
}

abbrev retries_text : Text
retries_text = codes "Request failed after retries"

abbrev pub retryable : ℕ → Bool
retryable status = status == 502 || status == 503 || status == 504

abbrev max_retry_after : ℕ
max_retry_after = 120000

unfoldable pub capped : Delay → Delay
capped (wait n) = wait (min n max_retry_after)
capped refused = refused

unfoldable pub find : Text → List (Text × Entry) → Option Entry
find k [] = none
find k ((j, e) ∷ m) = if text_eq j k then some e else find k m

unfoldable pub store : Text → Entry → List (Text × Entry) → List (Text × Entry)
store k e [] = (k, e) ∷ []
store k e ((j, f) ∷ m) = if text_eq j k then (k, e) ∷ m else (j, f) ∷ store k e m

unfoldable pub absolute : Text → Text
absolute [] = b'/' ∷ []
absolute (a ∷ s) = if a == b'/' then a ∷ s else b'/' ∷ a ∷ s

abbrev futures : Outcome → List Reply
futures (returned v) = v ∷ []
futures (raised e) = []

abbrev send : Request → Transport → Transport
send r t = record t { sent = r ∷ t.sent }

module _ (px : Platform) where
  unfoldable pub failure : Response → ApiError
  unfolding from_body kind_of
  failure r =
      let (code, message) = from_body (or_status r.text (px.http_text r.status_code)) r.json in
      record {
        kind = kind_of r.status_code;
        message = message;
        status_code = some r.status_code;
        code = code;
        body = or_null r.json;
      }

  -- _handle_response
  unfoldable pub handle_response : Response → Outcome
  unfolding success failure
  handle_response r =
      if is_success r.status_code then returned (success r.content r.json) else raised (failure r)

  -- _request_key
  unfoldable pub request_key : Request → Text
  request_key r = px.sha256 (upper r.method ++ b':' ∷ (r.path ++ b':' ∷ px.render_params r.params))

  module _ (c : Policy) where
    unfoldable pub backoff : ℕ → Delay
    backoff attempt = wait (c.backoff_base * 2 ^ attempt)

    -- _parse_retry_after, and the delay that a 429 asks for
    unfoldable pub retry_after : ℕ → Option Text → Delay
    unfolding backoff capped
    retry_after attempt none = backoff attempt
    retry_after attempt (some header) = elim (px.parse_float header) [
      | none ↦ backoff attempt
      | some d ↦ capped d
    ]

    abbrev failed_attempt : ℕ → ApiError → Next
    failed_attempt attempt e =
        if ltb attempt c.max_retries then retry (backoff attempt) e else finish (raised e)

    -- the body of the loop of `_do_request`, after the request went out; `last` is `last_exc`
    unfoldable pub judge : ℕ → ApiError → Answer → Next
    unfolding handle_response retry_after
    judge attempt last timed_out = failed_attempt attempt (client_error c.timeout_text)
    judge attempt last (network_error text) = failed_attempt attempt (client_error text)
    judge attempt last (response r) =
        if r.status_code == 429 && ltb attempt c.max_retries
        then retry (retry_after attempt r.retry_after) last
        else if retryable r.status_code && ltb attempt c.max_retries
        then retry (backoff attempt) last
        else finish (handle_response r)

    module _ (server : List Request → Answer) where
      -- the loop; `left` rounds remain
      unfoldable pub attempts_from : ℕ → ℕ → ApiError → Request → Transport → Outcome × Transport
      attempts_from zero attempt last r t = (raised last, t)
      attempts_from (suc left) attempt last r t =
          let t' = send r t in
          elim (judge attempt last (server t'.sent)) [
            | finish o ↦ (o, t')
            | retry refused e ↦ (raised value_error, t')
            | retry (wait n) e ↦
                attempts_from left (suc attempt) e r (record t' { slept = n ∷ t'.slept })
          ]

      -- _do_request; with no exception so far the loop would end in "Request failed after retries"
      unfoldable pub do_request : Request → Transport → Outcome × Transport
      unfolding attempts_from judge
      do_request = attempts_from (suc c.max_retries) 0 (client_error retries_text)

      -- the `try … finally` of `request`
      unfoldable pub perform : Text → Request → Transport → Outcome × Transport
      unfolding do_request store
      perform key r t =
          let (o, t') =
            do_request r (record t {
              inflight = store key (record { future = []; done = false }) t.inflight;
            }) in
          (
            o,
            record t' {
              inflight = store key (record { future = futures o; done = true }) t'.inflight;
            },
          )

      unfoldable pub reuse : Text → Request → Option Entry → Transport → Outcome × Transport
      reuse key r none t = perform key r t
      reuse key r (some e) t = elim e.future [
        | [] ↦ perform key r t
        | v ∷ vs ↦ if e.done then (returned v, t) else perform key r t
      ]

      -- request
      unfoldable pub request : Request → Transport → Outcome × Transport
      unfolding absolute request_key reuse perform find
      request r t =
          let r' = record r { path = absolute r.path } in
          let key = request_key r' in reuse key r' (find key t.inflight) t
