-- ===== src/Client/Http/Replay.antt =====
-- `request`: the table of requests in flight. A finished entry stays in the table.
use pyronites.Base.{
  ◌≡◌, refl, true, false, List, [], ◌∷◌, Text, text_eq, text_eq_iff, text_eq_refl, text_eq_sound,
  Option, none, some, if◌then◌else◌, arith, zero, suc, ℕ, Bool-cases, inl, inr,
}
use pyronites.Json.{Value}
use pyronites.Client.Http.{
  Platform, Policy, Request, Answer, ApiError, returned, Transport, Entry, Reply, judge, futures,
  find, store, absolute, request_key, attempts_from, do_request, perform, reuse, request,
}
use pyronites.Client.Http.Retries.{Next-cases}

find-store :
    (k j : Text) (e : Entry) (m : List (Text × Entry))
    → find j (store k e m) ≡ (if text_eq k j then some e else find j m)
unfolding find store
find-store k j e [] = refl
find-store k j e ((i, f) ∷ m) =
    ground (arith, text_eq_iff k j, text_eq_iff i k, text_eq_iff i j, find-store k j e m)

-- what `request` returns from the table, if anything
abbrev finished : Option Entry → Option Reply
finished none = none
finished (some e) = elim e.future [ [] ↦ none | v ∷ vs ↦ if e.done then some v else none ]

module _ (px : Platform) (c : Policy) (server : List Request → Answer) where
  inflight-attempts :
      (left attempt : ℕ) (last : ApiError) (r : Request) (t : Transport)
      → (attempts_from px c server left attempt last r t).1.inflight ≡ t.inflight
  unfolding attempts_from
  inflight-attempts zero attempt last r t = refl
  inflight-attempts (suc left) attempt last r t =
      elim (Next-cases (judge px c attempt last (server (r ∷ t.sent)))) [
        | inl (o, j) ↦ rw (j, attempts_from)
        | inr (inl (e, j)) ↦ rw (j, attempts_from)
        | inr (inr (n, e, j)) ↦ rw (j, attempts_from) (inflight-attempts left (suc attempt) e r _)
      ]

  inflight-do_request :
      (r : Request) (t : Transport) → (do_request px c server r t).1.inflight ≡ t.inflight
  unfolding do_request
  inflight-do_request r t = inflight-attempts (suc c.max_retries) 0 _ r t

  -- `perform` writes its own key only, and a reply that it returns is there to be found again
  find-perform_ne :
      (key k : Text) (r : Request) (t : Transport)
      → text_eq key k ≡ false
      → find k (perform px c server key r t).1.inflight ≡ find k t.inflight
  unfolding perform
  find-perform_ne key k r t h = rw (find-store, h, inflight-do_request, find-store, h)

  find-perform_self :
      (key : Text) (r : Request) (t : Transport)
      → find key (perform px c server key r t).1.inflight
        ≡ some (record { future = futures (perform px c server key r t).0; done = true })
  unfolding perform
  find-perform_self key r t = rw (find-store, text_eq_refl)

  abbrev Remembers : Text → Reply → Transport → Type 0
  Remembers key v t = finished (find key t.inflight) ≡ some v

  reuse-finished :
      (key : Text) (r : Request) (o : Option Entry) (t : Transport) (v : Reply)
      → finished o ≡ some v
      → reuse px c server key r o t ≡ (returned v, t)
  unfolding reuse
  reuse-finished key r o t v h = ground arith

  reuse-Remembers :
      (key : Text) (r : Request) (t : Transport) (v : Reply)
      → (reuse px c server key r (find key t.inflight) t).0 ≡ returned v
      → Remembers key v (reuse px c server key r (find key t.inflight) t).1
  unfolding reuse
  reuse-Remembers key r t v h = ground (arith, find-perform_self key r t)

  find-reuse_ne :
      (key k : Text) (r : Request) (o : Option Entry) (t : Transport)
      → text_eq key k ≡ false
      → find k (reuse px c server key r o t).1.inflight ≡ find k t.inflight
  unfolding reuse
  find-reuse_ne key k r o t h = ground (arith, find-perform_ne key k r t h)

  reuse_keeps :
      (key k : Text) (r : Request) (t : Transport) (v : Reply)
      → Remembers k v t
      → Remembers k v (reuse px c server key r (find key t.inflight) t).1
  reuse_keeps key k r t v h = elim (Bool-cases (text_eq key k)) [
    | inl same ↦
        let e : key ≡ k = text_eq_sound key k same in
        rw e (rw (reuse-finished k r (find k t.inflight) t v h) h)
    | inr other ↦ rw (find-reuse_ne key k r (find key t.inflight) t other) h
  ]

  -- the key under which `request` files a request
  abbrev filed : Request → Text
  filed r = request_key px (record r { path = absolute r.path })

  unfoldable pub request_all : List Request → Transport → Transport
  request_all [] t = t
  request_all (r ∷ rs) t = request_all rs (request px c server r t).1

  request_all_keeps :
      (k : Text) (rs : List Request) (t : Transport) (v : Reply)
      → Remembers k v t
      → Remembers k v (request_all rs t)
  unfolding request_all request
  request_all_keeps k [] t v h = h
  request_all_keeps k (r ∷ rs) t v h =
      request_all_keeps k rs _ v
        (reuse_keeps (filed r) k (record r { path = absolute r.path }) t v h)

  -- Once a request has returned a reply, then, whatever requests follow it, a request with the
  -- same method, path and parameters returns that same reply and sends nothing, even if its body
  -- differs.
  request_replays :
      (r : Request) (body : Value) (rs : List Request) (t : Transport) (v : Reply)
      → (request px c server r t).0 ≡ returned v
      → request px c server (record r { body = body }) (request_all rs (request px c server r t).1)
        ≡ (returned v, request_all rs (request px c server r t).1)
  unfolding request
  request_replays r body rs t v h =
      reuse-finished (filed r) (record r { path = absolute r.path; body = body }) _
        (request_all rs
          (reuse px c server (filed r) (record r { path = absolute r.path })
            (find (filed r) t.inflight) t).1)
        v
        (request_all_keeps (filed r) rs _ v
          (reuse-Remembers (filed r) (record r { path = absolute r.path }) t v h))
