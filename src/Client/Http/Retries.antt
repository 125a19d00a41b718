-- ===== src/Client/Http/Retries.antt =====
-- `_do_request`: how often it sends, and which answer decides.
use pyronites.Base.{ℕ, zero, suc, ◌+◌, ◌≤◌, ◌<◌, ◌≡◌, ◌⊎◌, inl, inr, refl, List, ◌∷◌, length, arith}
use pyronites.Client.Http.{
  Platform, Policy, Request, Answer, timed_out, network_error, response, ApiError, Outcome, raised,
  Transport, Next, finish, retry, wait, refused, judge, attempts_from, do_request, handle_response,
  client_error, value_error,
}

pub Next-cases :
    (x : Next)
    → ((o : Outcome) × (x ≡ finish o))
      ⊎ ((e : ApiError) × (x ≡ retry refused e))
      ⊎ ((n : ℕ) × (e : ApiError) × (x ≡ retry (wait n) e))
Next-cases (finish o) = inl (o, refl)
Next-cases (retry refused e) = inr (inl (e, refl))
Next-cases (retry (wait n) e) = inr (inr (n, e, refl))

module _ (px : Platform) (c : Policy) where
  -- what an answer becomes when it is the last
  abbrev pub final : Answer → Outcome
  final timed_out = raised (client_error c.timeout_text)
  final (network_error text) = raised (client_error text)
  final (response r) = handle_response px r

  judge-final :
      (attempt : ℕ) (last : ApiError) (a : Answer) (o : Outcome)
      → judge px c attempt last a ≡ finish o
      → o ≡ final a
  unfolding judge
  judge-final attempt last timed_out o h = ground arith
  judge-final attempt last _ o h = ground arith

  judge_last :
      (attempt : ℕ) (last : ApiError) (a : Answer)
      → c.max_retries ≤ attempt
      → judge px c attempt last a ≡ finish (final a)
  unfolding judge
  judge_last attempt last timed_out h = ground arith
  judge_last attempt last _ h = ground arith

  module _ (server : List Request → Answer) where
    -- after the loop: at least one request and at most `left` went out, and the outcome is what
    -- the last answer becomes, unless a sleep was refused
    pub record Ends (left : ℕ) (t : Transport) (o : Outcome) (t' : Transport) : Type 0 where
      pub sent_some : length t.sent < length t'.sent
      pub sent_most : length t'.sent ≤ length t.sent + left
      pub decided : (o ≡ final (server t'.sent)) ⊎ (o ≡ raised value_error)

    attempts-Ends :
        (left attempt : ℕ) (last : ApiError) (r : Request) (t : Transport)
        → left + attempt ≡ suc c.max_retries
        → 0 < left
        → Ends left t
            (attempts_from px c server left attempt last r t).0
            (attempts_from px c server left attempt last r t).1
    unfolding attempts_from
    attempts-Ends zero attempt last r t e h = absurd (omega arith)
    attempts-Ends (suc zero) attempt last r t e h =
        rw (judge_last attempt last (server (r ∷ t.sent)) (omega arith), attempts_from)
          (record { sent_some = omega arith; sent_most = omega arith; decided = inl refl })
    attempts-Ends (suc (suc left)) attempt last r t e h =
        elim (Next-cases (judge px c attempt last (server (r ∷ t.sent)))) [
          | inl (o, j) ↦
              rw (j, attempts_from)
                (record {
                  sent_some = omega arith;
                  sent_most = omega arith;
                  decided = inl (judge-final attempt last _ o j);
                })
          | inr (inl (e', j)) ↦
              rw (j, attempts_from)
                (record { sent_some = omega arith; sent_most = omega arith; decided = inr refl })
          | inr (inr (n, e', j)) ↦
              let t'' : Transport = record t { sent = r ∷ t.sent; slept = n ∷ t.slept } in
              let ih =
                attempts-Ends (suc left) (suc attempt) e' r t'' (omega arith) (omega arith) in
              rw (j, attempts_from)
                (record {
                  sent_some = omega (arith, ih.sent_some);
                  sent_most = omega (arith, ih.sent_most);
                  decided = ih.decided;
                })
        ]

    -- A call sends at least one request and at most `max_retries + 1`. What it returns or raises
    -- is what the last answer alone becomes, or the ValueError of a sleep that was refused: the
    -- error "Request failed after retries" is never raised.
    pub do_request-Ends :
        (r : Request) (t : Transport)
        → Ends (suc c.max_retries) t (do_request px c server r t).0 (do_request px c server r t).1
    unfolding do_request
    do_request-Ends r t = attempts-Ends (suc c.max_retries) 0 _ r t (omega arith) (omega arith)
