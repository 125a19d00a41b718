-- ===== src/RateLimit/Window.antt =====
-- Runs of the limiter against the list of the hits that it ever granted.
use pyronites.Base.{
  ℕ, ◌+◌, ◌≤◌, ◌<◌, ◌≡◌, ◌∙◌, text_eq_sound, Bool, true, false, not, List, [], ◌∷◌, ◌++◌, Text, All,
  All-append, All-keep, All-map, length, length-append, keep, keep-append, keep-keep, leb,
  if◌then◌else◌, arith, refl, ap, Bool-cases, inl, inr,
}
use pyronites.Db.{Result, ok, err, healthy}
use pyronites.RateLimit.{
  Hit, Verdict, is_of, is_live, is_expired, cleanup, insert_hit, count_hits, check_and_record,
}
use pyronites.RateLimit.Check.{cleaned, used, check_and_record-healthy}

pub record Request : Type 0 where
  pub key : Text
  pub endpoint : Text
  pub now : ℕ

-- the requests come in the order of their times, none before `start`
abbrev pub InOrder : ℕ → List Request → Type 0
InOrder start [] = Unit
InOrder start (r ∷ rs) = (start ≤ r.now) × InOrder r.now rs

-- no request comes after `stop`
abbrev pub Before : ℕ → List Request → Type 0
Before stop = All (λ r. r.now ≤ stop)

module _ (window : ℕ) where
  abbrev Stamped : List Hit → Type 0
  Stamped = All (λ h. h.expires_at ≡ h.hit_at + window)

  live_not_expired :
      (key endpoint key' endpoint' : Text) (now n : ℕ) (h : Hit)
      → now ≤ n
      → h.expires_at ≡ h.hit_at + window
      → is_live key endpoint window n h ≡ true
      → not (is_expired key' endpoint' now h) ≡ true
  unfolding is_live is_expired
  live_not_expired key endpoint key' endpoint' now n h le e l = ground arith

  module _ (key endpoint : Text) where
    count-cleaned :
        (key' endpoint' : Text) (now n : ℕ) (t : List Hit)
        → now ≤ n
        → Stamped t
        → count_hits key endpoint window n (cleaned key' endpoint' now t)
          ≡ count_hits key endpoint window n t
    unfolding count_hits cleanup
    count-cleaned key' endpoint' now n t le s = ap length (
        keep-keep _ _ t
          (All-map _ _ t (λ h e l. live_not_expired key endpoint key' endpoint' now n h le e l) s))

    count-append :
        (n : ℕ) (xs ys : List Hit)
        → count_hits key endpoint window n (xs ++ ys)
          ≡ count_hits key endpoint window n xs + count_hits key endpoint window n ys
    unfolding count_hits
    count-append n xs ys = rw (keep-append, length-append {0})

    -- as time passes, fewer hits count
    count_mono :
        (n m : ℕ) (t : List Hit)
        → n ≤ m
        → count_hits key endpoint window m t ≤ count_hits key endpoint window n t
    unfolding count_hits keep is_live
    count_mono n m [] le = omega arith
    count_mono n m (h ∷ t) le = ground (arith, count_mono n m t le)

    -- one hit counts once for its own key and endpoint, and not for any other
    count_one_le : (n : ℕ) (h : Hit) → count_hits key endpoint window n (h ∷ []) ≤ 1
    unfolding count_hits keep is_live
    count_one_le n h = ground arith

    count_one_other :
        (n : ℕ) (h : Hit)
        → is_of key endpoint h ≡ false
        → count_hits key endpoint window n (h ∷ []) ≡ 0
    unfolding count_hits keep is_live
    count_one_other n h e = ground arith

is_of_sound :
    (key endpoint : Text) (h : Hit)
    → is_of key endpoint h ≡ true
    → (h.key ≡ key) × (h.endpoint ≡ endpoint)
unfolding is_of
is_of_sound key endpoint h own =
    (text_eq_sound h.key key (ground arith), text_eq_sound h.endpoint endpoint (ground arith))

module _ (second limit window : ℕ) where
  abbrev hit_of : Request → Hit
  hit_of r = record {
    key = r.key;
    endpoint = r.endpoint;
    hit_at = r.now;
    expires_at = r.now + window;
  }

  -- Serves the requests one after the other, on a database that does not fail: the table, and
  -- every hit that was ever granted.
  abbrev served : Bool → Request → List Hit → List Hit
  served b r log = if b then log ++ hit_of r ∷ [] else log

  is_allowed : Result Verdict → Bool
  is_allowed (ok v) = v.allowed
  is_allowed (err e) = false

  pub run : List Request → List Hit × List Hit → List Hit × List Hit
  unfolding is_allowed
  run [] s = s
  run (r ∷ rs) (t, log) =
      let (v, w) = check_and_record second r.key r.endpoint limit window r.now (healthy t) in
      run rs (w.tables, served (is_allowed v) r log)

  -- the table counts as the log does, from `now` on; and the log is within the limit
  record Agrees (now : ℕ) (t log : List Hit) : Type 0 where
    stamped : Stamped window t
    same :
        (key endpoint : Text) (n : ℕ)
        → now ≤ n
        → count_hits key endpoint window n t ≡ count_hits key endpoint window n log
    bounded : (key endpoint : Text) (n : ℕ) → now ≤ n → count_hits key endpoint window n log ≤ limit

  module _ (r : Request) {start : ℕ} {t log : List Hit} (le : start ≤ r.now)
      (a : Agrees start t log) where
    abbrev kept : List Hit
    kept = cleaned r.key r.endpoint r.now t

    same_after :
        (key endpoint : Text) (n : ℕ)
        → r.now ≤ n
        → count_hits key endpoint window n kept ≡ count_hits key endpoint window n log
    same_after key endpoint n h =
        count-cleaned window key endpoint r.key r.endpoint r.now n t h a.stamped
        ∙ a.same key endpoint n (omega arith)

    Stamped-kept : Stamped window kept
    unfolding cleanup
    Stamped-kept = All-keep _ _ t a.stamped

    Agrees-blocked : Agrees r.now kept log
    Agrees-blocked = record {
      stamped = Stamped-kept;
      same = same_after;
      bounded = λ key endpoint n h. a.bounded key endpoint n (omega arith);
    }

    room :
        used r.key r.endpoint window r.now t < limit
        → (key endpoint : Text) (n : ℕ) → r.now ≤ n
        → count_hits key endpoint window n (log ++ hit_of r ∷ []) ≤ limit
    room h key endpoint n le' = elim (Bool-cases (is_of key endpoint (hit_of r))) [
      | inr other ↦ omega (
        arith,
        count-append window key endpoint n log (hit_of r ∷ []),
        count_one_other window key endpoint n (hit_of r) other,
        a.bounded key endpoint n (omega arith),
      )
      | inl own ↦
          let k : r.key ≡ key = (is_of_sound key endpoint (hit_of r) own).0 in
          let e : r.endpoint ≡ endpoint = (is_of_sound key endpoint (hit_of r) own).1 in
          rw (← k, ← e)
            (omega (
              arith,
              count-append window r.key r.endpoint n log (hit_of r ∷ []),
              count_one_le window r.key r.endpoint n (hit_of r),
              count_mono window r.key r.endpoint r.now n log le',
              same_after r.key r.endpoint r.now (omega arith),
            ))
    ]

    Agrees-granted :
        used r.key r.endpoint window r.now t < limit
        → Agrees r.now (insert_hit r.key r.endpoint window r.now kept).1 (log ++ hit_of r ∷ [])
    unfolding insert_hit
    Agrees-granted h = record {
      stamped = All-append _ kept (hit_of r ∷ []) Stamped-kept (refl, tt);
      same = λ key endpoint n le'. omega (
        arith,
        count-append window key endpoint n kept (hit_of r ∷ []),
        count-append window key endpoint n log (hit_of r ∷ []),
        same_after key endpoint n le',
      );
      bounded = room h;
    }

    Agrees-step :
        Agrees r.now
          (check_and_record second r.key r.endpoint limit window r.now (healthy t)).1.tables
          (served
            (is_allowed (check_and_record second r.key r.endpoint limit window r.now (healthy t)).0)
            r
            log)
    unfolding is_allowed
    Agrees-step =
        rw check_and_record-healthy
          (elim (Bool-cases (leb limit (used r.key r.endpoint window r.now t))) [
            | inl full ↦ rw full Agrees-blocked
            | inr free ↦ rw free (Agrees-granted (ground arith))
          ])

  Agrees-run :
      (rs : List Request) (start : ℕ) (t log : List Hit) (stop : ℕ)
      → start ≤ stop
      → InOrder start rs
      → Before stop rs
      → Agrees start t log
      → Agrees stop (run rs (t, log)).0 (run rs (t, log)).1
  unfolding run
  Agrees-run [] start t log stop le o b a = record {
    stamped = a.stamped;
    same = λ key endpoint n h. a.same key endpoint n (omega arith);
    bounded = λ key endpoint n h. a.bounded key endpoint n (omega arith);
  }
  Agrees-run (r ∷ rs) start t log stop le o b a =
      Agrees-run rs r.now _ _ stop b.0 o.1 b.1 (Agrees-step r o.0 a)

  Agrees-start : Agrees 0 [] []
  unfolding count_hits keep
  Agrees-start = record {
    stamped = tt;
    same = λ key endpoint n h. refl;
    bounded = λ key endpoint n h. omega arith;
  }

  -- Whatever the requests, in the order of their times and on a database that does not fail: at
  -- any time from the last request on, at most `limit` of the requests that were allowed for one
  -- key and endpoint lie within the last `window` ticks.
  pub granted_within_limit :
      (rs : List Request) (stop : ℕ) (key endpoint : Text)
      → InOrder 0 rs
      → Before stop rs
      → count_hits key endpoint window stop (run rs ([], [])).1 ≤ limit
  granted_within_limit rs stop key endpoint o b =
      (Agrees-run rs 0 [] [] stop (omega arith) o b Agrees-start).bounded key endpoint stop
        (omega arith)
