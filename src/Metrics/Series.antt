-- ===== src/Metrics/Series.antt =====
-- backend/core/metrics.py: the counts of `query`.
use native.Mathlib.Nat.{div-mul-le_self, le-div_iff_mul-le, mul-pos}
use pyronites.Base.{
  ℕ, zero, suc, ◌+◌, ◌*◌, ◌-◌, ◌/◌, ◌<◌, ◌≤◌, ◌≡◌, ◌∙◌, ap, sym, ◌==◌, refl, arith, Bool, ◌&&◌,
  Option, none, some, List, [], ◌∷◌, Text, text_eq, keep, All, All-keep, length, leb, ltb,
  if◌then◌else◌,
}
use pyronites.Db.{Exc, ok, is_database_error, healthy, Exec, pure, raise, execute, catch, ◌>>=◌}
use pyronites.Metrics.{Sample, Metrics, width_of, bucket_width}

-- a point of the series
pub record Point : Type 0 where
  pub t : ℕ
  pub requests : ℕ
  pub errors : ℕ
  pub server_errors : ℕ

pub record Report : Type 0 where
  pub bucket_seconds : ℕ
  pub points : List Point
  pub total_requests : ℕ
  pub total_errors : ℕ
  pub total_server_errors : ℕ

-- `math.floor(start / width) * width`, in ticks
abbrev pub align : ℕ → ℕ → ℕ
align start width = start / width * width

-- CAST((bucket_ts - ?) / ? AS INTEGER)
abbrev pub bucket_of : ℕ → ℕ → Sample → ℕ
bucket_of start width s = (s.bucket_ts - start) / width

-- WHERE project_id = ? AND bucket_ts >= ?
abbrev pub in_range : Text → ℕ → Sample → Bool
in_range project start s = text_eq s.project_id project && leb start s.bucket_ts

abbrev pub is_error : ℕ → Sample → Bool
is_error least s = leb least s.status

-- the row of a bucket, as GROUP BY makes it, or the point of an empty one
abbrev pub point_of : ℕ → ℕ → List Sample → ℕ → Point
point_of start width rows index =
    let hits = keep (λ s. bucket_of start width s == index) rows in
    record {
      t = start + index * width;
      requests = length hits;
      errors = length (keep (is_error 400) hits);
      server_errors = length (keep (is_error 500) hits);
    }

-- the loop over the indices from `index` on
unfoldable pub points_from : ℕ → ℕ → List Sample → ℕ → ℕ → List Point
points_from start width rows zero index = []
points_from start width rows (suc left) index =
    point_of start width rows index ∷ points_from start width rows left (index + 1)

unfoldable pub total : (Point → ℕ) → List Point → ℕ
total f [] = 0
total f (p ∷ ps) = f p + total f ps

abbrev pub report_of : ℕ → ℕ → ℕ → ℕ → List Sample → Report
report_of bucket start width now rows =
    let points = points_from start width rows ((now - start) / width + 1) 0 in
    record {
      bucket_seconds = bucket;
      points = points;
      total_requests = total (λ p. p.requests) points;
      total_errors = total (λ p. p.errors) points;
      total_server_errors = total (λ p. p.server_errors) points;
    }

-- `except DatabaseError`
abbrev pub no_rows : Exc → Exec Metrics (List Sample)
no_rows e = if is_database_error e then pure [] else raise e

-- query; the range and the bucket in seconds, `now` in ticks; `now - range` stops at the epoch
unfoldable pub query : ℕ → ℕ → Text → ℕ → Option ℕ → Exec Metrics Report
unfolding points_from total
query second now project range bucket =
    let seconds = width_of bucket range in
    let width = seconds * second in
    let start = align (now - range * second) width in
    (do
      rows ← catch (execute (λ m. (ok (keep (in_range project start) m.rows), m))) no_rows
      pure (report_of seconds start width now rows))

-- every sample of the buckets before `n` is counted once
abbrev before : ℕ → ℕ → ℕ → ℕ → Sample → Bool
before start width first n s =
    leb first (bucket_of start width s) && ltb (bucket_of start width s) n

length-split :
    (start width i n : ℕ) (rows : List Sample)
    → i < n
    → length (keep (before start width i n) rows)
      ≡ length (keep (λ s. bucket_of start width s == i) rows)
        + length (keep (before start width (i + 1) n) rows)
unfolding keep
length-split start width i n [] h = refl
length-split start width i n (s ∷ ss) h = ground (arith, length-split start width i n ss h)

none_before :
    (start width i : ℕ) (rows : List Sample) → keep (before start width i (i + 0)) rows ≡ []
unfolding keep
none_before start width i [] = refl
none_before start width i (s ∷ ss) = ground (arith, none_before start width i ss)

total-points_from :
    (start width : ℕ) (rows : List Sample) (left i n : ℕ)
    → i + left ≡ n
    → total (λ p. p.requests) (points_from start width rows left i)
      ≡ length (keep (before start width i n) rows)
unfolding points_from total
total-points_from start width rows zero i n e = rw (← e) (rw (none_before start width i rows) refl)
total-points_from start width rows (suc left) i n e =
    let more = total-points_from start width rows left (i + 1) n (omega arith) in
    let split = length-split start width i n rows (omega arith) in
    ap (λ k. length (keep (λ s. bucket_of start width s == i) rows) + k) more ∙ sym split

-- a sample of the past is in a bucket of the series
bucket_le :
    (start width now ts : ℕ) → 0 < width → ts ≤ now → (ts - start) / width ≤ (now - start) / width
bucket_le start width now ts pos h =
    (le-div_iff_mul-le pos).1 (omega (arith, div-mul-le_self (ts - start) width))

past_counted :
    (start width now : ℕ) (rows : List Sample)
    → 0 < width
    → All (λ s. s.bucket_ts ≤ now) rows
    → keep (before start width 0 ((now - start) / width + 1)) rows ≡ rows
unfolding keep
past_counted start width now [] pos h = refl
past_counted start width now (s ∷ ss) pos h =
    ground (
      arith,
      bucket_le start width now s.bucket_ts pos h.0,
      past_counted start width now ss pos h.1,
    )

bucket_width-pos : (range : ℕ) → 0 < bucket_width range
unfolding bucket_width
bucket_width-pos range = ground arith

width_pos : (bucket : Option ℕ) (range : ℕ) → 0 < width_of bucket range
width_pos none range = bucket_width-pos range
width_pos (some zero) range = bucket_width-pos range
width_pos (some (suc n)) range = omega arith

-- On a database that does not fail, the series loses no sample and counts none twice: where no
-- sample is from the future, the total of a project's requests is the number of its samples from the
-- start of the first bucket on. (Where the SELECT fails, `query` reports none at all.)
pub query_total :
    (second now : ℕ) (project : Text) (range : ℕ) (bucket : Option ℕ) (m : Metrics) (r : Report)
    → 0 < second
    → All (λ s. s.bucket_ts ≤ now) m.rows
    → (query second now project range bucket (healthy m)).0 ≡ ok r
    → r.total_requests
      ≡ length (
          keep
            (in_range project (align (now - range * second) (width_of bucket range * second)))
            m.rows)
unfolding query execute
query_total second now project range bucket m r pos past h =
    let seconds = width_of bucket range in
    let width = seconds * second in
    let start = align (now - range * second) width in
    let rows = keep (in_range project start) m.rows in
    let same : report_of seconds start width now rows ≡ r = ground arith in
    let wide : 0 < width = mul-pos (width_pos bucket range) pos in
    ap (λ q. q.total_requests) (sym same)
    ∙ total-points_from start width rows ((now - start) / width + 1) 0 ((now - start) / width + 1)
        (omega arith)
    ∙ ap length
        (past_counted start width now rows wide (All-keep _ (in_range project start) m.rows past))
