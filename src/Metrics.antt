-- ===== src/Metrics.antt =====
-- backend/core/metrics.py: request samples, their buffer, and the series of a project. Times are whole
-- ticks, of which `second` make a second; durations are left out, as are the averages and percentiles.
pub mod Buffer
pub mod Series
use pyronites.Base.{
  ℕ, zero, suc, ◌+◌, ◌*◌, ◌-◌, ◌/◌, ◌==◌, Bool, true, false, not, ◌&&◌, ◌||◌, Option, none, some,
  List, [], ◌∷◌, ◌++◌, Text, codes, text_eq, upper, starts_with, keep, any, take, leb, ltb, length,
  if◌then◌else◌,
}
use pyronites.Db.{Exc, ok, Exec, pure, raise, mark, execute, catch, ◌>>=◌, ◌>>◌}

pub record Sample : Type 0 where
  pub project_id : Text
  pub bucket_ts : ℕ
  pub method : Text
  pub route : Text
  pub status : ℕ

-- the module's buffer, and the table metrics_buckets
pub record Metrics : Type 0 where
  pub pending : List Sample
  pub last_flush : ℕ
  pub rows : List Sample

abbrev pub flush_max_samples : ℕ
flush_max_samples = 100

abbrev pub flush_interval_seconds : ℕ
flush_interval_seconds = 5

abbrev pub skip_prefixes : List Text
skip_prefixes =
    codes "/health"
    ∷ codes "/metrics"
    ∷ codes "/docs"
    ∷ codes "/redoc"
    ∷ codes "/openapi.json"
    ∷ codes "/_next"
    ∷ []

-- _should_skip
unfoldable pub should_skip : Text → Text → Bool
should_skip path method =
    text_eq method (codes "OPTIONS") || any (λ prefix. starts_with prefix path) skip_prefixes

-- `route_template or path`
abbrev pub route_of : Option Text → Text → Text
route_of none path = path
route_of (some []) path = path
route_of (some (c ∷ s)) path = c ∷ s

-- _take
unfoldable pub take_pending : Exec Metrics (List Sample)
take_pending w = (ok w.tables.pending, record w { tables = record w.tables { pending = [] } })

-- `retention` and `now` in ticks
unfoldable pub write_batch : ℕ → ℕ → List Sample → Exec Metrics (Unit {0})
write_batch retention now [] = pure tt
write_batch retention now (s ∷ ss) =
    catch
      (do
        execute (λ m. (ok tt, record m { rows = m.rows ++ s ∷ ss }))
        execute (λ m. (
          ok tt,
          record m { rows = keep (λ r. not (ltb r.bucket_ts (now - retention))) m.rows },
        )))
      (λ _. pure tt)

-- _flush_with, the second of the two
unfoldable pub flush_with : ℕ → ℕ → Exec Metrics (Unit {0})
unfolding take_pending write_batch
flush_with retention now = do batch ← take_pending; write_batch retention now batch

-- flush_now: the acquisition of the database may fail
unfoldable pub flush_now : ℕ → ℕ → Exec Metrics (Unit {0})
unfolding flush_with mark
flush_now retention now = catch (do mark; flush_with retention now) (λ _. pure tt)

module _ (second retention : ℕ) where
  -- the sample goes to the buffer; then whether to flush
  abbrev pub buffered : ℕ → Sample → Metrics → Metrics
  buffered clock s m = record m { pending = m.pending ++ s ∷ [] }

  abbrev pub is_due : ℕ → Metrics → Bool
  is_due clock m =
      leb flush_max_samples (length m.pending)
      || leb (flush_interval_seconds * second) (clock - m.last_flush)

  unfoldable pub add_sample : ℕ → ℕ → Sample → Exec Metrics (Unit {0})
  unfolding flush_now
  add_sample now clock s w =
      let m = buffered clock s w.tables in
      if is_due clock m
      then flush_now retention now
          (record { tables = record m { last_flush = clock }; faults = w.faults })
      else (ok tt, record { tables = m; faults = w.faults })

  -- record; `now` is time.time(), `clock` time.monotonic()
  unfoldable pub record_sample :
      ℕ → ℕ → Option Text → Text → Text → Option Text → ℕ → Exec Metrics (Unit {0})
  unfolding should_skip add_sample
  record_sample now clock none method path template status = pure tt
  record_sample now clock (some []) method path template status = pure tt
  record_sample now clock (some (c ∷ s)) method path template status =
      if should_skip path method
      then pure tt
      else add_sample now clock (record {
        project_id = c ∷ s;
        bucket_ts = now;
        method = take 10 (upper method);
        route = take 200 (route_of template path);
        status = status;
      })

-- _bucket_width
unfoldable pub bucket_width : ℕ → ℕ
bucket_width seconds =
    if leb seconds 3600
    then 60
    else if leb seconds (6 * 3600)
    then 300
    else if leb seconds (24 * 3600)
    then 900
    else 3600

-- `bucket_seconds or _bucket_width(range_seconds)`
abbrev pub width_of : Option ℕ → ℕ → ℕ
width_of none range = bucket_width range
width_of (some zero) range = bucket_width range
width_of (some (suc n)) range = suc n
