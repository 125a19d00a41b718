-- ===== src/Tests/Metrics.antt =====
-- Metrics.
use pyronites.Base.{
  ℕ, ◌≡◌, ◌≤◌, refl, arith, none, some, [], ◌∷◌, Text, codes, keep, text_eq, length,
}
use pyronites.Db.{execute, database_error}
use pyronites.Metrics.{Sample, Metrics, record_sample}
use pyronites.Metrics.Buffer.{record_sample_small}
use pyronites.Metrics.Series.{Report, query, align, in_range, query_total}

abbrev sample : Text → ℕ → ℕ → Sample
sample project ts status = record {
  project_id = project;
  bucket_ts = ts;
  method = codes "GET";
  route = codes "/tables";
  status = status;
}

abbrev stored : Metrics
stored = record {
  pending = [];
  last_flush = 0;
  rows =
      sample (codes "p") 100 200
      ∷ sample (codes "p") 5000 404
      ∷ sample (codes "q") 6000 200
      ∷ sample (codes "p") 7300 200
      ∷ sample (codes "p") 8000 500
      ∷ [];
}

abbrev series : Report
series = record {
  bucket_seconds = 3600;
  points =
      record { t = 3600; requests = 1; errors = 1; server_errors = 0 }
      ∷ record { t = 7200; requests = 2; errors = 1; server_errors = 1 }
      ∷ [];
  total_requests = 3;
  total_errors = 2;
  total_server_errors = 1;
}

query_total_example :
    series.total_requests ≡ length (keep (in_range (codes "p") (align 6400 3600)) stored.rows)
unfolding query execute keep text_eq
query_total_example =
    query_total 1 10000 (codes "p") 3600 (some 3600) stored series (omega arith)
      (omega arith, (omega arith, (omega arith, (omega arith, (omega arith, tt))))) refl

record_sample_small_example :
    length
      (record_sample 1 604800 10000 9
        (some (codes "p"))
        (codes "get")
        (codes "/tables/1")
        (some (codes "/tables"))
        200
        (record { tables = stored; faults = none ∷ some database_error ∷ [] })).1.tables.pending
    ≤ 99
record_sample_small_example =
    record_sample_small 1 604800 10000 9 (some (codes "p")) (codes "get") (codes "/tables/1")
      (some (codes "/tables")) 200 stored (some database_error ∷ []) (omega arith)
