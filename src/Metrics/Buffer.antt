-- ===== src/Metrics/Buffer.antt =====
-- backend/core/metrics.py: record, and what keeps the buffer small.
use pyronites.Base.{
  ℕ, ◌≡◌, ◌≤◌, refl, arith, Bool, false, Option, none, some, List, [], ◌∷◌, Text, length, leb, ◌||◌,
  Bool-cases, inl, inr,
}
use pyronites.Db.{Exc, Conn, execute, mark}
use pyronites.Metrics.{
  Sample, Metrics, take_pending, write_batch, flush_with, flush_now, is_due, buffered, add_sample,
  should_skip, record_sample,
}

write_batch-pending :
    (retention now : ℕ) (b : List Sample) (w : Conn Metrics)
    → (write_batch retention now b w).1.tables.pending ≡ w.tables.pending
unfolding write_batch execute
write_batch-pending retention now [] w = refl
write_batch-pending retention now (s ∷ ss) w = ground arith

-- where the database is acquired, whatever fails after that
flush_now-pending :
    (retention now : ℕ) (m : Metrics) (fs : List (Option Exc))
    → (flush_now retention now (record { tables = m; faults = none ∷ fs })).1.tables.pending ≡ []
unfolding flush_now flush_with take_pending mark execute
flush_now-pending retention now m fs = ground (arith, write_batch-pending retention now m.pending)

few : (n : ℕ) (b : Bool) → (leb 100 n || b) ≡ false → n ≤ 99
few n b h = ground arith

add_sample_small :
    (second retention now clock : ℕ) (s : Sample) (m : Metrics) (fs : List (Option Exc))
    → length
        (add_sample second retention now clock s
          (record { tables = m; faults = none ∷ fs })).1.tables.pending
      ≤ 99
unfolding add_sample
add_sample_small second retention now clock s m fs =
    elim (Bool-cases (is_due second retention clock (buffered second retention clock s m))) [
      | inl t ↦ rw t (rw (flush_now-pending retention now _ fs) (omega arith))
      | inr f ↦ rw f (few _ _ f)
    ]

-- Where the database can be acquired, a call of `record` leaves fewer than a hundred samples in the
-- buffer, if there were fewer before, whatever fails in writing them.
pub record_sample_small :
    (second retention now clock : ℕ) (project : Option Text) (method path : Text)
    (template : Option Text) (status : ℕ) (m : Metrics) (fs : List (Option Exc))
    → length m.pending ≤ 99
    → length
        (record_sample second retention now clock project method path template status
          (record { tables = m; faults = none ∷ fs })).1.tables.pending
      ≤ 99
unfolding record_sample
record_sample_small second retention now clock none method path template status m fs h = h
record_sample_small second retention now clock (some []) method path template status m fs h = h
record_sample_small second retention now clock (some (c ∷ s)) method path template status m fs h =
    elim (Bool-cases (should_skip path method)) [
      | inl t ↦ rw t h
      | inr f ↦ rw f (add_sample_small second retention now clock _ m fs)
    ]
