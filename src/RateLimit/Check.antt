-- ===== src/RateLimit/Check.antt =====
-- One call of `check_and_record`.
use pyronites.Base.{ℕ, ◌-◌, ◌≡◌, ◌≢◌, true, false, Text, leb, if◌then◌else◌, arith, List}
use pyronites.Db.{ok, err, Exc, Conn, healthy}
use pyronites.RateLimit.{Hit, cleanup, insert_hit, count_hits, reset_at, check_and_record}

-- the table after the lazy cleanup
abbrev pub cleaned : Text → Text → ℕ → List Hit → List Hit
cleaned key endpoint now t = (cleanup key endpoint now t).1

-- the hits that are counted after the cleanup
abbrev pub used : Text → Text → ℕ → ℕ → List Hit → ℕ
used key endpoint window now t = count_hits key endpoint window now (cleaned key endpoint now t)

module _ (second : ℕ) (key endpoint : Text) (limit window now : ℕ) where
  -- Whichever statements fail, the call raises nothing.
  check_and_record_total :
      (w : Conn (List Hit)) (e : Exc)
      → (check_and_record second key endpoint limit window now w).0 ≢ err e
  unfolding check_and_record
  check_and_record_total w e = ground arith

  -- On a database that does not fail: the call refuses exactly if `limit` unexpired hits or more
  -- are counted after the cleanup, and then only the cleanup changes the table; else it allows the
  -- request, tells how many are left, and adds one hit to the cleaned table.
  pub check_and_record-healthy :
      (t : List Hit)
      → check_and_record second key endpoint limit window now (healthy t) ≡ (
          if leb limit (used key endpoint window now t)
          then (
            ok (record { allowed = false; remaining = 0; reset_at = reset_at second window now }),
            healthy (cleaned key endpoint now t),
          )
          else (
            ok (record {
              allowed = true;
              remaining = limit - used key endpoint window now t - 1;
              reset_at = reset_at second window now;
            }),
            healthy (insert_hit key endpoint window now (cleaned key endpoint now t)).1,
          ))
  unfolding check_and_record
  check_and_record-healthy t = ground arith
