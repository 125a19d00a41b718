-- ===== src/Api/Sql/Aborts.antt =====
-- A batch that fails leaves the database as it was.
use pyronites.Base.{ℕ, ◌≡◌, ◌∙◌, refl, arith, Option, some, List, [], ◌∷◌, Text, All, inl, inr}
use pyronites.Db.{ok, err, Exc, Result, Conn, catch, database_error}
use pyronites.Db.Preserves.{
  Preserves, Preserves-execute, Preserves-bind, Preserves-catch, Preserves-pure, Preserves-raise,
}
use pyronites.Db.Transaction.{bind_raised}
use pyronites.Backups.{Disk}
use pyronites.Backups.Restore.{live-backup_now}
use pyronites.Api.{MetaDb}
use pyronites.Api.Sql.Session.{Versions, versions, sql_transaction, sql_transaction_aborts}
use pyronites.Api.Sql.Execute.{
  Cursor, Outcome, run_all, run_batch, backup_first, on_sql_error, checked,
}

module _ (py_int : ℕ → Text) (run : Text → Versions → Result Cursor × Versions) where
  live-backup_first :
      (path : Text) (now : ℕ) (ss : List Text) (w : Conn (Disk MetaDb))
      → (backup_first py_int run path now ss w).1.tables.live ≡ w.tables.live
  unfolding backup_first
  live-backup_first path now ss w = ground (arith, live-backup_now path now w)

  run_all-Preserves :
      (o : Option MetaDb) (ss : List Text)
      → All (λ s. (v : Versions) → (run s v).1.before ≡ v.before) ss
      → Preserves (λ s. s.before ≡ o) (run_all py_int run ss)
  unfolding run_all
  run_all-Preserves o [] q = Preserves-pure []
  run_all-Preserves o (s ∷ ss) q =
      Preserves-bind _ _
        (Preserves-catch _ _ (Preserves-execute _ (λ t h. q.0 (versions t) ∙ h))
          (λ e. Preserves-raise database_error))
        (λ cursor. Preserves-bind _ _ (run_all-Preserves o ss q.1) (λ rest. Preserves-pure _))

  batch_aborts :
      (ss : List Text) (w : Conn (Disk MetaDb)) (e : Exc)
      → All (λ s. (v : Versions) → (run s v).1.before ≡ v.before) ss
      → (catch (sql_transaction (run_all py_int run ss)) (on_sql_error py_int run) w).0 ≡ err e
      → (catch (sql_transaction (run_all py_int run ss)) (on_sql_error py_int run) w).1.tables.live
        ≡ w.tables.live
  batch_aborts ss w e q h = go (sql_transaction (run_all py_int run ss) w).0 refl
    where
      go :
          (r : Result (List Outcome))
          → (sql_transaction (run_all py_int run ss) w).0 ≡ r
          → (catch
              (sql_transaction (run_all py_int run ss))
              (on_sql_error py_int run)
              w).1.tables.live
            ≡ w.tables.live
      go (ok os) got = absurd (ground arith)
      go (err x) got = ground (
        arith,
        sql_transaction_aborts (run_all py_int run ss) w x
            (run_all-Preserves (some w.tables.live) ss q) got,
      )

  run_batch_aborts :
      (path : Text) (now : ℕ) (ss : List Text) (w : Conn (Disk MetaDb)) (e : Exc)
      → All (λ s. (v : Versions) → (run s v).1.before ≡ v.before) ss
      → (run_batch py_int run path now ss w).0 ≡ err e
      → (run_batch py_int run path now ss w).1.tables.live ≡ w.tables.live
  unfolding run_batch
  run_batch_aborts path now ss w e q h =
      elim (bind_raised (backup_first py_int run path now ss) _ w e h) [
        | inl (got, same) ↦ rw same (live-backup_first path now ss w)
        | inr (o, rest, same) ↦
            rw same
              (elim (bind_raised
                (catch (sql_transaction (run_all py_int run ss)) (on_sql_error py_int run)) _ _ e
                rest) [
                  | inl (got, kept) ↦
                      rw kept (batch_aborts ss _ e q got ∙ live-backup_first path now ss w)
                  | inr (os, clash, kept) ↦ absurd (ground arith)
                ])
      ]

  pub checked_aborts :
      (path : Text) (now : ℕ) (ss : List Text) (w : Conn (Disk MetaDb)) (e : Exc)
      → All (λ s. (v : Versions) → (run s v).1.before ≡ v.before) ss
      → (checked py_int run ss (run_batch py_int run path now ss) w).0 ≡ err e
      → (checked py_int run ss (run_batch py_int run path now ss) w).1.tables.live ≡ w.tables.live
  checked_aborts path now [] w e q h = refl
  checked_aborts path now (s ∷ ss) w e q h =
      ground (arith, run_batch_aborts path now (s ∷ ss) w e q)
