-- ===== src/Api/Sql/Session.antt =====
-- backend/core/db.py: `transaction`, around the statements of the SQL editor. They are the caller's
-- own, so one of them may itself end the transaction or begin another: what a rollback would leave
-- is part of the state here. Python's `commit()` and `rollback()` do nothing where no transaction
-- is open.
use pyronites.Base.{◌≡◌, refl, arith, Option, none, some}
use pyronites.Db.{Exc, Result, ok, err, Conn, Exec, pure, mark, ◌>>=◌, ◌>>◌}
use pyronites.Db.Preserves.{Preserves, Preserves-bind, Preserves-mark, Preserves-pure}
use pyronites.Db.Returns.{Returns, Returns-bind, Returns-after, Returns-pure}
use pyronites.Backups.{Disk}
use pyronites.Api.{MetaDb}

-- `before` is what a rollback would leave, where a transaction is open
pub record Versions : Type 0 where
  pub live : MetaDb
  pub before : Option MetaDb

pub record SqlState : Type 0 where
  pub disk : Disk MetaDb
  pub before : Option MetaDb

abbrev pub begun : Disk MetaDb → SqlState
begun d = record { disk = d; before = some d.live }

abbrev pub versions : SqlState → Versions
versions s = record { live = s.disk.live; before = s.before }

abbrev pub with_versions : SqlState → Versions → SqlState
with_versions s v = record { disk = record s.disk { live = v.live }; before = v.before }

-- Connection.rollback
abbrev pub rolled_back : Option MetaDb → Disk MetaDb → Disk MetaDb
rolled_back none d = d
rolled_back (some db) d = record d { live = db }

module _ {A : Type 0} where
  abbrev pub end_transaction : Result A × Conn SqlState → Result A × Conn (Disk MetaDb)
  end_transaction (ok a, w) = (ok a, record { tables = w.tables.disk; faults = w.faults })
  end_transaction (err e, w) =
      (err e, record { tables = rolled_back w.tables.before w.tables.disk; faults = w.faults })

  abbrev pub bracket : Exec SqlState A → Exec SqlState A
  bracket block = do mark; a ← block; mark; pure a

  unfoldable pub sql_transaction : Exec SqlState A → Exec (Disk MetaDb) A
  unfolding mark
  sql_transaction block w =
      end_transaction (bracket block (record { tables = begun w.tables; faults = w.faults }))

  bracket-Preserves :
      {P : SqlState → Type 0} (block : Exec SqlState A)
      → Preserves P block
      → Preserves P (bracket block)
  bracket-Preserves block pre = Preserves-bind mark _ Preserves-mark (λ _.
      Preserves-bind block _ pre
        (λ a. Preserves-bind mark _ Preserves-mark (λ _. Preserves-pure a)))

  pub sql_transaction-Preserves :
      (P : Disk MetaDb → Type 0) (block : Exec SqlState A)
      → ((db : MetaDb) (d : Disk MetaDb) → P d → P (record d { live = db }))
      → Preserves (λ s. P s.disk) block
      → Preserves P (sql_transaction block)
  unfolding sql_transaction
  sql_transaction-Preserves P block free pre = record {
    kept = λ w h.
        (let v : Conn SqlState = record { tables = begun w.tables; faults = w.faults } in
          go (bracket block v).0 (bracket block v).1 ((bracket-Preserves block pre).kept v h));
  }
    where
      back : (o : Option MetaDb) (d : Disk MetaDb) → P d → P (rolled_back o d)
      back none d h = h
      back (some db) d h = free db d h

      go :
          (r : Result A) (v : Conn SqlState) → P v.tables.disk → P (end_transaction (r, v)).1.tables
      go (ok a) v h = h
      go (err e) v h = back v.tables.before v.tables.disk h

  pub sql_transaction-Returns :
      (P : A → Type 0) (block : Exec SqlState A)
      → Returns P block
      → Returns P (sql_transaction block)
  unfolding sql_transaction
  sql_transaction-Returns P block pre = record {
    holds = λ w a h.
        (let v : Conn SqlState = record { tables = begun w.tables; faults = w.faults } in
          whole.holds v a (go (bracket block v).0 (bracket block v).1 a h));
  }
    where
      whole : Returns P (bracket block)
      whole =
          Returns-after mark _
            (λ _. Returns-bind block _ pre (λ a p. Returns-after mark _ (λ _. Returns-pure a p)))

      go : (r : Result A) (v : Conn SqlState) (a : A) → (end_transaction (r, v)).0 ≡ ok a → r ≡ ok a
      go (ok b) v a h = h
      go (err e) v a h = h

  -- while what a rollback would leave stays what it was, a block that raises changes nothing
  pub sql_transaction_aborts :
      (block : Exec SqlState A) (w : Conn (Disk MetaDb)) (e : Exc)
      → Preserves (λ s. s.before ≡ some w.tables.live) block
      → (sql_transaction block w).0 ≡ err e
      → (sql_transaction block w).1.tables.live ≡ w.tables.live
  unfolding sql_transaction
  sql_transaction_aborts block w e pre h =
      let v : Conn SqlState = record { tables = begun w.tables; faults = w.faults } in
      go (bracket block v).0 (bracket block v).1 ((bracket-Preserves block pre).kept v refl) h
    where
      go :
          (r : Result A) (v : Conn SqlState)
          → v.tables.before ≡ some w.tables.live
          → (end_transaction (r, v)).0 ≡ err e
          → (end_transaction (r, v)).1.tables.live ≡ w.tables.live
      go (ok a) v same h = absurd (ground arith)
      go (err x) v same h = rw same refl
