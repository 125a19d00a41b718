-- ===== src/Api/Sql/Guarded.antt =====
-- What stands around a batch: the caller's scopes, the backup, the transaction.
use pyronites.Base.{
  ℕ, ◌≡◌, ◌∙◌, ◌⊎◌, ap, refl, arith, true, false, not, Option, none, some, List, [], ◌∷◌, Text,
  text_eq, any, All, first, member, Bool-cases, inl, inr,
}
use pyronites.Db.{ok, err, Exc, Result, Conn, raise, catch, http_exception, database_error}
use pyronites.Db.Preserves.{
  Preserves, Preserves-execute, Preserves-bind, Preserves-catch, Preserves-pure, Preserves-raise,
  Preserves-if,
}
use pyronites.Db.Transaction.{bind_returned, bind_raised}
use pyronites.Backups.{Disk, Backup, is_at, backup_now}
use pyronites.Backups.Restore.{snapshot, backup_there}
use pyronites.Api.{MetaDb}
use pyronites.Auth.ApiKeys.{write_scope, admin_scope, scoped}
use pyronites.Api.AuthDeps.{
  Request, AuthInfo, api_key, session, granted, resolve_auth, require_sql_scopes,
  enforce_legacy_plane_key,
}
use pyronites.Api.Sql.{split_statements, is_readonly}
use pyronites.Api.Sql.Session.{Versions, sql_transaction, sql_transaction-Preserves}
use pyronites.Api.Sql.Aborts.{checked_aborts}
use pyronites.Api.Sql.Execute.{
  Cursor, Response, run_all, run_batch, execute_sql, backup_first, on_sql_error, checked, on_live,
  authorize, taken,
}

-- not a key whose plane is "scoped"; a legacy key may still name a project
abbrev pub IsLegacy : AuthInfo → Type 0
IsLegacy (session user_id) = Unit {0}
IsLegacy (api_key scopes project_id key_id plane) = text_eq plane scoped ≡ false

module _ (py_int : ℕ → Text) (run : Text → Versions → Result Cursor × Versions) where
  module _ (path : Text) (b : Backup MetaDb) where
    abbrev Holds : Disk MetaDb → Type 0
    Holds d = first (is_at path) d.backups ≡ some b

    run_all-Holds : (ss : List Text) → Preserves (λ s. Holds s.disk) (run_all py_int run ss)
    unfolding run_all
    run_all-Holds [] = Preserves-pure []
    run_all-Holds (s ∷ ss) =
        Preserves-bind _ _
          (Preserves-catch _ _ (Preserves-execute _ (λ d h. h))
            (λ e. Preserves-raise database_error))
          (λ cursor. Preserves-bind _ _ (run_all-Holds ss) (λ rest. Preserves-pure _))

    on_sql_error-Holds : (e : Exc) → Preserves Holds (on_sql_error py_int run e)
    on_sql_error-Holds e = Preserves-if _ _ _ (Preserves-raise _) (Preserves-raise e)

    batch-Holds :
        (ss : List Text)
        → Preserves Holds
            (catch (sql_transaction (run_all py_int run ss)) (on_sql_error py_int run))
    batch-Holds ss =
        Preserves-catch _ _ (sql_transaction-Preserves _ _ (λ db d h. h) (run_all-Holds ss))
          on_sql_error-Holds

  taken-Holds :
      (path : Text) (now : ℕ) (w : Conn (Disk MetaDb)) (o : Option Text)
      → (catch (taken py_int run path now) (λ _. raise (http_exception 500)) w).0 ≡ ok o
      → Holds path
          (snapshot path now w.tables)
          (catch (taken py_int run path now) (λ _. raise (http_exception 500)) w).1.tables
  taken-Holds path now w o h = go (backup_now path now w).0 (backup_now path now w).1 refl refl
    where
      go :
          (r : Result Text) (v : Conn (Disk MetaDb))
          → (backup_now path now w).0 ≡ r
          → (backup_now path now w).1 ≡ v
          → Holds path
              (snapshot path now w.tables)
              (catch (taken py_int run path now) (λ _. raise (http_exception 500)) w).1.tables
      go (ok file) v e f = ground (arith, backup_there path now w file)
      go (err x) v e f = absurd (ground arith)

  backup_first-Holds :
      (path : Text) (now : ℕ) (ss : List Text) (w : Conn (Disk MetaDb)) (o : Option Text)
      → any (λ s. not (is_readonly s)) ss ≡ true
      → (backup_first py_int run path now ss w).0 ≡ ok o
      → Holds path (snapshot path now w.tables) (backup_first py_int run path now ss w).1.tables
  unfolding backup_first
  backup_first-Holds path now ss w o writes h =
      let shut : backup_first py_int run path now ss
          ≡ catch (taken py_int run path now) (λ _. raise (http_exception 500)) =
        rw writes refl in
      rw shut (taken-Holds path now w o (rw shut at h))

  run_batch-Holds :
      (path : Text) (now : ℕ) (ss : List Text) (w : Conn (Disk MetaDb)) (r : Response)
      → any (λ s. not (is_readonly s)) ss ≡ true
      → (run_batch py_int run path now ss w).0 ≡ ok r
      → Holds path (snapshot path now w.tables) (run_batch py_int run path now ss w).1.tables
  unfolding run_batch
  run_batch-Holds path now ss w r writes h =
      let (o, got, rest, same) = bind_returned (backup_first py_int run path now ss) _ w r h in
      let held = backup_first-Holds path now ss w o writes got in
      rw same ((Preserves-bind _ _ (batch-Holds path _ ss) (λ rs. Preserves-pure _)).kept _ held)

  checked-Holds :
      (path : Text) (now : ℕ) (ss : List Text) (w : Conn (Disk MetaDb)) (r : Response)
      → any (λ s. not (is_readonly s)) ss ≡ true
      → (checked py_int run ss (run_batch py_int run path now ss) w).0 ≡ ok r
      → Holds path
          (snapshot path now w.tables)
          (checked py_int run ss (run_batch py_int run path now ss) w).1.tables
  checked-Holds path now [] w r writes h = absurd (ground arith)
  checked-Holds path now (s ∷ ss) w r writes h =
      ground (arith, run_batch-Holds path now (s ∷ ss) w r writes)

  abbrev pub MayWrite : AuthInfo → Type 0
  MayWrite a = (member write_scope (granted a) ≡ true) ⊎ (member admin_scope (granted a) ≡ true)

  admitted :
      (info : Option AuthInfo) (v u : Conn MetaDb) (a : AuthInfo)
      → (enforce_legacy_plane_key info v).0 ≡ ok tt
      → (require_sql_scopes info u).0 ≡ ok a
      → (b : AuthInfo) × (info ≡ some b) × MayWrite b × IsLegacy b
  unfolding enforce_legacy_plane_key require_sql_scopes member text_eq
  admitted none v u a h k = absurd (ground arith)
  admitted (some (session id)) v u a h k = (session id, refl, inl refl, tt)
  admitted (some (api_key scopes project_id key_id plane)) v u a h k =
      (api_key scopes project_id key_id plane, refl, may, ground arith)
    where
      may : MayWrite (api_key scopes project_id key_id plane)
      may = elim (Bool-cases (member write_scope scopes)) [
        | inl t ↦ inl t
        | inr f ↦ inr (ground arith)
      ]

  module _ (sha256 : Text → Text) (now : ℕ) (path : Text) (request : Request) (sql : Text)
      (w : Conn (Disk MetaDb)) where
    abbrev pub authorized : Disk MetaDb
    authorized = (on_live (authorize py_int run sha256 now request) w).1.tables

    -- Whenever a batch of which some statement is not read-only is answered, the backup file holds
    -- the database as it was before the batch.
    pub execute_sql_backed_up :
        (r : Response)
        → (execute_sql py_int run sha256 now path request sql w).0 ≡ ok r
        → any (λ s. not (is_readonly s)) (split_statements sql) ≡ true
        → first (is_at path) (execute_sql py_int run sha256 now path request sql w).1.tables.backups
          ≡ some (snapshot path now authorized)
    unfolding execute_sql
    execute_sql_backed_up r h writes =
        let (a, _, rest, same) =
          bind_returned (on_live (authorize py_int run sha256 now request)) _ w r h in
        rw same (checked-Holds path now (split_statements sql) _ r writes rest)

    -- Whenever a batch is refused or fails, no matter at which statement, the database is as it was
    -- when the request had been authorized, where no statement of the batch itself ends or begins
    -- the transaction (as COMMIT does).
    pub execute_sql_aborts :
        (e : Exc)
        → All (λ s. (v : Versions) → (run s v).1.before ≡ v.before) (split_statements sql)
        → (execute_sql py_int run sha256 now path request sql w).0 ≡ err e
        → (execute_sql py_int run sha256 now path request sql w).1.tables.live ≡ authorized.live
    unfolding execute_sql
    execute_sql_aborts e q h =
        elim (bind_raised (on_live (authorize py_int run sha256 now request)) _ w e h) [
          | inl (got, same) ↦ rw same refl
          | inr (a, rest, same) ↦
              rw same (checked_aborts py_int run path now (split_statements sql) _ e q rest)
        ]

    -- A batch is answered only to a caller whom `resolve_auth` knows, who has the write or the admin
    -- scope, and whose key, if it is one, was not made on the project-scoped plane.
    pub execute_sql_authorized :
        (r : Response)
        → (execute_sql py_int run sha256 now path request sql w).0 ≡ ok r
        → (a : AuthInfo) × ((resolve_auth sha256 now request
              (record { tables = w.tables.live; faults = w.faults })).0
            ≡ ok (some a))
          × MayWrite a
          × IsLegacy a
    unfolding execute_sql authorize
    execute_sql_authorized r h =
        let v : Conn MetaDb = record { tables = w.tables.live; faults = w.faults } in
        let (a, known, _, _) =
          bind_returned (on_live (authorize py_int run sha256 now request)) _ w r h in
        let (info, there, rest, _) = bind_returned (resolve_auth sha256 now request) _ v a known in
        let (u, plane, scopes, _) = bind_returned (enforce_legacy_plane_key info) _ _ a rest in
        let (b, some_b, may, legacy) = admitted info _ _ a plane scopes in
        (b, there ∙ ap ok some_b, may, legacy)
