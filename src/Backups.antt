-- ===== src/Backups.antt =====
-- backend/core/backup.py: the copies of a database file. `S` is the contents of a database.
pub mod Restore
pub mod Newest
pub mod Retention
use pyronites.Base.{
  ℕ, Bool, true, false, not, Option, none, some, List, [], ◌∷◌, ◌++◌, Text, text_eq, first, keep,
  drop, leb, max, if◌then◌else◌,
}
use pyronites.Db.{
  Exc, ok, database_error, os_error, file_not_found, is_database_error, Exec, pure, raise, execute,
  catch, ◌>>=◌, ◌>>◌,
}

module _ (S : Type 0) where
  -- a file of the backup directory; `created_at` is the time in its name
  pub record Backup : Type 0 where
    pub path : Text
    pub created_at : ℕ
    pub content : S

  -- the live database, and the backup directory
  pub record Disk : Type 0 where
    pub live : S
    pub backups : List Backup

module _ {S : Type 0} where
  abbrev pub is_at : Text → Backup S → Bool
  is_at path b = text_eq b.path path

  -- `unlink`
  unfoldable pub unlink : Text → Exec (Disk S) (Unit {0})
  unlink path =
      execute (λ d. (ok tt, record d { backups = keep (λ b. not (is_at path b)) d.backups }))

  -- a failing clean-up is logged
  abbrev pub discard : Text → Exec (Disk S) (Unit {0})
  discard path = catch (unlink path) (λ _. pure tt)

  -- the copy by SQLite's backup API
  unfoldable pub copy : Text → ℕ → Exec (Disk S) (Unit {0})
  copy path now = execute (λ d. (
    ok tt,
    record d {
      backups =
          keep (λ b. not (is_at path b)) d.backups
          ++ record { path = path; created_at = now; content = d.live } ∷ [];
    },
  ))

  -- SELECT 1
  unfoldable pub verify : Exec (Disk S) (Unit {0})
  verify = execute (λ d. (ok tt, d))

  -- `except sqlite3.Error` around the copy: a partial file goes
  abbrev pub on_copy_error : Text → Exc → Exec (Disk S) (Unit {0})
  on_copy_error path e =
      if is_database_error e then (do discard path; raise database_error) else raise e

  -- the two `except` around the test
  unfoldable pub on_verify_error : Text → Exc → Exec (Disk S) (Unit {0})
  unfolding unlink
  on_verify_error path os_error = do discard path; raise os_error
  on_verify_error path e =
      if is_database_error e then (do discard path; raise database_error) else raise e

  -- backup_now; `path` is the file's name with the time `now`
  unfoldable pub backup_now : Text → ℕ → Exec (Disk S) Text
  unfolding unlink copy verify on_verify_error
  backup_now path now = do
    catch (copy path now) (on_copy_error path)
    catch verify (on_verify_error path)
    pure path

  -- sorted by `created_at`, newest first
  unfoldable pub insert_newest : Backup S → List (Backup S) → List (Backup S)
  insert_newest b [] = b ∷ []
  insert_newest b (c ∷ cs) =
      if leb c.created_at b.created_at then b ∷ c ∷ cs else c ∷ insert_newest b cs

  unfoldable pub list_backups : List (Backup S) → List (Backup S)
  unfolding insert_newest
  list_backups [] = []
  list_backups (b ∷ bs) = insert_newest b (list_backups bs)

  -- `except OSError` around each `unlink` is logged
  abbrev pub on_unlink_error : Exc → Exec (Disk S) (Unit {0})
  on_unlink_error os_error = pure tt
  on_unlink_error e = raise e

  unfoldable pub unlink_all : List (Backup S) → Exec (Disk S) (Unit {0})
  unfolding unlink
  unlink_all [] = pure tt
  unlink_all (b ∷ bs) = do catch (unlink b.path) on_unlink_error; unlink_all bs

  -- prune_backups; the retention is at least one
  unfoldable pub prune_backups : ℕ → Exec (Disk S) (Unit {0})
  unfolding list_backups unlink_all
  prune_backups count = do
    backups ← (λ w. (ok (list_backups w.tables.backups), w))
    unlink_all (drop (max 1 count) backups)

  abbrev pub content_of : Option (Backup S) → Exec (Disk S) S
  content_of none = raise file_not_found
  content_of (some b) = pure b.content

  unfoldable pub write_live : S → Exec (Disk S) (Unit {0})
  write_live s = execute (λ d. (ok tt, record d { live = s }))

  -- `except sqlite3.Error`
  abbrev as_database_error : Exc → Exec (Disk S) (Unit {0})
  as_database_error e = if is_database_error e then raise database_error else raise e

  -- restore_into_live
  unfoldable pub restore_into_live : Text → Exec (Disk S) (Unit {0})
  unfolding verify write_live
  restore_into_live path = do
    content ← (λ w. content_of (first (is_at path) w.tables.backups) w)
    catch (do verify; write_live content) as_database_error

  -- one turn of scheduled_backup_loop, between two sleeps; any exception is logged
  unfoldable pub scheduled_backup :
      (Text → Exec (Disk S) (Unit {0})) → Text → ℕ → Exec (Disk S) (Unit {0})
  unfolding backup_now prune_backups
  scheduled_backup on_backup path now =
      catch (do file ← backup_now path now; prune_backups 10; on_backup file) (λ _. pure tt)
