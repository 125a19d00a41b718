-- ===== src/Backups/Restore.antt =====
-- A backup that was snapshot is good.
use pyronites.Base.{
  ℕ, ◌≡◌, arith, not, some, List, [], ◌∷◌, ◌++◌, Text, text_eq_refl, first, keep, first-append_new,
  any-eq-first, first-keep-none, ap,
}
use pyronites.Db.{ok, Conn, healthy, execute}
use pyronites.Backups.{
  unlink, on_verify_error, Backup, Disk, is_at, copy, verify, backup_now, restore_into_live,
  write_live,
}

module _ {S : Type 0} (path : Text) (now : ℕ) where
  abbrev pub snapshot : Disk S → Backup S
  snapshot d = record { path = path; created_at = now; content = d.live }

  backed_up :
      (w : Conn (Disk S)) (file : Text)
      → (backup_now path now w).0 ≡ ok file
      → (file ≡ path)
        × ((backup_now path now w).1.tables.backups
            ≡ keep (λ b. not (is_at path b)) w.tables.backups ++ snapshot w.tables ∷ [])
  unfolding backup_now copy verify execute
  backed_up w file h = ground arith

  found :
      (d : Disk S)
      → first (is_at path) (keep (λ b. not (is_at path b)) d.backups ++ snapshot d ∷ [])
        ≡ some (snapshot d)
  found d =
      let gone =
        first-keep-none (is_at path) (λ b. not (is_at path b)) d.backups (λ b e. ap not e) in
      first-append_new (is_at path) _ (snapshot d) (any-eq-first (is_at path) _ gone)
        (text_eq_refl path)

  pub backup_there :
      (w : Conn (Disk S)) (file : Text)
      → (backup_now path now w).0 ≡ ok file
      → first (is_at path) (backup_now path now w).1.tables.backups ≡ some (snapshot w.tables)
  backup_there w file h = let (name, files) = backed_up w file h in rw files (found w.tables)

  pub live-backup_now : (w : Conn (Disk S)) → (backup_now path now w).1.tables.live ≡ w.tables.live
  unfolding backup_now unlink copy verify on_verify_error execute
  live-backup_now w = ground arith

  restored :
      (bs : List (Backup S)) (b : Backup S) (live : S)
      → first (is_at path) bs ≡ some b
      → (restore_into_live path (healthy (record { live = live; backups = bs }))).1.tables.live
        ≡ b.content
  unfolding restore_into_live verify write_live execute
  restored bs b live h = ground arith

  -- A backup that `backup_now` returned restores the database as it was then, whatever the database
  -- became meanwhile.
  pub restore-backup :
      (w : Conn (Disk S)) (file : Text) (live : S)
      → (backup_now path now w).0 ≡ ok file
      → (restore_into_live file
          (healthy (record (backup_now path now w).1.tables { live = live }))).1.tables.live
        ≡ w.tables.live
  restore-backup w file live h =
      let (name, files) = backed_up w file h in
      rw name (rw files (restored _ (snapshot w.tables) live (found w.tables)))
