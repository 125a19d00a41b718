-- ===== src/Tests/Files.antt =====
-- Stored files and backups.
use pyronites.Base.{
  any, strip, text_eq, ℕ, ◌≡◌, ◌≤◌, refl, arith, inl, inr, keep, some, [], ◌∷◌, Text, codes, All,
  take, max, length, lower, starts_with,
}
use pyronites.Db.{execute, ok, healthy, Conn, os_error}
use pyronites.Backups.{Backup, Disk, list_backups, backup_now, prune_backups, restore_into_live}
use pyronites.Backups.Restore.{restore-backup}
use pyronites.Backups.Retention.{OnDisk, prune_backups-keeps}
use pyronites.Storage.{FileRecord, Store, Upload, stream, save, get}
use pyronites.Storage.Stored.{upload_data, get-save}
use pyronites.Storage.Listing.{pattern_of, like, like-escape_prefix}

abbrev backup : Text → ℕ → Backup ℕ
backup path created_at = record { path = path; created_at = created_at; content = created_at }

abbrev backups : Disk ℕ
backups = record {
  live = 7;
  backups = backup (codes "a") 3 ∷ backup (codes "b") 9 ∷ backup (codes "c") 5 ∷ [];
}

restore-backup_example :
    (restore_into_live (codes "d") (
      healthy (record (backup_now (codes "d") 12 (healthy backups)).1.tables {
        live = 99;
      }))).1.tables.live
    ≡ 7
unfolding backup_now execute
restore-backup_example = restore-backup (codes "d") 12 (healthy backups) (codes "d") 99 refl

-- the first deletion fails
abbrev stuck : Conn (Disk ℕ)
stuck = record { tables = backups; faults = some os_error ∷ [] }

abbrev newest : Backup ℕ
newest = backup (codes "b") 9

prune_backups-keeps_example :
    OnDisk newest (prune_backups 0 stuck).1.tables
    × All
        (λ b. OnDisk b (prune_backups 0 stuck).1.tables)
        (take (max 1 0) (list_backups backups.backups))
unfolding list_backups any text_eq keep
prune_backups-keeps_example =
    prune_backups-keeps 0 stuck newest (refl, (refl, (refl, tt))) (inr (inl refl)) (ground arith)

abbrev row : FileRecord
row = record {
  id = codes "f1";
  original_filename = codes "notes.txt";
  content_type = codes "text/plain";
  size_bytes = 2;
  uploaded_at = 4;
  project_id = codes "p1";
}

abbrev store : Store
store = record { rows = row ∷ []; disk = record { name = codes "f1"; content = 1 ∷ 2 ∷ [] } ∷ [] }

-- two chunks, the empty one that ends the stream, and one that is not read
abbrev upload : Upload
upload = stream ((5 ∷ 6 ∷ []) ∷ (7 ∷ []) ∷ [] ∷ (8 ∷ []) ∷ [])

abbrev saved : FileRecord
saved = record {
  id = codes "f2";
  original_filename = codes "a.bin";
  content_type = codes "x/y";
  size_bytes = 3;
  uploaded_at = 6;
  project_id = codes "p1";
}

get-save_example :
    (length (upload_data upload) ≤ 3)
    × (saved.size_bytes ≡ length (upload_data upload))
    × ((get 3 (codes "p1") (codes "f2") (
          healthy
            (save 3
              (codes "p1")
              (codes "f2")
              6
              upload
              (codes "a.bin")
              (codes "x/y")
              (healthy store)).1.tables)).0
        ≡ ok (upload_data upload))
unfolding save strip any execute text_eq
get-save_example =
    get-save 3 (codes "p1") (codes "f2") 6 upload (codes "a.bin") (codes "x/y") (healthy store)
      saved refl

like-escape_prefix_example :
    like (pattern_of (codes "5_%")) (codes "5_%.txt")
    ≡ starts_with (lower (codes "5_%")) (lower (codes "5_%.txt"))
like-escape_prefix_example = like-escape_prefix (codes "5_%") (codes "5_%.txt")
