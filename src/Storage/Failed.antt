-- ===== src/Storage/Failed.antt =====
-- A save that fails leaves nothing behind.
use mathlib.Core.List.{append-nil}
use pyronites.Base.{
  ℕ, ◌≡◌, ◌∙◌, ap, refl, arith, not, none, some, List, [], ◌∷◌, ◌++◌, Text, text_eq_refl, first,
  keep, keep-append,
}
use pyronites.Db.{Exc, ok, err, Result, Conn, Exec, execute, lift, ◌>>=◌}
use pyronites.Storage.{
  FileRecord, File, Store, Upload, is_file, validate_filename, read_upload, write_file, unlink,
  clean_up, put, put_small, save,
}

keep-missing :
    (id : Text) (fs : List File)
    → first (is_file id) fs ≡ none
    → keep (λ f. not (is_file id f)) fs ≡ fs
unfolding first keep
keep-missing id [] h = refl
keep-missing id (f ∷ fs) h = ground (arith, keep-missing id fs)

-- the INSERT fails, and nothing else
abbrev pub insert_fails : Store → Exc → Conn Store
insert_fails s e = record { tables = s; faults = none ∷ some e ∷ [] }

module _ (max_file_size : ℕ) (project_id id : Text) (s : Store) (e : Exc)
    (new : first (is_file id) s.disk ≡ none) where
  cleaned :
      (content : List ℕ)
      → keep
          (λ f. not (is_file id f))
          (keep (λ f. not (is_file id f)) s.disk ++ record { name = id; content = content } ∷ [])
        ≡ s.disk
  unfolding keep
  cleaned content =
      let same = keep-missing id s.disk new in
      rw same (
        keep-append (λ f. not (is_file id f)) s.disk _ ∙ rw (text_eq_refl id) (append-nil _ ∙ same))

  put_fails :
      (r : FileRecord) (content : List ℕ)
      → (put max_file_size project_id id r content (insert_fails s e)).1.tables ≡ s
  unfolding put write_file clean_up unlink execute
  put_fails r content = ap (λ disk. record s { disk = disk }) (cleaned content)

  put_small_fails :
      (r : FileRecord) (content : List ℕ)
      → (put_small max_file_size project_id id r content (insert_fails s e)).1.tables ≡ s
  unfolding put_small
  put_small_fails r content = ground (arith, put_fails r content)

  lifted :
      {A B : Type 0} (r : Result A) (f : A → Exec Store B)
      → ((a : A) → (f a (insert_fails s e)).1.tables ≡ s)
      → ((lift r >>= f) (insert_fails s e)).1.tables ≡ s
  lifted (ok a) f k = k a
  lifted (err x) f k = refl

  -- Where the row of a new file cannot be written, `save` leaves the table and the directory as they
  -- were: the file that it has written goes again.
  save_fails :
      (now : ℕ) (upload : Upload) (filename content_type : Text)
      → (save max_file_size project_id id now upload filename content_type
          (insert_fails s e)).1.tables
        ≡ s
  unfolding save
  save_fails now upload filename content_type =
      lifted (validate_filename filename) _
        λ u. lifted (read_upload max_file_size upload) _ λ content. put_small_fails _ content
