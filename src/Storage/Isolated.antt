-- ===== src/Storage/Isolated.antt =====
-- A project sees and deletes its own files only.
use pyronites.Base.{
  ℕ, ◌≡◌, ◌∙◌, ap, refl, arith, true, false, not, Option, none, some, Text, text_eq, text_eq_sound,
  first, keep, first-keep,
}
use pyronites.Db.{ok, err, Conn, healthy, execute, file_not_found}
use pyronites.Db.Preserves.{
  Preserves, Preserves-execute, Preserves-bind, Preserves-raise, Preserves-pure,
}
use pyronites.Storage.{
  FileRecord, Store, is_file, belongs, select_row, read_file, or_missing, get_record, get, delete,
  unlink,
}

module _ (max_file_size : ℕ) (project_id id : Text) where
  -- The id of a file of another project, or of none, is answered as a missing file, by `get` as by
  -- `delete`, and nothing is changed.
  delete-foreign :
      (s : Store)
      → first (belongs project_id id) s.rows ≡ none
      → ((get max_file_size project_id id (healthy s)).0 ≡ err file_not_found)
        × ((delete max_file_size project_id id (healthy s)).0 ≡ err file_not_found)
        × ((delete max_file_size project_id id (healthy s)).1.tables ≡ s)
  unfolding get delete get_record select_row execute
  delete-foreign s h = ground arith

  module _ (other : Text) (apart : text_eq other id ≡ false) where
    -- the row and the file of `other` are as in `s`
    abbrev Same : Store → Store → Type 0
    Same s t =
        ((project : Text)
          → first (belongs project other) t.rows ≡ first (belongs project other) s.rows)
        × (first (is_file other) t.disk ≡ first (is_file other) s.disk)

    unlink-Same : (s : Store) → Preserves (Same s) (unlink id)
    unfolding unlink
    unlink-Same s = Preserves-execute _ λ t (rows, disk). (
      rows,
      first-keep (is_file other) (λ f. not (is_file id f)) t.disk
            (λ f e. rw (text_eq_sound f.name other e) (ap not apart))
          ∙ disk,
    )

    delete_row-Same :
        (s : Store)
        → Preserves (Same s) (
            execute
              (λ t. (ok tt, record t { rows = keep (λ r. not (belongs project_id id r)) t.rows })))
    delete_row-Same s = Preserves-execute _ λ t (rows, disk). (
      λ project.
          first-keep (belongs project other) (λ r. not (belongs project_id id r)) t.rows
            (λ r e. clear project r e)
          ∙ rows project,
      disk,
    )
      where
        clear :
            (project : Text) (r : FileRecord)
            → belongs project other r ≡ true
            → not (belongs project_id id r) ≡ true
        clear project r e =
            (let name : r.id ≡ other = text_eq_sound r.id other (ground arith) in
              rw name (ground arith))

    or_missing-Same : (s : Store) (o : Option FileRecord) → Preserves (Same s) (or_missing o)
    or_missing-Same s none = Preserves-raise file_not_found
    or_missing-Same s (some r) = Preserves-pure r

    get_record-Same : (s : Store) → Preserves (Same s) (get_record max_file_size project_id id)
    unfolding get_record select_row
    get_record-Same s = Preserves-bind _ _ (Preserves-execute _ (λ t h. h)) (or_missing-Same s)

    delete-Same : (s : Store) → Preserves (Same s) (delete max_file_size project_id id)
    unfolding delete
    delete-Same s =
        Preserves-bind _ _ (get_record-Same s)
          (λ r. Preserves-bind _ _ (unlink-Same s) (λ _. delete_row-Same s))

    -- Whatever fails in deleting one file, `get` answers for every other id, in every project, as it
    -- did before.
    pub get-delete_other :
        (w : Conn Store) (project : Text)
        → (get max_file_size project other
            (healthy (delete max_file_size project_id id w).1.tables)).0
          ≡ (get max_file_size project other (healthy w.tables)).0
    unfolding get select_row read_file execute
    get-delete_other w project =
        let (rows, disk) = (delete-Same w.tables).kept w ((λ p. refl), refl) in
        ground (arith, rows project, disk)
