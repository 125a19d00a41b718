-- ===== src/Storage/Stored.antt =====
-- What was saved is found.
use mathlib.Core.List.{append_assoc, append-nil}
use pyronites.Base.{
  ℕ, ◌≡◌, ◌≤◌, ◌∙◌, ap, sym, refl, arith, false, not, some, List, [], ◌∷◌, ◌++◌, Text, text_eq,
  text_eq_refl, first, keep, any, length, first-append_new, first-keep-none, any-eq-first,
  any-false,
}
use pyronites.Db.{ok, Conn, healthy, execute, lift}
use pyronites.Db.Transaction.{bind_returned}
use pyronites.Storage.{
  FileRecord, File, Store, Upload, bytes, stream, is_file, belongs, validate_filename, read_upload,
  read_chunks, write_file, insert_row, select_row, read_file, new_record, put, save, get, clean_up,
  unlink, put_small,
}

-- what an upload holds: a stream ends at its first empty chunk
abbrev pub data_of : List (List ℕ) → List ℕ
data_of [] = []
data_of ([] ∷ chunks) = []
data_of ((c ∷ cs) ∷ chunks) = (c ∷ cs) ++ data_of chunks

abbrev pub upload_data : Upload → List ℕ
upload_data (bytes bs) = bs
upload_data (stream chunks) = data_of chunks

read_chunks-data :
    (max_size : ℕ) (buffer : List ℕ) (chunks : List (List ℕ)) (content : List ℕ)
    → read_chunks max_size buffer chunks ≡ ok content
    → content ≡ buffer ++ data_of chunks
unfolding read_chunks
read_chunks-data max_size buffer [] content h = ground (arith, append-nil buffer)
read_chunks-data max_size buffer ([] ∷ chunks) content h = ground (arith, append-nil buffer)
read_chunks-data max_size buffer ((c ∷ cs) ∷ chunks) content h =
    let next = read_chunks-data max_size (buffer ++ c ∷ cs) chunks content (ground arith) in
    next ∙ append_assoc buffer (c ∷ cs) (data_of chunks)

read_upload-data :
    (max_size : ℕ) (upload : Upload) (content : List ℕ)
    → read_upload max_size upload ≡ ok content
    → content ≡ upload_data upload
unfolding read_upload
read_upload-data max_size (bytes bs) content h = ground arith
read_upload-data max_size (stream chunks) content h = read_chunks-data max_size [] chunks content h

module _ (max_file_size : ℕ) (project_id : Text) where
  put_stored :
      (id : Text) (r q : FileRecord) (content : List ℕ) (w : Conn Store)
      → (put max_file_size project_id id r content w).0 ≡ ok q
      → (q ≡ r)
        × (any (λ p. text_eq p.id r.id) w.tables.rows ≡ false)
        × ((put max_file_size project_id id r content w).1.tables.rows ≡ w.tables.rows ++ r ∷ [])
        × ((put max_file_size project_id id r content w).1.tables.disk
            ≡ keep (λ f. not (is_file id f)) w.tables.disk
              ++ record { name = id; content = content } ∷ [])
  unfolding put write_file insert_row execute clean_up unlink
  put_stored id r q content w h = ground arith

  found :
      (id : Text) (content : List ℕ) (disk : List File)
      → first
          (is_file id)
          (keep (λ f. not (is_file id f)) disk ++ record { name = id; content = content } ∷ [])
        ≡ some (record { name = id; content = content })
  found id content disk =
      let gone = first-keep-none (is_file id) (λ f. not (is_file id f)) disk (λ f e. ap not e) in
      first-append_new (is_file id) _ _ (any-eq-first (is_file id) _ gone) (text_eq_refl id)

  read_back :
      (id : Text) (s : Store) (r : FileRecord) (f : File)
      → first (belongs project_id id) s.rows ≡ some r
      → first (is_file id) s.disk ≡ some f
      → (get max_file_size project_id id (healthy s)).0 ≡ ok f.content
  unfolding get select_row read_file execute
  read_back id s r f h k = ground arith

  got-put :
      (id : Text) (r q : FileRecord) (content : List ℕ) (w : Conn Store)
      → r.id ≡ id
      → r.project_id ≡ project_id
      → (put max_file_size project_id id r content w).0 ≡ ok q
      → (get max_file_size project_id id
          (healthy (put max_file_size project_id id r content w).1.tables)).0
        ≡ ok content
  got-put id r q content w same mine h =
      let (_, fresh, rows, disk) = put_stored id r q content w h in
      let none_yet : any (belongs project_id id) w.tables.rows ≡ false =
        any-false (belongs project_id id) (λ p. text_eq p.id id) w.tables.rows (λ p e. ground arith)
          (rw same at fresh) in
      read_back id _ r (record { name = id; content = content })
        (rw rows (
          first-append_new (belongs project_id id) w.tables.rows r none_yet
            (rw same (rw mine rw (text_eq_refl id) (text_eq_refl project_id)))))
        (rw disk (found id content w.tables.disk))

  put-small :
      (id : Text) (r q : FileRecord) (content : List ℕ) (w : Conn Store)
      → (put_small max_file_size project_id id r content w).0 ≡ ok q
      → (length content ≤ max_file_size)
        × (put_small max_file_size project_id id r content w
            ≡ put max_file_size project_id id r content w)
  unfolding put_small
  put-small id r q content w h = (ground arith, ground arith)

  got-put_small :
      (id : Text) (now : ℕ) (filename content_type : Text) (content : List ℕ) (w : Conn Store)
      (q : FileRecord)
      → (put_small max_file_size project_id id
          (new_record max_file_size project_id id now filename content_type content)
          content
          w).0
        ≡ ok q
      → (length content ≤ max_file_size)
        × (q.size_bytes ≡ length content)
        × ((get max_file_size project_id id (
              healthy
                (put_small max_file_size project_id id
                  (new_record max_file_size project_id id now filename content_type content)
                  content
                  w).1.tables)).0
            ≡ ok content)
  got-put_small id now filename content_type content w q h =
      let r = new_record max_file_size project_id id now filename content_type content in
      let (small, same) = put-small id r q content w h in
      let stored = ap (λ a. a.0) (sym same) ∙ h in
      let (is_r, _, _, _) = put_stored id r q content w stored in
      (
        small,
        ap (λ f. f.size_bytes) is_r,
        ap (λ a. (get max_file_size project_id id (healthy a.1.tables)).0) same
            ∙ got-put id r q content w refl refl stored,
      )

  -- What `save` returned for, `get` finds with every byte of the upload, which is not larger than
  -- allowed; the record has its size.
  pub get-save :
      (id : Text) (now : ℕ) (upload : Upload) (filename content_type : Text) (w : Conn Store)
      (q : FileRecord)
      → (save max_file_size project_id id now upload filename content_type w).0 ≡ ok q
      → (length (upload_data upload) ≤ max_file_size)
        × (q.size_bytes ≡ length (upload_data upload))
        × ((get max_file_size project_id id (
              healthy
                (save max_file_size project_id id now upload filename content_type w).1.tables)).0
            ≡ ok (upload_data upload))
  unfolding save
  get-save id now upload filename content_type w q h =
      let (u, _, rest, first_same) = bind_returned (lift (validate_filename filename)) _ w q h in
      let (content, read, last, second_same) =
        bind_returned (lift (read_upload max_file_size upload)) _ w q rest in
      let whole = read_upload-data max_file_size upload content read in
      let (small, size, back) = got-put_small id now filename content_type content w q last in
      (
        rw whole at small,
        size ∙ ap length whole,
        ap (λ v. (get max_file_size project_id id (healthy v.tables)).0) (first_same ∙ second_same)
            ∙ back
            ∙ ap ok whole,
      )
