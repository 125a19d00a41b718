-- ===== src/Storage.antt =====
-- backend/core/storage.py: files on disk under their ids, and their rows in storage_files.
pub mod Stored
pub mod Isolated
pub mod Listing
pub mod Failed
use pyronites.Base.{
  ℕ, ◌+◌, ◌==◌, Bool, true, false, not, ◌&&◌, ◌||◌, Option, none, some, List, [], ◌∷◌, ◌++◌, Text,
  text_eq, strip, lower_char, first, keep, any, take, drop, leb, ltb, length, if◌then◌else◌,
}
use pyronites.Db.{
  Exc, Result, ok, err, integrity_error, file_not_found, os_error, invalid_filename, file_too_large,
  Exec, pure, raise, lift, execute, catch, ◌>>=◌, ◌>>◌,
}

pub record FileRecord : Type 0 where
  pub id : Text
  pub original_filename : Text
  pub content_type : Text
  pub size_bytes : ℕ
  pub uploaded_at : ℕ
  pub project_id : Text

-- a file of the root directory
pub record File : Type 0 where
  pub name : Text
  pub content : List ℕ

-- the table storage_files, and the root directory
pub record Store : Type 0 where
  pub rows : List FileRecord
  pub disk : List File

-- bytes, or what the calls of `read` return
pub data Upload : Type 0 where
  bytes : List ℕ → Upload
  stream : List (List ℕ) → Upload

abbrev pub is_empty : {A : Type 0} → List A → Bool
is_empty [] = true
is_empty (x ∷ xs) = false

-- `".." in filename`
unfoldable pub has_dots : Text → Bool
has_dots [] = false
has_dots (c ∷ []) = false
has_dots (c ∷ d ∷ s) = c == b'.' && d == b'.' || has_dots (d ∷ s)

-- _validate_filename; a path that is absolute has a separator
unfoldable pub validate_filename : Text → Result (Unit {0})
unfolding has_dots
validate_filename filename =
    if is_empty (strip filename) || has_dots filename || any (λ c. c == b'/' || c == b'\\') filename
    then err invalid_filename
    else ok tt

-- the chunks up to the empty one, while their size is allowed
unfoldable pub read_chunks : ℕ → List ℕ → List (List ℕ) → Result (List ℕ)
read_chunks max_size buffer [] = ok buffer
read_chunks max_size buffer ([] ∷ chunks) = ok buffer
read_chunks max_size buffer ((c ∷ cs) ∷ chunks) =
    let now = buffer ++ c ∷ cs in
    let rest = read_chunks max_size now chunks in
    if ltb max_size (length now) then err file_too_large else rest

unfoldable pub read_upload : ℕ → Upload → Result (List ℕ)
unfolding read_chunks
read_upload max_size (bytes bs) = ok bs
read_upload max_size (stream chunks) = read_chunks max_size [] chunks

abbrev pub is_file : Text → File → Bool
is_file id f = text_eq f.name id

-- WHERE id = ? AND project_id = ?
abbrev pub belongs : Text → Text → FileRecord → Bool
belongs project id r = text_eq r.id id && text_eq r.project_id project

unfoldable pub write_file : Text → List ℕ → Exec Store (Unit {0})
write_file id content = execute (λ s. (
  ok tt,
  record s {
    disk = keep (λ f. not (is_file id f)) s.disk ++ record { name = id; content = content } ∷ [];
  },
))

-- `unlink(missing_ok=True)`
unfoldable pub unlink : Text → Exec Store (Unit {0})
unlink id = execute (λ s. (ok tt, record s { disk = keep (λ f. not (is_file id f)) s.disk }))

-- INSERT INTO storage_files: `id` is the primary key
unfoldable pub insert_row : FileRecord → Store → Result (Unit {0}) × Store
insert_row r s =
    if any (λ q. text_eq q.id r.id) s.rows
    then (err integrity_error, s)
    else (ok tt, record s { rows = s.rows ++ r ∷ [] })

unfoldable pub select_row : Text → Text → Exec Store (Option FileRecord)
select_row project id = execute (λ s. (ok (first (belongs project id) s.rows), s))

abbrev pub content_of : Option File → Result (List ℕ)
content_of none = err file_not_found
content_of (some f) = ok f.content

unfoldable pub read_file : Text → Exec Store (List ℕ)
read_file id = execute (λ s. (content_of (first (is_file id) s.disk), s))

abbrev pub or_missing : Option FileRecord → Exec Store FileRecord
or_missing none = raise file_not_found
or_missing (some r) = pure r

-- `except OSError` around the clean-up
abbrev pub on_cleanup_error : Exc → Exec Store (Unit {0})
on_cleanup_error os_error = pure tt
on_cleanup_error e = raise e

-- a file whose row could not be written goes again
unfoldable pub clean_up : Text → Exc → Exec Store (Unit {0})
unfolding unlink
clean_up id e = do catch (unlink id) on_cleanup_error; raise e

module _ (max_file_size : ℕ) (project_id : Text) where
  abbrev pub new_record : Text → ℕ → Text → Text → List ℕ → FileRecord
  new_record id now filename content_type content = record {
    id = id;
    original_filename = filename;
    content_type = content_type;
    size_bytes = length content;
    uploaded_at = now;
    project_id = project_id;
  }

  unfoldable pub put : Text → FileRecord → List ℕ → Exec Store FileRecord
  unfolding write_file insert_row clean_up
  put id r content = do write_file id content; catch (execute (insert_row r)) (clean_up id); pure r

  unfoldable pub put_small : Text → FileRecord → List ℕ → Exec Store FileRecord
  unfolding put
  put_small id r content =
      if ltb max_file_size (length content) then raise file_too_large else put id r content

  -- save; `id` is the new uuid, `now` the clock
  unfoldable pub save : Text → ℕ → Upload → Text → Text → Exec Store FileRecord
  unfolding validate_filename read_upload put_small
  save id now upload filename content_type = do
    lift (validate_filename filename)
    content ← lift (read_upload max_file_size upload)
    put_small id (new_record id now filename content_type content) content

  -- get_record
  unfoldable pub get_record : Text → Exec Store FileRecord
  unfolding select_row
  get_record id = do row ← select_row project_id id; or_missing row

  -- get
  unfoldable pub get : Text → Exec Store (List ℕ)
  unfolding select_row read_file
  get id = do row ← select_row project_id id; or_missing row; read_file id

  -- delete: the file first, then the row
  unfoldable pub delete : Text → Exec Store (Unit {0})
  unfolding get_record unlink
  delete id = do
    get_record id
    unlink id
    execute (λ s. (ok tt, record s { rows = keep (λ r. not (belongs project_id id r)) s.rows }))
