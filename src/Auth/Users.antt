-- ===== src/Auth/Users.antt =====
-- backend/auth/users.py.
pub mod Hashed
pub mod Login
pub mod Changed
use pyronites.Base.{
  ℕ, Bool, true, false, not, ◌||◌, ◌&&◌, Option, none, some, List, [], ◌∷◌, ◌++◌, Text, text_eq,
  lower, strip, is_letter, is_digit, first, update, any, leb, ltb, length, ◌==◌, if◌then◌else◌,
}
use pyronites.Db.{
  Exc, Result, ok, err, value_error, user_exists, integrity_error, is_database_error, Exec, pure,
  raise, lift, execute, catch, ◌>>=◌, ◌>>◌,
}
use pyronites.Auth.{User, AuthDb, has_id, has_email, insert_user, delete_user_row}
use pyronites.Auth.Passwords.{Hasher, hash_password, verify_password}

-- [a-zA-Z0-9-]
abbrev is_label : ℕ → Bool
is_label c = is_letter c || is_digit c || c == b'-'

-- [a-zA-Z0-9_.+-]
abbrev is_local : ℕ → Bool
is_local c = is_label c || c == b'_' || c == b'.' || c == b'+'

abbrev pub is_empty : Text → Bool
is_empty [] = true
is_empty (c ∷ s) = false

-- `[a-zA-Z0-9-.]+$`; a `$` also matches before a last newline. `seen`: a character was read.
unfoldable pub match_rest : Bool → Text → Bool
match_rest seen [] = seen
match_rest seen (c ∷ s) =
    if c == 10 then seen && is_empty s else (is_label c || c == b'.') && match_rest true s

-- `[a-zA-Z0-9-]+\.` and the rest
unfoldable pub match_label : Bool → Text → Bool
unfolding match_rest
match_label seen [] = false
match_label seen (c ∷ s) =
    if c == b'.' then seen && match_rest false s else is_label c && match_label true s

-- `^[a-zA-Z0-9_.+-]+@` and the rest
unfoldable pub match_email : Bool → Text → Bool
unfolding match_label
match_email seen [] = false
match_email seen (c ∷ s) =
    if c == b'@' then seen && match_label false s else is_local c && match_email true s

unfoldable pub get_user_by_id : Text → Exec AuthDb (Option User)
get_user_by_id id = execute (λ db. (ok (first (has_id id) db.users), db))

unfoldable pub get_user_by_email : Text → Exec AuthDb (Option User)
get_user_by_email email = execute (λ db. (ok (first (has_email (lower email)) db.users), db))

-- `except DatabaseError` around the INSERT
abbrev pub on_insert_error : Exc → Exec AuthDb (Unit {0})
on_insert_error integrity_error = raise user_exists
on_insert_error e = raise e

abbrev pub new_user : Text → Text → Text → ℕ → User
new_user id email hashed now = record {
  id = id;
  email = email;
  password_hash = hashed;
  created_at = now;
  is_active = true;
}

-- set_user_active, set_user_password: UPDATE … WHERE id = ?, `cursor.rowcount > 0`
unfoldable pub update_user : Text → (User → User) → Exec AuthDb Bool
update_user id f =
    execute
      (λ db. (ok (any (has_id id) db.users), record db { users = update (has_id id) f db.users }))

unfoldable pub set_user_active : Text → Bool → Exec AuthDb Bool
unfolding update_user
set_user_active id active = update_user id (λ u. record u { is_active = active })

unfoldable pub delete_user : Text → Exec AuthDb Bool
unfolding delete_user_row
delete_user id = execute (delete_user_row id)

module _ (ph : Hasher) where
  -- the row and the answer of `create_user`, the address being new
  unfoldable pub add_user : Text → ℕ → Text → Text → Exec AuthDb User
  unfolding insert_user
  add_user id now email plain = do
    hashed ← lift (hash_password ph plain)
    let u = new_user id email hashed now
    catch (execute (insert_user u)) on_insert_error
    pure u

  unfoldable pub add_if_new : Text → ℕ → Text → Text → Option User → Exec AuthDb User
  unfolding add_user
  add_if_new id now email plain (some u) = raise user_exists
  add_if_new id now email plain none = add_user id now email plain

  -- create_user; `id` is the new uuid, `now` the clock
  unfoldable pub create_user : Text → ℕ → Text → Text → Exec AuthDb User
  unfolding get_user_by_email add_if_new match_email
  create_user id now email plain =
      if is_empty email || is_empty (strip email)
      then raise value_error
      else if not (match_email false email)
      then raise value_error
      else if is_empty plain
      then raise value_error
      else (do
        existing ← get_user_by_email (lower email)
        add_if_new id now (lower email) plain existing)

  unfoldable pub check_login : Text → Option User → Option User
  check_login plain none = none
  check_login plain (some u) =
      if not u.is_active
      then none
      else if not (verify_password ph plain u.password_hash)
      then none
      else some u

  unfoldable pub authenticate_user : Text → Text → Exec AuthDb (Option User)
  unfolding get_user_by_email check_login
  authenticate_user email plain =
      catch (do user ← get_user_by_email (lower email); pure (check_login plain user))
        (λ _. pure none)

  unfoldable pub set_user_password : Text → Text → Exec AuthDb Bool
  unfolding update_user
  set_user_password id plain =
      if is_empty plain || ltb (length plain) 8 then raise value_error else (do
        hashed ← lift (hash_password ph plain)
        update_user id (λ u. record u { password_hash = hashed }))
