-- ===== src/Auth/Users/Login.antt =====
-- Logging in.
use pyronites.Base.{◌≡◌, true, Text, arith, some, lower, lower_idem, first, []}
use pyronites.Db.{ok, Conn, healthy, execute}
use pyronites.Auth.{User, AuthDb, has_email}
use pyronites.Auth.Passwords.{Hasher, is_argon2_hash, verify_password, verified}
use pyronites.Auth.Users.{authenticate_user}

module _ (ph : Hasher) (email plain : Text) where
  -- Whichever statements fail, a login that returns an account returns the first one with the lower
  -- case of the given address; that account is active, its stored password is an Argon2 hash, and
  -- the hasher verified the given password against it.
  pub authenticate_user_sound :
      (w : Conn AuthDb) (u : User)
      → (authenticate_user ph email plain w).0 ≡ ok (some u)
      → (first (has_email (lower email)) w.tables.users ≡ some u)
        × (u.is_active ≡ true)
        × (is_argon2_hash u.password_hash ≡ true)
        × (ph.verify u.password_hash plain ≡ verified)
  unfolding authenticate_user execute verify_password
  authenticate_user_sound w u h = ground (arith, lower_idem email)

  pub authenticate_user_reads :
      (db : AuthDb)
      → ((authenticate_user ph email plain (healthy db)).1.faults ≡ [])
        × ((authenticate_user ph email plain (healthy db)).1.tables ≡ db)
  unfolding authenticate_user execute
  authenticate_user_reads db = ground arith
