-- ===== src/Auth/Sessions/Sound.antt =====
-- What a validated token means, whichever statements fail.
use pyronites.Base.{ℕ, ◌≡◌, ◌≤◌, Text, some, first, arith}
use pyronites.Db.{ok, Conn, execute}
use pyronites.Auth.{User, SessionRow, AuthDb, has_id, has_token}
use pyronites.Auth.Sessions.{validate_session}

module _ (sha256 : Text → Text) (now : ℕ) (token : Text) where
  -- Whichever statements fail, a token that opens an account has its hash in the sessions table; the
  -- row has not expired, and the account is the one that the row names.
  pub validate_session_sound :
      (w : Conn AuthDb) (u : User)
      → (validate_session sha256 now token w).0 ≡ ok (some u)
      → (s : SessionRow) × (first (has_token (sha256 token)) w.tables.sessions ≡ some s)
        × (now ≤ s.expires_at)
        × (first (has_id s.user_id) w.tables.users ≡ some u)
  unfolding validate_session execute
  validate_session_sound w u h = ground arith
