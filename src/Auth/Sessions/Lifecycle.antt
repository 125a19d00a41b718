-- ===== src/Auth/Sessions/Lifecycle.antt =====
-- The life of a session: created, expired, revoked.
use pyronites.Base.{
  ℕ, ◌≤◌, ◌≡◌, ◌≢◌, true, false, not, ◌||◌, leb, ◌+◌, ◌*◌, Text, Option, none, some, List, first,
  first-append_new, any-false, any, keep, first_sound, first-keep-none, first-All, All-keep_self,
  text_eq, text_eq_refl, text_eq_iff, arith, refl, Bool-cases, inl, inr, if◌then◌else◌,
}
use pyronites.Db.{ok, Exc, Conn, healthy, execute}
use pyronites.Auth.{User, SessionRow, AuthDb, has_id, has_token, insert_session}
use pyronites.Auth.Sessions.{
  Session, create_session, validate_session, revoke_session, revoke_all_sessions_for_user,
}
use pyronites.Auth.Sessions.Sound.{validate_session_sound}

-- the inserted row is the one that its token finds
insert_session_found :
    (s : SessionRow) (db : AuthDb)
    → (insert_session s db).0 ≡ ok tt
    → first (has_token s.token) (insert_session s db).1.sessions ≡ some s
unfolding insert_session
insert_session_found s db h =
    elim (Bool-cases (any (λ r. text_eq r.id s.id || has_token s.token r) db.sessions)) [
      | inl old ↦ ground arith
      | inr new ↦ elim (Bool-cases (any (has_id s.user_id) db.users)) [
        | inr orphan ↦ ground arith
        | inl known ↦
            rw (new, known)
              (first-append_new (has_token s.token) db.sessions s
                (any-false (has_token s.token) (λ r. text_eq r.id s.id || has_token s.token r)
                  db.sessions (λ r e. ground arith) new)
                (text_eq_refl s.token))
      ]
    ]

insert_session_users :
    (s : SessionRow) (db : AuthDb)
    → (insert_session s db).0 ≡ ok tt
    → ((insert_session s db).1.users ≡ db.users) × (any (has_id s.user_id) db.users ≡ true)
unfolding insert_session
insert_session_users s db h = ground arith

module _ (sha256 : Text → Text) where
  module _ (day : ℕ) (id raw : Text) (now : ℕ) (user_id : Text) (days : ℕ) where
    abbrev row : SessionRow
    row = record {
      id = id;
      user_id = user_id;
      token = sha256 raw;
      expires_at = now + days * day;
      created_at = now;
    }

    -- On a database that does not fail, the token of a session that was created opens its user's
    -- account until the moment of expiry, and after it nobody's.
    validate_session-create :
        (db : AuthDb) (s : Session) (later : ℕ)
        → (create_session sha256 day id raw now user_id days (healthy db)).0 ≡ ok s
        → (validate_session sha256 later s.token
            (create_session sha256 day id raw now user_id days (healthy db)).1).0
          ≡ ok (if leb later s.expires_at then first (has_id user_id) db.users else none)
    unfolding create_session validate_session execute
    validate_session-create db s later h = ground (arith, insert_session_found row db)

    abbrev made : Session
    made = record {
      id = id;
      user_id = user_id;
      token = raw;
      expires_at = now + days * day;
      created_at = now;
    }

    -- on a database that does not fail, a new id and token and a known user make a session
    pub create_session_returns :
        (db : AuthDb)
        → any (λ r. text_eq r.id id || has_token (sha256 raw) r) db.sessions ≡ false
        → any (has_id user_id) db.users ≡ true
        → (s : Session) × ((create_session sha256 day id raw now user_id days (healthy db)).0
            ≡ ok s)
    unfolding create_session execute insert_session
    create_session_returns db new known = (made, rw (new, known) refl)

    -- whatever fails besides
    pub create_session_found :
        (w : Conn AuthDb) (s : Session)
        → (create_session sha256 day id raw now user_id days w).0 ≡ ok s
        → (first
              (has_token (sha256 raw))
              (create_session sha256 day id raw now user_id days w).1.tables.sessions
            ≡ some row)
          × ((create_session sha256 day id raw now user_id days w).1.tables.users ≡ w.tables.users)
          × (any (has_id user_id) w.tables.users ≡ true)
          × (s.token ≡ raw)
    unfolding create_session execute
    create_session_found w s h =
        ground (arith, insert_session_found row w.tables, insert_session_users row w.tables)

  -- on a database that does not fail, a row that has not expired opens the account that it names
  pub validate_session_live :
      (later : ℕ) (token : Text) (db : AuthDb) (s : SessionRow)
      → first (has_token (sha256 token)) db.sessions ≡ some s
      → later ≤ s.expires_at
      → (validate_session sha256 later token (healthy db)).0
        ≡ ok (first (has_id s.user_id) db.users)
  unfolding validate_session execute
  validate_session_live later token db s h k = ground arith

  validate_none :
      (now : ℕ) (token : Text) (w : Conn AuthDb)
      → first (has_token (sha256 token)) w.tables.sessions ≡ none
      → (validate_session sha256 now token w).0 ≡ ok none
  unfolding validate_session execute
  validate_none now token w h = ground arith

  revoked_none :
      (token : Text) (w : Conn AuthDb)
      → (revoke_session sha256 token w).0 ≡ ok tt
      → first (has_token (sha256 token)) (revoke_session sha256 token w).1.tables.sessions ≡ none
  unfolding revoke_session execute
  revoked_none token w h = ground (
    arith,
    first-keep-none (has_token (sha256 token)) (λ s. not (has_token (sha256 token) s))
        w.tables.sessions (λ s e. ground arith),
  )

  -- Once a token was revoked, it opens no account, at any time and whatever statements fail
  -- later.
  validate_session-revoke :
      (now : ℕ) (token : Text) (w : Conn AuthDb) (faults : List (Option Exc))
      → (revoke_session sha256 token w).0 ≡ ok tt
      → (validate_session sha256 now token
          (record { tables = (revoke_session sha256 token w).1.tables; faults = faults })).0
        ≡ ok none
  validate_session-revoke now token w faults h = validate_none now token _ (revoked_none token w h)

  others_left :
      (user_id token : Text) (w : Conn AuthDb) (s : SessionRow)
      → (revoke_all_sessions_for_user sha256 user_id w).0 ≡ ok tt
      → first (has_token token) (revoke_all_sessions_for_user sha256 user_id w).1.tables.sessions
        ≡ some s
      → text_eq s.user_id user_id ≡ false
  unfolding revoke_all_sessions_for_user execute
  others_left user_id token w s h e = ground (
    arith,
    first-All (λ s'. not (text_eq s'.user_id user_id) ≡ true) (has_token token)
        (keep (λ s'. not (text_eq s'.user_id user_id)) w.tables.sessions) s
        (All-keep_self (λ s'. not (text_eq s'.user_id user_id)) w.tables.sessions),
  )

  pub users-revoke_all :
      (user_id : Text) (w : Conn AuthDb)
      → (revoke_all_sessions_for_user sha256 user_id w).1.tables.users ≡ w.tables.users
  unfolding revoke_all_sessions_for_user execute
  users-revoke_all user_id w = ground arith

  -- Once all sessions of a user were revoked, no token opens an account of that user, at any time
  -- and whatever statements fail later.
  pub validate_session-revoke_all :
      (now : ℕ) (token user_id : Text) (w : Conn AuthDb) (faults : List (Option Exc)) (u : User)
      → (revoke_all_sessions_for_user sha256 user_id w).0 ≡ ok tt
      → (validate_session sha256 now token (record {
        tables = (revoke_all_sessions_for_user sha256 user_id w).1.tables;
        faults = faults;
      })).0
        ≡ ok (some u)
      → u.id ≢ user_id
  validate_session-revoke_all now token user_id w faults u h v same =
      let (s, found, fresh, owner) = validate_session_sound sha256 now token _ u v in
      let other = others_left user_id (sha256 token) w s h found in
      let own : text_eq u.id s.user_id ≡ true = first_sound (has_id s.user_id) _ u owner in
      ground (arith, text_eq_iff u.id s.user_id, text_eq_iff s.user_id user_id)
