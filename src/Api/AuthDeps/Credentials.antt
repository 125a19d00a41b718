-- ===== src/Api/AuthDeps/Credentials.antt =====
-- What credentials a recognized request has presented.
use pyronites.Base.{
  ℕ, ◌≡◌, ◌≤◌, ◌⊎◌, ap, sym, subst, ◌∙◌, refl, arith, false, Option, none, some, Text, first, inl,
  inr,
}
use pyronites.Db.{ok, Conn}
use pyronites.Db.Transaction.{bind_returned}
use pyronites.Auth.{AuthDb, User, SessionRow, has_id, has_token}
use pyronites.Auth.ApiKeys.{ApiKey, KeyRow, has_hash, to_key, validate_api_key}
use pyronites.Auth.ApiKeys.Revoked.{validate_api_key_sound}
use pyronites.Auth.Sessions.{validate_session}
use pyronites.Auth.Sessions.Sound.{validate_session_sound}
use pyronites.Api.{MetaDb, in_auth, in_keys}
use pyronites.Api.AuthDeps.{
  Request, AuthInfo, session, key_auth, session_auth, bearer_key, cookie, by_cookie, or_cookie,
  by_key, resolve_auth,
}

module _ (sha256 : Text → Text) (now : ℕ) where
  -- the key is in the table, not revoked, and the scopes and the project are those of its row
  abbrev pub HasKey : MetaDb → Option Text → AuthInfo → Type 0
  HasKey db none a = ⊥
  HasKey db (some raw) a =
      (r : KeyRow) × (first (has_hash (sha256 raw)) db.keys ≡ some r)
      × (r.is_revoked ≡ false)
      × (a ≡ key_auth (to_key false r))

  -- the session is in the table, not expired, and the account is that of its row
  abbrev pub HasSession : AuthDb → Option Text → AuthInfo → Type 0
  HasSession db none a = ⊥
  HasSession db (some token) a =
      (s : SessionRow) × (u : User) × (first (has_token (sha256 token)) db.sessions ≡ some s)
      × (now ≤ s.expires_at)
      × (first (has_id s.user_id) db.users ≡ some u)
      × (a ≡ session u.id)

  session_of :
      (o : Option User) (a : AuthInfo)
      → session_auth sha256 now o ≡ some a
      → (u : User) × (o ≡ some u) × (a ≡ session u.id)
  session_of none a h = absurd (ground arith)
  session_of (some u) a h = (u, refl, ground arith)

  by_cookie_sound :
      (o : Option Text) (w : Conn MetaDb) (a : AuthInfo)
      → (by_cookie sha256 now o w).0 ≡ ok (some a)
      → HasSession w.tables.auth o a
  unfolding by_cookie
  by_cookie_sound none w a h = absurd (ground arith)
  by_cookie_sound (some token) w a h =
      let (o, got, rest, _) =
        bind_returned (in_auth (validate_session sha256 now token)) _ w (some a) h in
      let (u, there, name) = session_of o a (ground arith) in
      let (s, found, fresh, owner) =
        validate_session_sound sha256 now token
          (record { tables = w.tables.auth; faults = w.faults }) u (got ∙ ap ok there) in
      (s, u, found, fresh, owner, name)

  -- whatever happened to the table of sessions in between: looking up a key leaves it
  or_cookie_sound :
      (raw : Text) (token : Option Text) (o : Option ApiKey) (w v : Conn MetaDb) (a : AuthInfo)
      → (in_keys (validate_api_key sha256 now raw) w).0 ≡ ok o
      → v.tables.auth ≡ w.tables.auth
      → (or_cookie sha256 now token o v).0 ≡ ok (some a)
      → HasKey w.tables (some raw) a ⊎ HasSession w.tables.auth token a
  or_cookie_sound raw token (some k) w v a got same h =
      let (r, found, live, is_row) =
        validate_api_key_sound sha256 now raw (record { tables = w.tables.keys; faults = w.faults })
          k got in
      let one : key_auth k ≡ a = ground arith in inl (r, found, live, sym one ∙ ap key_auth is_row)
  or_cookie_sound raw token none w v a got same h =
      inr (subst (λ d. HasSession d token a) same (by_cookie_sound token v a h))

  auth-in_keys :
      (raw : Text) (w : Conn MetaDb)
      → (in_keys (validate_api_key sha256 now raw) w).1.tables.auth ≡ w.tables.auth
  auth-in_keys raw w = refl

  by_key_sound :
      (key token : Option Text) (w : Conn MetaDb) (a : AuthInfo)
      → (by_key sha256 now key token w).0 ≡ ok (some a)
      → HasKey w.tables key a ⊎ HasSession w.tables.auth token a
  unfolding by_key
  by_key_sound none token w a h = inr (by_cookie_sound token w a h)
  by_key_sound (some raw) token w a h =
      let (o, got, rest, _) =
        bind_returned (in_keys (validate_api_key sha256 now raw)) _ w (some a) h in
      or_cookie_sound raw token o w _ a got refl rest

  -- Whichever statements fail, a request that `resolve_auth` recognizes has presented a key of the
  -- table that is not revoked, whose scopes and project are then the caller's, or the token of a
  -- session that has not expired, whose account is then the caller.
  pub resolve_auth_sound :
      (request : Request) (w : Conn MetaDb) (a : AuthInfo)
      → (resolve_auth sha256 now request w).0 ≡ ok (some a)
      → HasKey w.tables (bearer_key request.authorization) a
        ⊎ HasSession w.tables.auth (cookie request.session_token) a
  unfolding resolve_auth
  resolve_auth_sound request w a h =
      by_key_sound (bearer_key request.authorization) (cookie request.session_token) w a h
