-- ===== src/Api/Accounts/Entered.antt =====
-- backend/api/auth.py: who a login lets in.
use pyronites.Base.{
  ℕ, ◌+◌, ◌*◌, ◌≡◌, ◌≢◌, ◌≤◌, ◌∙◌, ap, sym, subst, refl, arith, true, Option, none, some, [], ◌∷◌,
  Text, text_eq, codes, first, lower,
}
use pyronites.Db.{ok, Conn, healthy, lift, execute, ◌>>=◌}
use pyronites.Db.Transaction.{bind_returned, catch_total}
use pyronites.Auth.{User, has_id, has_email}
use pyronites.Auth.Passwords.{verified}
use pyronites.Auth.Users.{authenticate_user}
use pyronites.Auth.Users.Changed.{first_of_any}
use pyronites.Auth.Users.Login.{authenticate_user_sound}
use pyronites.Auth.Sessions.{Session, validate_session}
use pyronites.Auth.Sessions.Lifecycle.{create_session_found, validate_session_live}
use pyronites.Projects.{last_of}
use pyronites.Api.AuthDeps.{cookie}
use pyronites.Api.Accounts.{
  Platform, Setting, in_users, put_auth, in_registry, body_email, ip_key, limited, auth_rate_window,
}
use pyronites.Api.Accounts.Cookie.{kept, Surroundings, set_session_cookie}
use pyronites.Api.Accounts.Entry.{
  Fresh, Response, Me, open_session, default_project, or_unauthorized, enter, user_of,
  last_project_id, login, me,
}
use pyronites.Api.Accounts.Kept.{found_user, limited-Untouched}

-- the token opens an account of this id until that time, on a database that does not fail
abbrev pub Opens : Setting → Platform → Text → Text → ℕ → Type 0
Opens px p token id until =
    (later : ℕ)
    → later ≤ until
    → (m : Response Me) × ((me px later (some token) (healthy p)).0 ≡ ok m) × (m.body.id ≡ id)

last_project_id_total :
    (px : Setting) (now : ℕ) (id : Text) (w : Conn Platform)
    → (o : Option Text) × ((last_project_id px now id w).0 ≡ ok o)
unfolding last_project_id
last_project_id_total px now id w =
    catch_total
      (in_registry (execute (λ r. (ok (last_of (first (λ l. text_eq l.user_id id) r.last)), r))))
      none w

module _ (px : Setting) where
  me_live :
      (now : ℕ) (token : Text) (p : Platform) (u : User)
      → token ≢ []
      → (validate_session px.sha256 now token (healthy p.auth)).0 ≡ ok (some u)
      → (m : Response Me) × ((me px now (some token) (healthy p)).0 ≡ ok m) × (m.body.id ≡ u.id)
  unfolding me user_of
  me_live now [] p u full h = absurd (full refl)
  me_live now (c ∷ t) p u full h =
      let (o, got) =
        last_project_id_total px now u.id (user_of px now (some (c ∷ t)) (healthy p)).1 in
      (
        record { body = record { email = u.email; id = u.id; last_project_id = o }; cookie = kept },
        ground (arith, h, got),
        refl,
      )

  open_session-token :
      (now : ℕ) (fresh : Fresh) (user_id : Text) (w : Conn Platform) (s : Session)
      → (open_session px now fresh user_id w).0 ≡ ok s
      → s.token ≡ fresh.token
  unfolding open_session
  open_session-token now fresh user_id w s h =
      let (_, _, _, token) =
        create_session_found px.sha256 px.day fresh.session_id fresh.token now user_id 7
          (record { tables = w.tables.auth; faults = w.faults }) s h in
      token

  open_session-Opens :
      (now : ℕ) (fresh : Fresh) (user_id : Text) (w : Conn Platform) (s : Session)
      → fresh.token ≢ []
      → (open_session px now fresh user_id w).0 ≡ ok s
      → Opens px
          (open_session px now fresh user_id w).1.tables
          fresh.token
          user_id
          (now + 7 * px.day)
  unfolding open_session put_auth
  open_session-Opens now fresh user_id w s full h = λ later before.
      let (found, same, known, _) =
        create_session_found px.sha256 px.day fresh.session_id fresh.token now user_id 7
          (record { tables = w.tables.auth; faults = w.faults }) s h in
      let (u, there, name) = first_of_any user_id w.tables.auth.users known in
      let v = (open_session px now fresh user_id w).1 in
      let live = validate_session_live px.sha256 later fresh.token v.tables.auth _ found before in
      let (m, got, own) =
        me_live later fresh.token v.tables u full
          (live ∙ ap ok (ap (first (has_id user_id)) same ∙ there)) in
      (m, got, own ∙ name)

  enter-Opens :
      (now : ℕ) (s : Surroundings) (fresh : Fresh) (u : User) (w : Conn Platform)
      (r : Response Text)
      → fresh.token ≢ []
      → (enter px now s fresh u w).0 ≡ ok r
      → (r.cookie ≡ set_session_cookie px s fresh.token)
        × Opens px (enter px now s fresh u w).1.tables fresh.token u.id (now + 7 * px.day)
  unfolding enter
  enter-Opens now s fresh u w r full h =
      let v = (default_project px now fresh.project_id u.id w).1 in
      let (_, _, h1, e1) = bind_returned (default_project px now fresh.project_id u.id) _ w r h in
      let (session, opened, end, e2) = bind_returned (open_session px now fresh u.id) _ v r h1 in
      let token = open_session-token now fresh u.id v session opened in
      let opens = open_session-Opens now fresh u.id v session full opened in
      (
        ground (arith, token, end),
        subst (λ x. Opens px x.tables fresh.token u.id (now + 7 * px.day)) (sym (e1 ∙ e2)) opens,
      )

  -- A login that is answered is for an account that is active and whose password was verified; the
  -- cookie of the answer holds the new token, which then opens that account for seven days.
  pub login-Opens :
      (now : ℕ) (s : Surroundings) (fresh : Fresh) (ip email password : Text) (w : Conn Platform)
      (r : Response Text)
      → fresh.token ≢ []
      → (login px now s fresh ip email password w).0 ≡ ok r
      → (address : Text) × (u : User) × (body_email px email ≡ ok address)
        × (first (has_email (lower address)) w.tables.auth.users ≡ some u)
        × (u.is_active ≡ true)
        × (px.ph.verify u.password_hash password ≡ verified)
        × (r.cookie ≡ set_session_cookie px s fresh.token)
        × Opens px
            (login px now s fresh ip email password w).1.tables
            fresh.token
            u.id
            (now + 7 * px.day)
  unfolding login
  login-Opens now s fresh ip email password w r full h =
      let limit =
        limited px now (ip_key ip) (codes "auth:login") px.auth_rate_limit auth_rate_window in
      let v = (limit w).1 in
      let (address, is_address, h1, e1) = bind_returned (lift (body_email px email)) _ w r h in
      let auth = in_users (authenticate_user px.ph address password) in
      let (_, _, h2, e2) =
        bind_returned limit
          (λ _. auth >>= λ found. or_unauthorized px now found >>= enter px now s fresh) w r h1 in
      let (found, known, h3, e3) =
        bind_returned auth (λ found. or_unauthorized px now found >>= enter px now s fresh) v r
          h2 in
      let (u, is_user, entered, e4) =
        found_user px now found (enter px now s fresh) (auth v).1 r h3 in
      let (there, active, _, right) =
        authenticate_user_sound px.ph address password
          (record { tables = v.tables.auth; faults = v.faults }) u (known ∙ ap ok is_user) in
      let same =
        (limited-Untouched w.tables.auth px now (ip_key ip) (codes "auth:login") px.auth_rate_limit
            auth_rate_window).kept
          w refl in
      let (cookie, opens) = enter-Opens now s fresh u (auth v).1 r full entered in
      (
        address,
        u,
        is_address,
        subst (λ a. first (has_email (lower address)) a.users ≡ some u) same there,
        active,
        right,
        cookie,
        subst (λ x. Opens px x.tables fresh.token u.id (now + 7 * px.day))
            (sym (e1 ∙ e2 ∙ e3 ∙ ap (λ x. x.1) e4)) opens,
      )
