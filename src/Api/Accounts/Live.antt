-- ===== src/Api/Accounts/Live.antt =====
-- backend/api/auth.py: a login that is answered.
use pyronites.Base.{
  ℕ, ◌*◌, ◌≡◌, ◌≤◌, ◌∙◌, ap, sym, subst, refl, ◌||◌, true, false, Option, none, some, List, [],
  Text, codes, text_eq, text_eq_refl, lower, any, first-any, All,
}
use pyronites.Db.{pure, Result, ok, Conn, Exec, healthy, lift, continue, ◌>>=◌, ◌>>◌}
use pyronites.Db.Calm.{Calm, Calm-pure, Calm-bind, Calm-then, Calm-catch, Calm-within}
use pyronites.Db.Transaction.{bind_returns, catch_total}
use pyronites.Auth.{User, AuthDb, has_id, has_email, has_token}
use pyronites.Auth.Users.{authenticate_user}
use pyronites.Auth.Users.Login.{authenticate_user_sound, authenticate_user_reads}
use pyronites.Auth.Sessions.{Session, create_session}
use pyronites.Auth.Sessions.Lifecycle.{create_session_returns}
use pyronites.RateLimit.{Hit, Verdict}
use pyronites.RateLimit.Idle.{IsOld, check_and_record_idle}
use pyronites.Projects.{set_last_project}
use pyronites.Projects.Operations.{ensure_default_project}
use pyronites.Projects.Calmness.{set_last_project-Calm, ensure_default_project-Calm}
use pyronites.Api.Accounts.{
  Platform, Setting, in_users, in_registry, put_auth, put_hits, put_registry, body_email, ip_key,
  limited, refuse, auth_rate_window,
}
use pyronites.Api.Accounts.Cookie.{Surroundings, set_session_cookie}
use pyronites.Api.Accounts.Entry.{
  Fresh, Response, default_project, open_session, session_expiry_days, or_unauthorized, enter,
  login,
}
use pyronites.Api.Accounts.Kept.{limited-Untouched, default_project-Untouched}

module _ (px : Setting) (now : ℕ) where
  -- a call on the limiter's answer
  abbrev continue_with :
      Platform → Result Verdict × Conn (List Hit) → Result (Unit {0}) × Conn Platform
  continue_with p x =
      continue (x.0, record { tables = put_hits x.1.tables p; faults = x.1.faults }) (refuse px now)

  limited_passes :
      (key endpoint : Text) (limit window : ℕ) (p : Platform)
      → 1 ≤ limit
      → All (IsOld key endpoint (window * px.second) now) p.hits
      → ((limited px now key endpoint limit window (healthy p)).0 ≡ ok tt)
        × ((limited px now key endpoint limit window (healthy p)).1.faults ≡ [])
  unfolding limited
  limited_passes key endpoint limit window p room old =
      let (v, h, allowed, run) =
        check_and_record_idle px.second key endpoint limit (window * px.second) now p.hits room
          old in
      subst (λ x. ((continue_with p x).0 ≡ ok tt) × ((continue_with p x).1.faults ≡ [])) (sym run)
        (rw allowed (refl, refl))

  -- a database that does not fail, and the account in it
  abbrev Ready : AuthDb → Conn Platform → Type 0
  Ready a w = (w.faults ≡ []) × (w.tables.auth ≡ a)

  default_project-Calm :
      (project_id user_id : Text) → Calm (default_project px now project_id user_id)
  unfolding default_project
  default_project-Calm project_id user_id =
      let ensure = ensure_default_project px.prepare px.str project_id now user_id in
      let act = (do p ← ensure; set_last_project user_id p.id; pure (some p)) in
      Calm-catch (in_registry act) (λ _. pure none)
        (Calm-within (λ x. x.registry) put_registry act
          (Calm-bind ensure (λ p. set_last_project user_id p.id >> pure (some p))
            (ensure_default_project-Calm px.prepare px.str project_id now user_id)
            (λ p.
              Calm-then (set_last_project user_id p.id) (pure (some p))
                (set_last_project-Calm user_id p.id) (Calm-pure (some p)))))
        (λ _. Calm-pure none)

  default_project-Ready :
      (a : AuthDb) (project_id user_id : Text) (w : Conn Platform)
      → Ready a w
      → (o : _) × ((default_project px now project_id user_id w).0 ≡ ok o)
        × Ready a (default_project px now project_id user_id w).1
  unfolding default_project
  default_project-Ready a project_id user_id w (calm, same) =
      let act = (do
        p ← ensure_default_project px.prepare px.str project_id now user_id
        set_last_project user_id p.id
        pure (some p)) in
      let (o, got) = catch_total (in_registry act) none w in
      (
        o,
        got,
        (
          (default_project-Calm project_id user_id).stays w calm,
          (default_project-Untouched a px now project_id user_id).kept w same,
        ),
      )

  open_session-Ready :
      (a : AuthDb) (fresh : Fresh) (user_id : Text) (w : Conn Platform)
      → Ready a w
      → any (λ r. text_eq r.id fresh.session_id || has_token (px.sha256 fresh.token) r) a.sessions
        ≡ false
      → any (has_id user_id) a.users ≡ true
      → (s : Session) × ((open_session px now fresh user_id w).0 ≡ ok s)
  unfolding open_session
  open_session-Ready a fresh user_id w (calm, same) new known =
      let (s, got) =
        create_session_returns px.sha256 px.day fresh.session_id fresh.token now user_id
          session_expiry_days a new known in
      let there : record { tables = w.tables.auth; faults = w.faults } ≡ healthy a =
        ap (λ x. record { tables = x; faults = w.faults }) same
        ∙ ap (λ f. record { tables = a; faults = f }) calm in
      let create =
        create_session px.sha256 px.day fresh.session_id fresh.token now user_id
          session_expiry_days in
      (s, ap (λ x. (create x).0) there ∙ got)

  enter_answers :
      (a : AuthDb) (s : Surroundings) (fresh : Fresh) (u : User) (w : Conn Platform)
      → Ready a w
      → any (λ r. text_eq r.id fresh.session_id || has_token (px.sha256 fresh.token) r) a.sessions
        ≡ false
      → any (has_id u.id) a.users ≡ true
      → (r : Response Text) × ((enter px now s fresh u w).0 ≡ ok r)
  unfolding enter
  enter_answers a s fresh u w ready new known =
      let make = default_project px now fresh.project_id u.id in
      let open_it = open_session px now fresh u.id in
      let (o, made, after) = default_project-Ready a fresh.project_id u.id w ready in
      let (session, opened) = open_session-Ready a fresh u.id (make w).1 after new known in
      let answer : Response Text = record {
        body = u.email;
        cookie = set_session_cookie px s session.token;
      } in
      let end : Session → Exec Platform (Response Text) =
        λ x. pure (record { body = u.email; cookie = set_session_cookie px s x.token }) in
      (
        answer,
        bind_returns make (λ _. open_it >>= end) w o answer made
            (bind_returns open_it end (make w).1 session answer opened refl),
      )

  authenticate_user-Ready :
      (a : AuthDb) (address password : Text) (w : Conn Platform) (o : Option User)
      → Ready a w
      → (authenticate_user px.ph address password (healthy a)).0 ≡ ok o
      → ((in_users (authenticate_user px.ph address password) w).0 ≡ ok o)
        × Ready a (in_users (authenticate_user px.ph address password) w).1
  unfolding put_auth
  authenticate_user-Ready a address password w o (calm, same) right =
      let there : record { tables = w.tables.auth; faults = w.faults } ≡ healthy a =
        ap (λ x. record { tables = x; faults = w.faults }) same
        ∙ ap (λ f. record { tables = a; faults = f }) calm in
      let act = authenticate_user px.ph address password in
      (
        ap (λ x. (act x).0) there ∙ right,
        (
          ap (λ x. (act x).1.faults) there ∙ (authenticate_user_reads px.ph address password a).0,
          ap (λ x. (act x).1.tables) there ∙ (authenticate_user_reads px.ph address password a).1,
        ),
      )

  -- On a database that does not fail: who gives the password of an active account, with a new session
  -- id and token, is logged in, as soon as a window has passed since the last call from that client
  -- that was let through.
  pub login_answers :
      (s : Surroundings) (fresh : Fresh) (ip email password address : Text) (p : Platform)
      (u : User)
      → body_email px email ≡ ok address
      → (authenticate_user px.ph address password (healthy p.auth)).0 ≡ ok (some u)
      → 1 ≤ px.auth_rate_limit
      → All (IsOld (ip_key ip) (codes "auth:login") (auth_rate_window * px.second) now) p.hits
      → any
          (λ r. text_eq r.id fresh.session_id || has_token (px.sha256 fresh.token) r)
          p.auth.sessions
        ≡ false
      → (r : Response Text) × ((login px now s fresh ip email password (healthy p)).0 ≡ ok r)
  unfolding login
  login_answers s fresh ip email password address p u is_address right room old new =
      let limit =
        limited px now (ip_key ip) (codes "auth:login") px.auth_rate_limit auth_rate_window in
      let auth = in_users (authenticate_user px.ph address password) in
      let then_enter : Option User → Exec Platform (Response Text) =
        λ found. or_unauthorized px now found >>= enter px now s fresh in
      let (passed, calm) =
        limited_passes (ip_key ip) (codes "auth:login") px.auth_rate_limit auth_rate_window p room
          old in
      let same =
        (limited-Untouched p.auth px now (ip_key ip) (codes "auth:login") px.auth_rate_limit
            auth_rate_window).kept
          (healthy p) refl in
      let v = (limit (healthy p)).1 in
      let (known, ready) =
        authenticate_user-Ready p.auth address password v (some u) (calm, same) right in
      let (there, _, _, _) =
        authenticate_user_sound px.ph address password (healthy p.auth) u right in
      let (r, done) = enter_answers p.auth s fresh u (auth v).1 ready new (
        first-any (has_email (lower address)) (has_id u.id) p.auth.users u there
          (text_eq_refl u.id)) in
      (
        r,
        bind_returns (lift (body_email px email))
            (λ a. limit >> (in_users (authenticate_user px.ph a password) >>= then_enter))
            (healthy p) address r is_address
            (bind_returns limit (λ _. auth >>= then_enter) (healthy p) tt r passed
              (bind_returns auth then_enter v (some u) r known done)),
      )
