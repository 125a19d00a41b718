-- ===== src/Api/Accounts/Entry.antt =====
-- backend/api/auth.py: signup, login, logout, me.
use pyronites.Base.{ℕ, Option, none, some, Text, codes, text_eq, first, if◌then◌else◌}
use pyronites.Db.{
  Exc, ok, user_exists, value_error, http_exception, is_database_error, Exec, pure, raise, lift,
  execute, catch, ◌>>=◌, ◌>>◌,
}
use pyronites.Auth.{User}
use pyronites.Auth.Users.{create_user, authenticate_user}
use pyronites.Auth.Sessions.{Session, create_session, revoke_session, validate_session}
use pyronites.Projects.{Project, set_last_project, last_of}
use pyronites.Projects.Operations.{ensure_default_project}
use pyronites.Api.AuthDeps.{cookie}
use pyronites.Api.Accounts.{
  Platform, Setting, in_users, in_registry, limited, body_email, ip_key, auth_rate_window,
}
use pyronites.Api.Accounts.Cookie.{Surroundings, CookieChange, kept, deleted, set_session_cookie}

-- the random values of a request
pub record Fresh : Type 0 where
  pub user_id : Text
  pub project_id : Text
  pub session_id : Text
  pub token : Text

-- the body of an answer and its Set-Cookie
pub record Response (A : Type 0) : Type 0 where
  pub body : A
  pub cookie : CookieChange

pub record SignedUp : Type 0 where
  pub id : Text
  pub email : Text
  pub created_at : ℕ
  pub default_project : Option Project

pub record Me : Type 0 where
  pub email : Text
  pub id : Text
  pub last_project_id : Option Text

-- `except UserAlreadyExistsError`, `except ValueError`
abbrev pub on_create_error : Exc → Exec Platform User
on_create_error user_exists = raise (http_exception 409)
on_create_error value_error = raise (http_exception 400)
on_create_error e = raise e

-- DEFAULT_SESSION_EXPIRY_DAYS
abbrev pub session_expiry_days : ℕ
session_expiry_days = 7

module _ (px : Setting) (now : ℕ) where
  -- a failure is logged
  unfoldable pub default_project : Text → Text → Exec Platform (Option Project)
  unfolding ensure_default_project set_last_project
  default_project project_id user_id =
      catch
        (in_registry (do
          p ← ensure_default_project px.prepare px.str project_id now user_id
          set_last_project user_id p.id
          pure (some p)))
        (λ _. pure none)

  unfoldable pub open_session : Fresh → Text → Exec Platform Session
  unfolding create_session
  open_session fresh user_id =
      in_users (
        create_session px.sha256 px.day fresh.session_id fresh.token now user_id
          session_expiry_days)

  -- signup
  unfoldable pub signup :
      Surroundings → Fresh → Text → Text → Text → Exec Platform (Response SignedUp)
  unfolding limited body_email create_user default_project open_session set_session_cookie
  signup s fresh ip email password = do
    address ← lift (body_email px email)
    limited px now (ip_key ip) (codes "auth:signup") px.auth_rate_limit auth_rate_window
    user ← catch (in_users (create_user px.ph fresh.user_id now address password)) on_create_error
    project ← default_project fresh.project_id user.id
    session ← open_session fresh user.id
    pure (record {
      body = record {
        id = user.id;
        email = user.email;
        created_at = user.created_at;
        default_project = project;
      };
      cookie = set_session_cookie px s session.token;
    })

  abbrev pub or_unauthorized : Option User → Exec Platform User
  or_unauthorized none = raise (http_exception 401)
  or_unauthorized (some u) = pure u

  -- what login does for the account; the body of its answer is the address
  unfoldable pub enter : Surroundings → Fresh → User → Exec Platform (Response Text)
  unfolding default_project open_session set_session_cookie
  enter s fresh user = do
    default_project fresh.project_id user.id
    session ← open_session fresh user.id
    pure (record { body = user.email; cookie = set_session_cookie px s session.token })

  -- login
  unfoldable pub login : Surroundings → Fresh → Text → Text → Text → Exec Platform (Response Text)
  unfolding limited body_email authenticate_user enter
  login s fresh ip email password = do
    address ← lift (body_email px email)
    limited px now (ip_key ip) (codes "auth:login") px.auth_rate_limit auth_rate_window
    found ← in_users (authenticate_user px.ph address password)
    user ← or_unauthorized found
    enter s fresh user

  -- `except DatabaseError`
  abbrev pub on_revoke_error : Exc → Exec Platform (Unit {0})
  on_revoke_error e = if is_database_error e then pure tt else raise e

  unfoldable pub revoke_given : Option Text → Exec Platform (Unit {0})
  unfolding revoke_session
  revoke_given none = pure tt
  revoke_given (some token) = catch (in_users (revoke_session px.sha256 token)) on_revoke_error

  -- logout, with the request's cookie
  unfoldable pub logout : Option Text → Exec Platform (Response (Unit {0}))
  unfolding revoke_given cookie
  logout token = do revoke_given (cookie token); pure (record { body = tt; cookie = deleted })

  unfoldable pub user_of : Option Text → Exec Platform (Option User)
  unfolding validate_session
  user_of none = pure none
  user_of (some token) = in_users (validate_session px.sha256 now token)

  -- SELECT last_project_id FROM users WHERE id = ?
  unfoldable pub last_project_id : Text → Exec Platform (Option Text)
  last_project_id id =
      catch
        (in_registry (execute (λ r. (ok (last_of (first (λ l. text_eq l.user_id id) r.last)), r))))
        (λ _. pure none)

  -- me
  unfoldable pub me : Option Text → Exec Platform (Response Me)
  unfolding user_of last_project_id cookie
  me token = do
    found ← user_of (cookie token)
    user ← or_unauthorized found
    last ← last_project_id user.id
    pure (record {
      body = record { email = user.email; id = user.id; last_project_id = last };
      cookie = kept;
    })
