-- ===== src/Api/Accounts/Deletion.antt =====
-- backend/api/auth.py: delete_account.
use pyronites.Base.{
  ℕ, Bool, true, false, ◌||◌, Option, none, some, List, [], ◌∷◌, Text, text_eq, lower, strip, any,
  keep, if◌then◌else◌,
}
use pyronites.Db.{http_exception, Exec, pure, raise, catch, ◌>>=◌, ◌>>◌}
use pyronites.Auth.{User}
use pyronites.Auth.Users.{authenticate_user, delete_user}
use pyronites.Auth.Sessions.{revoke_all_sessions_for_user}
use pyronites.Auth.ApiKeys.{ApiKey, list_api_keys, revoke_api_key}
use pyronites.Projects.{Project, list_projects_for_owner}
use pyronites.Projects.Operations.{hard_delete_project}
use pyronites.Api.AuthDeps.{cookie}
use pyronites.Api.Accounts.{Platform, Setting, in_users, in_registry, in_keys}
use pyronites.Api.Accounts.Cookie.{or_blank, deleted}
use pyronites.Api.Accounts.Entry.{Response, or_unauthorized, user_of}

-- DeleteAccountBody
pub record DeleteAccountBody : Type 0 where
  pub password : Option Text
  pub confirm_email : Option Text

abbrev pub is_confirmed : DeleteAccountBody → User → Bool
is_confirmed b u = text_eq (lower (strip (or_blank b.confirm_email))) (lower u.email)

-- the key is of one of the projects, by id or by project_id
abbrev pub is_key_of : List Project → ApiKey → Bool
is_key_of ps k =
    any (λ p. text_eq k.project_id p.id) ps || any (λ p. text_eq k.project_id p.project_id) ps

abbrev pub or_bad_request : Option User → Exec Platform (Unit {0})
or_bad_request none = raise (http_exception 400)
or_bad_request (some u) = pure tt

module _ (px : Setting) (now : ℕ) where
  -- a project that is not deleted is logged
  unfoldable pub delete_projects : Text → List Project → Exec Platform (Unit {0})
  unfolding hard_delete_project
  delete_projects owner [] = pure tt
  delete_projects owner (p ∷ ps) = do
    catch (in_registry (hard_delete_project px.is_meta p.id p.name (some owner) true))
        (λ _. pure tt)
    delete_projects owner ps

  unfoldable pub revoke_keys : List ApiKey → Exec Platform (Unit {0})
  unfolding revoke_api_key
  revoke_keys [] = pure tt
  revoke_keys (k ∷ ks) = do catch (in_keys (revoke_api_key k.id)) (λ _. pure tt); revoke_keys ks

  -- the password, where one is given, or else the address
  unfoldable pub confirm : DeleteAccountBody → User → Option Text → Exec Platform (Unit {0})
  unfolding authenticate_user
  confirm b u none = if is_confirmed b u then pure tt else raise (http_exception 400)
  confirm b u (some password) = do
    found ← in_users (authenticate_user px.ph u.email password)
    or_bad_request found

  -- what follows the confirmation
  unfoldable pub delete_all : User → Exec Platform (Unit {0})
  unfolding list_projects_for_owner delete_projects list_api_keys revoke_keys
      revoke_all_sessions_for_user delete_user
  delete_all u = do
    projects ← in_registry (list_projects_for_owner u.id false)
    delete_projects u.id projects
    keys ← in_keys (list_api_keys none)
    revoke_keys (keep (is_key_of projects) keys)
    in_users (revoke_all_sessions_for_user px.sha256 u.id)
    in_users (delete_user u.id)
    pure tt

  unfoldable pub delete_confirmed : DeleteAccountBody → User → Exec Platform (Response (Unit {0}))
  unfolding confirm delete_all cookie
  delete_confirmed b u = do
    confirm b u (cookie b.password)
    delete_all u
    pure (record { body = tt; cookie = deleted })

  -- delete_account, with the request's cookie
  unfoldable pub delete_account :
      DeleteAccountBody → Option Text → Exec Platform (Response (Unit {0}))
  unfolding user_of cookie delete_confirmed
  delete_account b token = do
    found ← user_of px now (cookie token)
    user ← or_unauthorized px now found
    delete_confirmed b user
