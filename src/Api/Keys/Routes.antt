-- ===== src/Api/Keys/Routes.antt =====
-- backend/api/apikeys.py, and the routes of the keys in backend/api/project_scoped.py.
use pyronites.Base.{
  ℕ, Bool, Option, some, List, [], ◌∷◌, map, Text, text_eq, first, any, if◌then◌else◌,
}
use pyronites.Db.{
  Result, ok, err, http_exception, Exec, pure, raise, lift, execute, catch, ◌>>=◌, ◌>>◌,
}
use pyronites.Auth.ApiKeys.{
  ApiKey, KeyRow, read_scope, admin_scope, legacy, scoped, is_empty, create_api_key, list_api_keys,
  revoke_api_key,
}
use pyronites.Projects.{Project, Registry}
use pyronites.Api.AuthDeps.{Request, AuthInfo, require_scopes, resolve_auth}
use pyronites.Api.ProjectDeps.{Plane, Context, in_meta, in_registry, allowed}
use pyronites.Api.Keys.{
  CreateKeyBody, ShownKey, NewKey, show_key, shown_new, on_keys, on_value_error, or_404,
  resolve_project_or_403,
}
use pyronites.Api.Keys.Chosen.{effective_project_ref, check_ref}

abbrev pub is_key : Text → KeyRow → Bool
is_key id r = text_eq r.id id

-- revoke_key, from the scopes of the caller on
unfoldable pub revoke_for : Option AuthInfo → Text → Exec Registry (Unit {0})
unfolding require_scopes resolve_project_or_403 revoke_api_key execute first
revoke_for auth id = do
  require_scopes auth (admin_scope ∷ [])
  found ← execute (λ s. (ok (first (is_key id) s.keys), s))
  row ← lift (or_404 found)
  resolve_project_or_403 auth row.project_id
  catch (on_keys (revoke_api_key id)) (λ _. raise (http_exception 500))

module _ (sha256 : Text → Text) (now : ℕ) where
  -- list_keys
  unfoldable pub list_keys : Request → Option Text → Exec Plane (List ShownKey)
  unfolding resolve_auth require_scopes effective_project_ref resolve_project_or_403 list_api_keys
      show_key
  list_keys request project_id = do
    auth ← in_meta (resolve_auth sha256 now request)
    in_registry (require_scopes auth (read_scope ∷ []))
    ref ← effective_project_ref sha256 now project_id request auth
    lift (check_ref ref)
    project ← in_registry (resolve_project_or_403 auth ref)
    keys ← in_registry (on_keys (list_api_keys (some (allowed project))))
    pure (map show_key keys)

  -- create_key, for the project that `ref` names; `id` and `token` are new
  unfoldable pub create_for :
      Text → Text → Option AuthInfo → CreateKeyBody → Text → Exec Registry NewKey
  unfolding resolve_project_or_403 create_api_key
  create_for id token auth body ref = do
    project ← resolve_project_or_403 auth ref
    made ←
        catch (on_keys (create_api_key sha256 id token now project.id body.name body.scopes legacy))
          on_value_error
    pure (shown_new made)

  -- create_key
  unfoldable pub create_key : Text → Text → Request → CreateKeyBody → Exec Plane NewKey
  unfolding resolve_auth require_scopes effective_project_ref create_for
  create_key id token request body = do
    auth ← in_meta (resolve_auth sha256 now request)
    in_registry (require_scopes auth (admin_scope ∷ []))
    ref ← effective_project_ref sha256 now body.project_id request auth
    lift (check_ref ref)
    in_registry (create_for id token auth body ref)

  -- revoke_key
  unfoldable pub revoke_key : Request → Text → Exec Plane (Unit {0})
  unfolding resolve_auth revoke_for
  revoke_key request id = do
    auth ← in_meta (resolve_auth sha256 now request)
    in_registry (revoke_for auth id)

-- ── the project-scoped plane ──

-- _slug
abbrev pub slug_or_id : Project → Text
slug_or_id p =
    if is_empty p.slug then (if is_empty p.project_id then p.id else p.project_id) else p.slug

abbrev pub project_ids : Context → List Text
project_ids c = slug_or_id c.project ∷ c.project.id ∷ []

-- list_keys of the scoped plane
unfoldable pub list_project_keys : Context → Exec Registry (List ShownKey)
unfolding require_scopes list_api_keys show_key
list_project_keys c = do
  require_scopes (some c.auth) (read_scope ∷ [])
  keys ← on_keys (list_api_keys (some (project_ids c)))
  pure (map show_key keys)

-- create_key of the scoped plane
unfoldable pub create_project_key :
    (Text → Text) → ℕ → Text → Text → Context → CreateKeyBody → Exec Registry NewKey
unfolding require_scopes create_api_key
create_project_key sha256 now id token c body = do
  require_scopes (some c.auth) (admin_scope ∷ [])
  made ←
      catch (on_keys (create_api_key sha256 id token now c.project.id body.name body.scopes scoped))
        on_value_error
  pure (shown_new made)

-- `if not matching`
abbrev pub check_matching : Text → List ApiKey → Result (Unit {0})
check_matching id keys = if any (λ k. text_eq k.id id) keys then ok tt else err (http_exception 404)

-- revoke_key of the scoped plane
unfoldable pub revoke_project_key : Context → Text → Exec Registry (Unit {0})
unfolding require_scopes list_api_keys revoke_api_key any
revoke_project_key c id = do
  require_scopes (some c.auth) (admin_scope ∷ [])
  keys ← on_keys (list_api_keys (some (project_ids c)))
  lift (check_matching id keys)
  catch (on_keys (revoke_api_key id)) (λ _. raise (http_exception 500))
