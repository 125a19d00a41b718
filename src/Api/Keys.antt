-- ===== src/Api/Keys.antt =====
-- backend/api/apikeys.py: what the routes of the API keys take, show and ask of a caller. The events
-- that they record stand in LogRing.
pub mod Chosen
pub mod Routes
pub mod Managed
pub mod Revoked
use pyronites.Base.{
  ℕ, ◌-◌, Bool, true, false, not, ◌&&◌, ◌||◌, Option, none, some, List, [], ◌∷◌, ◌++◌, map, Text,
  codes, text_eq, strip, member, all, leb, length, first, keep, drop, any, if◌then◌else◌,
}
use pyronites.Db.{
  Exc, Result, ok, err, value_error, permission_error, http_exception, Exec, pure, raise, lift,
  execute, catch, within, ◌>>=◌, ◌>>◌,
}
use pyronites.Auth.{User}
use pyronites.Auth.Sessions.{validate_session}
use pyronites.Auth.ApiKeys.{
  ApiKey, KeyRow, allowed_scopes, api_key_prefix, max_name_len, read_scope, admin_scope, legacy,
  scoped, is_empty, create_api_key, list_api_keys, revoke_api_key,
}
use pyronites.Projects.{
  Project, Registry, is_active, is_owner, by_oldest, get_project, ensure_owner, get_last_project,
}
use pyronites.Api.{MetaDb, in_auth}
use pyronites.Api.AuthDeps.{
  Request, AuthInfo, api_key, session, cookie, require_scopes, resolve_auth,
}
use pyronites.Api.ProjectDeps.{Plane, Context, in_meta, in_registry, allowed}

-- CreateKeyBody, after its validators
pub record CreateKeyBody : Type 0 where
  pub name : Text
  pub scopes : List Text
  pub project_id : Option Text

-- a key of a listing
pub record ShownKey : Type 0 where
  pub id : Text
  pub name : Text
  pub project_id : Text
  pub masked : Text
  pub scopes : List Text
  pub created_at : ℕ
  pub last_used_at : Option ℕ

-- the answer that shows a new key, once
pub record NewKey : Type 0 where
  pub key : Text
  pub id : Text
  pub name : Text
  pub project_id : Text
  pub scopes : List Text
  pub created_at : ℕ

-- `•`
abbrev pub bullet : ℕ
bullet = 8226

abbrev pub last_four : Text → Text
last_four s = drop (length s - 4) s

-- _mask
unfoldable pub mask : Text → Text
mask key_hash =
    api_key_prefix
    ++ (bullet ∷ bullet ∷ bullet ∷ bullet ∷ bullet ∷ bullet ∷ bullet ∷ bullet ∷ bullet ∷ bullet
        ∷ [])
    ++ last_four key_hash

unfoldable pub show_key : ApiKey → ShownKey
unfolding mask
show_key k = record {
  id = k.id;
  name = k.name;
  project_id = k.project_id;
  masked = mask k.key_hash;
  scopes = k.scopes;
  created_at = k.created_at;
  last_used_at = k.last_used_at;
}

abbrev pub shown_new : Text × ApiKey → NewKey
shown_new (raw, k) = record {
  key = raw;
  id = k.id;
  name = k.name;
  project_id = k.project_id;
  scopes = k.scopes;
  created_at = k.created_at;
}

abbrev pub unprocessable : {A : Type 0} → Result A
unprocessable = err (http_exception 422)

-- the validator of `project_id`
abbrev pub body_project : Option Text → Result (Option Text)
body_project none = ok none
body_project (some v) = if is_empty (strip v) then unprocessable else ok (some (strip v))

-- the validators of CreateKeyBody
unfoldable pub create_key_body : Text → List Text → Option Text → Result CreateKeyBody
unfolding all
create_key_body name scopes project_id =
    if not (is_empty (strip name))
      && leb (length (strip name)) max_name_len
      && not (is_empty scopes)
      && all (λ s. member s allowed_scopes) scopes
    then elim (body_project project_id) [
      | err e ↦ err e
      | ok ref ↦ ok (record { name = strip name; scopes = scopes; project_id = ref })
    ]
    else unprocessable

module _ {A : Type 0} where
  abbrev pub on_keys : Exec (List KeyRow) A → Exec Registry A
  on_keys = within (λ s. s.keys) (λ t s. record s { keys = t })

  -- `except ValueError`
  abbrev pub on_value_error : Exc → Exec Registry A
  on_value_error value_error = raise (http_exception 400)
  on_value_error e = raise e

-- `except PermissionError`
abbrev pub owner_error : Exc → Exc
owner_error permission_error = http_exception 403
owner_error e = e

-- the caller that may touch the project
unfoldable pub enforce_caller : Option AuthInfo → Project → Exec Registry (Unit {0})
unfolding ensure_owner member
enforce_caller none p = pure tt
enforce_caller (some (session user_id)) p =
    catch (ensure_owner p user_id) (λ e. raise (owner_error e))
enforce_caller (some (api_key scopes [] key_id plane)) p = pure tt
enforce_caller (some (api_key scopes (c ∷ s) key_id plane)) p =
    if member (c ∷ s) (allowed p) then pure tt else raise (http_exception 403)

abbrev pub or_404 : {A : Type 0} → Option A → Result A
or_404 none = err (http_exception 404)
or_404 (some a) = ok a

-- _resolve_project_or_403
unfoldable pub resolve_project_or_403 : Option AuthInfo → Text → Exec Registry Project
unfolding get_project enforce_caller
resolve_project_or_403 auth ref = do
  found ← get_project ref
  project ← lift (or_404 found)
  enforce_caller auth project
  pure project
