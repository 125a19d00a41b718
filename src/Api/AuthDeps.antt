-- ===== src/Api/AuthDeps.antt =====
-- backend/api/auth_deps.py: who a request is from, and what it may do.
pub mod Credentials
use pyronites.Base.{
  ℕ, Bool, true, false, not, ◌&&◌, ◌||◌, Option, none, some, List, [], ◌∷◌, Text, codes, text_eq,
  starts_with, drop, member, all, if◌then◌else◌,
}
use pyronites.Db.{Exec, http_exception, pure, raise, ◌>>=◌}
use pyronites.Auth.{User}
use pyronites.Auth.ApiKeys.{
  ApiKey, KeyRow, read_scope, write_scope, admin_scope, scoped, validate_api_key,
}
use pyronites.Auth.Sessions.{validate_session}
use pyronites.Api.{MetaDb, in_auth, in_keys}

-- the Authorization header and the session_token cookie
pub record Request : Type 0 where
  pub authorization : Option Text
  pub session_token : Option Text

-- the dict that `resolve_auth` returns
pub data AuthInfo : Type 0 where
  -- scopes, project_id, key_id, plane
  api_key : List Text → Text → Text → Text → AuthInfo
  -- user_id; its scopes are all three
  session : Text → AuthInfo

abbrev pub granted : AuthInfo → List Text
granted (api_key scopes project_id key_id plane) = scopes
granted (session user_id) = read_scope ∷ write_scope ∷ admin_scope ∷ []

abbrev pub bearer : Text
bearer = codes "Bearer "

-- the raw key of the header: what follows `Bearer `
unfoldable pub bearer_key : Option Text → Option Text
bearer_key none = none
bearer_key (some header) = if starts_with bearer header then some (drop 7 header) else none

-- the cookie, which an empty text counts as missing
unfoldable pub cookie : Option Text → Option Text
cookie none = none
cookie (some []) = none
cookie (some (c ∷ s)) = some (c ∷ s)

abbrev pub key_auth : ApiKey → AuthInfo
key_auth k = api_key k.scopes k.project_id k.id k.plane

module _ {S : Type 0} where
  -- require_scopes
  unfoldable pub require_scopes : Option AuthInfo → List Text → Exec S AuthInfo
  require_scopes none required = raise (http_exception 401)
  require_scopes (some a) required =
      if all (λ s. member s (granted a)) required then pure a else raise (http_exception 403)

-- require_sql_scopes
unfoldable pub require_sql_scopes : Option AuthInfo → Exec MetaDb AuthInfo
require_sql_scopes none = raise (http_exception 401)
require_sql_scopes (some a) =
    if member write_scope (granted a) || member admin_scope (granted a)
    then pure a
    else raise (http_exception 403)

-- enforce_legacy_plane_key
unfoldable pub enforce_legacy_plane_key : Option AuthInfo → Exec MetaDb (Unit {0})
enforce_legacy_plane_key none = pure tt
enforce_legacy_plane_key (some (session user_id)) = pure tt
enforce_legacy_plane_key (some (api_key scopes project_id key_id plane)) =
    if text_eq plane scoped then raise (http_exception 403) else pure tt

module _ (sha256 : Text → Text) (now : ℕ) where
  abbrev pub session_auth : Option User → Option AuthInfo
  session_auth none = none
  session_auth (some u) = some (session u.id)

  unfoldable pub by_cookie : Option Text → Exec MetaDb (Option AuthInfo)
  unfolding validate_session
  by_cookie none = pure none
  by_cookie (some token) = do
    user ← in_auth (validate_session sha256 now token)
    pure (session_auth user)

  abbrev pub or_cookie : Option Text → Option ApiKey → Exec MetaDb (Option AuthInfo)
  or_cookie token (some k) = pure (some (key_auth k))
  or_cookie token none = by_cookie token

  unfoldable pub by_key : Option Text → Option Text → Exec MetaDb (Option AuthInfo)
  unfolding validate_api_key by_cookie
  by_key none token = by_cookie token
  by_key (some raw) token = do key ← in_keys (validate_api_key sha256 now raw); or_cookie token key

  -- resolve_auth
  unfoldable pub resolve_auth : Request → Exec MetaDb (Option AuthInfo)
  unfolding by_key bearer_key cookie
  resolve_auth r = by_key (bearer_key r.authorization) (cookie r.session_token)
