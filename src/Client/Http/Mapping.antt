-- ===== src/Client/Http/Mapping.antt =====
-- `_handle_response`: which exception a response becomes.
use pyronites.Base.{◌≡◌, ◌⊎◌, ◌↔◌, some, false, arith}
use pyronites.Client.Http.{Kind, Platform, Response, ApiError, raised, handle_response, is_success}

module _ (px : Platform) (r : Response) where
  -- A response that raises has a status that is not 2xx. The exception carries the status; it is
  -- an AuthError exactly for 401 and 403, and a NotFoundError exactly for 404.
  raised_kinds :
      (e : ApiError)
      → handle_response px r ≡ raised e
      → (is_success r.status_code ≡ false)
        × (e.status_code ≡ some r.status_code)
        × ((e.kind ≡ Kind.auth) ↔ ((r.status_code ≡ 401) ⊎ (r.status_code ≡ 403)))
        × ((e.kind ≡ Kind.not_found) ↔ (r.status_code ≡ 404))
  unfolding handle_response
  raised_kinds e h = ground arith
