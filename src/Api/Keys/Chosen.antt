-- ===== src/Api/Keys/Chosen.antt =====
-- backend/api/apikeys.py and project_deps.py: the project of a request that names none.
use pyronites.Base.{
  ℕ, Bool, true, false, ◌&&◌, Option, none, some, [], ◌∷◌, Text, codes, keep, if◌then◌else◌,
}
use pyronites.Db.{Result, ok, err, http_exception, Exec, pure, execute, catch, ◌>>=◌}
use pyronites.Auth.{User}
use pyronites.Auth.Sessions.{validate_session}
use pyronites.Auth.ApiKeys.{is_empty}
use pyronites.Projects.{
  Project, Registry, is_active, is_owner, by_oldest, get_project, get_last_project,
}
use pyronites.Api.{MetaDb, in_auth}
use pyronites.Api.AuthDeps.{Request, AuthInfo, session, cookie}
use pyronites.Api.ProjectDeps.{Plane, in_meta, in_registry}

-- the project_id of the oldest active project that passes
unfoldable pub oldest : (Project → Bool) → Exec Registry Text
unfolding execute keep by_oldest
oldest p =
    catch
      (execute (λ s. (
        ok (elim (by_oldest (keep (λ x. p x && is_active x) s.projects)) [
          | [] ↦ codes "default"
          | x ∷ xs ↦ if is_empty x.project_id then codes "default" else x.project_id
        ]),
        s,
      )))
      (λ e. pure (codes "default"))

-- `if not ref`
abbrev pub check_ref : Text → Result (Unit {0})
check_ref [] = err (http_exception 400)
check_ref (c ∷ s) = ok tt

module _ (sha256 : Text → Text) (now : ℕ) where
  abbrev pub slug_for : Option User → Exec Registry Text
  slug_for none = oldest (λ p. true)
  slug_for (some u) = do
    last ← get_last_project u.id
    elim last [
      | none ↦ oldest (is_owner u.id)
      | some [] ↦ oldest (is_owner u.id)
      | some (c ∷ s) ↦ pure (c ∷ s)
    ]

  abbrev pub user_by : Option Text → Exec MetaDb (Option User)
  user_by none = pure none
  user_by (some token) = catch (in_auth (validate_session sha256 now token)) (λ _. pure none)

  -- current_project_slug, on a route without a project
  unfoldable pub current_project_slug : Request → Exec Plane Text
  unfolding cookie validate_session get_last_project oldest
  current_project_slug request = do
    user ← in_meta (user_by (cookie request.session_token))
    in_registry (slug_for user)

  abbrev pub is_there : Option Project → Bool
  is_there none = false
  is_there (some p) = true

  -- `if last and get_project(meta, last)`
  abbrev pub last_or : Request → Option Text → Exec Plane Text
  last_or request none = current_project_slug request
  last_or request (some []) = current_project_slug request
  last_or request (some (c ∷ s)) = do
    found ← in_registry (get_project (c ∷ s))
    if is_there found then pure (c ∷ s) else current_project_slug request

  abbrev pub ref_of_caller : Request → Option AuthInfo → Exec Plane Text
  ref_of_caller request (some (session user_id)) = do
    last ← in_registry (get_last_project user_id)
    last_or request last
  ref_of_caller request _ = current_project_slug request

  -- _effective_project_ref
  unfoldable pub effective_project_ref : Option Text → Request → Option AuthInfo → Exec Plane Text
  unfolding current_project_slug get_last_project get_project
  effective_project_ref none request auth = ref_of_caller request auth
  effective_project_ref (some []) request auth = ref_of_caller request auth
  effective_project_ref (some (c ∷ s)) request auth = pure (c ∷ s)
