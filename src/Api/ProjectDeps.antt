-- ===== src/Api/ProjectDeps.antt =====
-- backend/api/project_deps.py: the project of a request, and the file that holds its data.
pub mod Confined
use pyronites.Base.{
  ℕ, Bool, true, false, not, ◌&&◌, Option, none, some, List, [], ◌∷◌, ◌++◌, Text, text_eq, lower,
  codes, any, member, if◌then◌else◌,
}
use pyronites.Db.{
  Exc, Result, ok, err, http_exception, Conn, Exec, pure, raise, mark, execute, catch, lift, ◌>>=◌,
  ◌>>◌,
}
use pyronites.Auth.{AuthDb}
use pyronites.Auth.ApiKeys.{read_scope}
use pyronites.Projects.{Project, Registry, is_archived, get_project}
use pyronites.Projects.Slugs.{project_file_path}
use pyronites.Api.{MetaDb}
use pyronites.Api.AuthDeps.{Request, AuthInfo, api_key, session, require_scopes, resolve_auth}

-- the path of a database: meta_db_path(), or a file of the directory of projects
pub data DataPath : Type 0 where
  meta : DataPath
  file : Text → DataPath

abbrev pub same_path : DataPath → DataPath → Bool
same_path meta meta = true
same_path meta (file f) = false
same_path (file f) meta = false
same_path (file f) (file g) = text_eq f g

-- the meta database, whose table api_keys is the registry's, and _MIGRATED_PATHS
pub record Plane : Type 0 where
  pub auth : AuthDb
  pub registry : Registry
  pub migrated : List DataPath

abbrev pub meta_of : Plane → MetaDb
meta_of s = record { auth = s.auth; keys = s.registry.keys }

module _ {A : Type 0} where
  abbrev pub in_meta : Exec MetaDb A → Exec Plane A
  in_meta act w =
      let (r, v) = act (record { tables = meta_of w.tables; faults = w.faults }) in
      (
        r,
        record {
          tables = record w.tables {
            auth = v.tables.auth;
            registry = record w.tables.registry { keys = v.tables.keys };
          };
          faults = v.faults;
        },
      )

  abbrev pub in_registry : Exec Registry A → Exec Plane A
  in_registry act w =
      let (r, v) = act (record { tables = w.tables.registry; faults = w.faults }) in
      (r, record { tables = record w.tables { registry = v.tables }; faults = v.faults })

-- resolve_project_or_404, on what get_project returned
abbrev pub unarchived : Option Project → Exec Registry Project
unarchived none = raise (http_exception 404)
unarchived (some p) = if is_archived p then raise (http_exception 409) else pure p

-- resolve_project_or_404
unfoldable pub resolve_project_or_404 : Text → Exec Registry Project
unfolding get_project
resolve_project_or_404 x = do project ← get_project x; unarchived project

-- the names a key may give the project by
abbrev pub allowed : Project → List Text
allowed p = p.id ∷ p.project_id ∷ p.slug ∷ []

-- enforce_api_key_project
unfoldable pub enforce_api_key_project : Option AuthInfo → Project → Exec Registry (Unit {0})
enforce_api_key_project none p = pure tt
enforce_api_key_project (some (session user_id)) p = pure tt
enforce_api_key_project (some (api_key scopes [] key_id plane)) p = pure tt
enforce_api_key_project (some (api_key scopes (c ∷ s) key_id plane)) p =
    if member (c ∷ s) (allowed p) then pure tt else raise (http_exception 403)

-- `slug or project_id`
abbrev pub slug_of : Project → Text
slug_of p = elim p.slug [ [] ↦ p.project_id | c ∷ s ↦ c ∷ s ]

-- _is_legacy_default, on the files that exist
unfoldable pub is_legacy_default : List Text → Project → Result Bool
unfolding project_file_path
is_legacy_default files p =
    if text_eq (lower (slug_of p)) (codes "default")
    then elim (project_file_path p.id) [ ok f ↦ ok (not (member f files)) | err e ↦ err e ]
    else ok false

-- the file of a project that has its own
abbrev pub own_path : Project → Result DataPath
own_path p = elim (project_file_path p.id) [ ok f ↦ ok (file f) | err e ↦ err e ]

-- the path that open_data_db_for_project opens
unfoldable pub data_path : List Text → Project → Result DataPath
unfolding is_legacy_default project_file_path
data_path files p = elim (is_legacy_default files p) [
  | ok true ↦ ok meta
  | ok false ↦ own_path p
  | err e ↦ err e
]

-- the connection creates the file where it is not there
unfoldable pub touch : DataPath → Registry → Result (Unit {0}) × Registry
unfolding member
touch meta s = (ok tt, s)
touch (file f) s = (ok tt, if member f s.files then s else record s { files = s.files ++ f ∷ [] })

abbrev pub add_migrated : DataPath → Exec Plane (Unit {0})
add_migrated path w =
    (ok tt, record w { tables = record w.tables { migrated = path ∷ w.tables.migrated } })

-- what get_project_context yields: the project, the path of its database, the caller
pub record Context : Type 0 where
  pub project : Project
  pub db : DataPath
  pub auth : AuthInfo

-- `migrate` is the run of the migrations on the database of a path
module _ (migrate : DataPath → Result (Unit {0})) where
  -- `if not already`
  unfoldable pub migrate_once : DataPath → Exec Plane (Unit {0})
  unfolding any
  migrate_once path w =
      if any (same_path path) w.tables.migrated
      then (ok tt, w)
      else (do lift (migrate path); add_migrated path) w

  -- open_data_db_for_project: the path of the opened database
  unfoldable pub open_data_db_for_project : Project → Exec Plane DataPath
  unfolding data_path touch migrate_once
  open_data_db_for_project p w =
      (do
        path ← lift (data_path w.tables.registry.files p)
        in_registry (execute (touch path))
        migrate_once path
        pure path)
        w

  module _ (sha256 : Text → Text) (now : ℕ) where
    -- get_project_context
    unfoldable pub get_project_context : Text → Request → Exec Plane Context
    unfolding resolve_auth require_scopes resolve_project_or_404 enforce_api_key_project
        open_data_db_for_project
    get_project_context project_id request = do
      auth ← in_meta (resolve_auth sha256 now request)
      caller ← in_meta (require_scopes auth (read_scope ∷ []))
      project ← in_registry (resolve_project_or_404 project_id)
      in_registry (enforce_api_key_project auth project)
      db ← open_data_db_for_project project
      pure (record { project = project; db = db; auth = caller })
