-- ===== src/Tests/Scoped.antt =====
-- The projects' databases.
use pyronites.Base.{
  first, lower, starts_with, text_eq, split, all, ◌≡◌, refl, true, none, some, [], ◌∷◌, codes,
  member, strip,
}
use pyronites.Db.{execute, Result, ok, healthy}
use pyronites.Auth.ApiKeys.{scopes_of, read_scope, write_scope, legacy}
use pyronites.Projects.{active, Project}
use pyronites.Api.AuthDeps.{Request, AuthInfo, api_key, granted, resolve_auth}
use pyronites.Api.ProjectDeps.{
  DataPath, file, Plane, meta_of, Context, open_data_db_for_project, get_project_context,
}
use pyronites.Api.ProjectDeps.Confined.{
  MayEnter, IsFound, get_project_context_sound, open_data_db_separate,
}
use pyronites.Tests.Accounts.{digest, logged_in}
use pyronites.Tests.Keys.{key_rows}
use pyronites.Tests.Registry.{project}

abbrev home : Project
home = project (codes "a1") (codes "p1") active

abbrev plane : Plane
plane = record {
  auth = logged_in;
  registry = record { projects = home ∷ []; keys = key_rows; last = []; files = [] };
  migrated = [];
}

abbrev migrate : DataPath → Result (Unit {0})
migrate path = ok tt

abbrev request : Request
request = record { authorization = some (codes "Bearer k1"); session_token = none }

abbrev pub caller : AuthInfo
caller = api_key (read_scope ∷ write_scope ∷ []) (codes "p1") (codes "k1") legacy

abbrev pub context : Context
context = record { project = home; db = file (codes "a1.db"); auth = caller }

get_project_context_sound_example :
    ((resolve_auth digest 5 request (healthy (meta_of plane))).0 ≡ ok (some caller))
    × (member read_scope (granted caller) ≡ true)
    × MayEnter caller home
    × IsFound (codes "p1") (home ∷ []) home
unfolding get_project_context starts_with execute first text_eq all scopes_of split lower strip
get_project_context_sound_example =
    get_project_context_sound migrate digest 5 (codes "p1") request (healthy plane) context refl

open_data_db_separate_example : strip (codes "a1") ≡ strip (codes " a1")
unfolding text_eq lower open_data_db_for_project all strip execute
open_data_db_separate_example =
    open_data_db_separate migrate home (project (codes " a1") (codes "p2") active) (healthy plane)
      (healthy plane) (file (codes "a1.db")) refl refl refl
