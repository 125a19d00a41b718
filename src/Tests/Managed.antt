-- ===== src/Tests/Managed.antt =====
-- The routes of the API keys.
use pyronites.Base.{text_eq, all, refl, ◌≡◌, none, some, [], ◌∷◌, codes}
use pyronites.Db.{ok, healthy}
use pyronites.Projects.{active}
use pyronites.Api.AuthDeps.{Request, AuthInfo, resolve_auth}
use pyronites.Api.ProjectDeps.{Plane, in_meta}
use pyronites.Api.Keys.Routes.{revoke_key}
use pyronites.Api.Keys.Revoked.{IsManaged, revoke_key-IsManaged}
use pyronites.Tests.Accounts.{ann, digest, logged_in}
use pyronites.Tests.Keys.{key_rows}
use pyronites.Tests.Registry.{project}

abbrev owned : Plane
owned = record {
  auth = logged_in;
  registry = record {
    projects = project (codes "a1") (codes "p1") active ∷ [];
    keys = key_rows;
    last = [];
    files = [];
  };
  migrated = [];
}

abbrev by_owner : Request
by_owner = record { authorization = none; session_token = some ann.id }

revoke_key-IsManaged_example :
    (a : AuthInfo) × ((in_meta (resolve_auth digest 50 by_owner) (healthy owned)).0 ≡ ok (some a))
    × IsManaged
        (some a)
        (codes "k1")
        (in_meta (resolve_auth digest 50 by_owner) (healthy owned)).1.tables.registry
        tt
        (revoke_key digest 50 by_owner (codes "k1") (healthy owned)).1.tables.registry
unfolding revoke_key text_eq all
revoke_key-IsManaged_example =
    revoke_key-IsManaged digest 50 by_owner (codes "k1") (healthy owned) refl
