-- ===== src/Tests/Keys.antt =====
-- API keys.
use pyronites.Base.{
  ℕ, ◌≡◌, refl, false, none, some, List, [], ◌∷◌, Text, codes, text_eq, strip, all, any, member,
}
use pyronites.Db.{ok, healthy, execute}
use pyronites.Auth.ApiKeys.{
  stored_plane, KeyRow, ApiKey, create_api_key, validate_api_key, read_scope, admin_scope, legacy,
  new_key, insert_key, accepts,
}
use pyronites.Auth.ApiKeys.Roundtrip.{validate_api_key-create}

abbrev digest : Text → Text
digest s = b'#' ∷ s

abbrev pub key_row : Text → ℕ → KeyRow
key_row id created_at = record {
  id = id;
  project_id = codes "p1";
  name = codes "ci";
  scopes = codes "read,write";
  key_hash = digest id;
  created_at = created_at;
  last_used_at = none;
  is_revoked = false;
  plane = codes "legacy";
}

abbrev pub key_rows : List KeyRow
key_rows = key_row (codes "k1") 3 ∷ key_row (codes "k2") 8 ∷ []

abbrev made_key : ApiKey
made_key =
    new_key digest (codes "k3") (codes "pyro_live_abc") 9 (codes "p1") (codes "bot")
      (admin_scope ∷ read_scope ∷ []) legacy

-- a name with blanks around it, and a plane that is unknown
validate_api_key-create_example :
    (validate_api_key digest 12
      (codes "pyro_live_abc")
      (create_api_key digest
        (codes "k3")
        (codes "abc")
        9
        (codes "p1")
        (codes " bot ")
        (admin_scope ∷ read_scope ∷ [])
        (codes "blue")
        (healthy key_rows)).1).0
    ≡ ok (some made_key)
unfolding create_api_key execute accepts strip all member text_eq insert_key any stored_plane
validate_api_key-create_example =
    validate_api_key-create digest (codes "k3") (codes "abc") 9 (codes "p1") (codes " bot ")
      (admin_scope ∷ read_scope ∷ []) (codes "blue") key_rows 12 (codes "pyro_live_abc") made_key
      refl
