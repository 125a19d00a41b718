-- ===== src/Auth/ApiKeys.antt =====
-- backend/auth/api_keys.py, and the table api_keys. `sha256` is hashlib's, in hexadecimal.
pub mod Roundtrip
pub mod Revoked
pub mod Listing
use pyronites.Base.{
  ℕ, ◌≤◌, Bool, true, false, not, ◌&&◌, ◌||◌, Option, none, some, List, [], ◌∷◌, ◌++◌, map, Text,
  codes, text_eq, strip, member, join, split, first, keep, update, any, all, leb, ltb, length,
  if◌then◌else◌,
}
use pyronites.Db.{
  Exc, Result, ok, err, value_error, integrity_error, Exec, pure, raise, execute, catch, ◌>>=◌,
  ◌>>◌,
}

-- a row; `scopes` are joined by commas, and `key_hash` is UNIQUE
pub record KeyRow : Type 0 where
  pub id : Text
  pub project_id : Text
  pub name : Text
  pub scopes : Text
  pub key_hash : Text
  pub created_at : ℕ
  pub last_used_at : Option ℕ
  pub is_revoked : Bool
  pub plane : Text

pub record ApiKey : Type 0 where
  pub id : Text
  pub name : Text
  pub project_id : Text
  pub scopes : List Text
  pub key_hash : Text
  pub created_at : ℕ
  pub last_used_at : Option ℕ
  pub is_revoked : Bool
  pub plane : Text

abbrev pub read_scope : Text
read_scope = codes "read"

abbrev pub write_scope : Text
write_scope = codes "write"

abbrev pub admin_scope : Text
admin_scope = codes "admin"

abbrev pub allowed_scopes : List Text
allowed_scopes = read_scope ∷ write_scope ∷ admin_scope ∷ []

abbrev pub api_key_prefix : Text
api_key_prefix = codes "pyro_live_"

abbrev pub max_name_len : ℕ
max_name_len = 128

abbrev pub max_project_id_len : ℕ
max_project_id_len = 64

abbrev pub comma : ℕ
comma = b','

abbrev pub legacy : Text
legacy = codes "legacy"

abbrev pub scoped : Text
scoped = codes "scoped"

abbrev pub is_empty : {A : Type 0} → List A → Bool
is_empty [] = true
is_empty (x ∷ xs) = false

-- `plane if plane in ("legacy", "scoped") else "legacy"`
unfoldable pub stored_plane : Text → Text
stored_plane plane = if text_eq plane legacy || text_eq plane scoped then plane else legacy

-- `plane or "legacy"`
abbrev pub shown_plane : Text → Text
shown_plane plane = if is_empty plane then legacy else plane

-- `scopes_str.split(",") if scopes_str else []`
unfoldable pub scopes_of : Text → List Text
scopes_of [] = []
scopes_of (c ∷ s) = split comma (c ∷ s)

-- the tests before the key is made
unfoldable pub accepts : Text → Text → List Text → Bool
accepts name project_id scopes =
    not (is_empty name)
    && leb (length name) max_name_len
    && not (is_empty project_id)
    && leb (length project_id) max_project_id_len
    && not (is_empty scopes)
    && all (λ s. member s allowed_scopes) scopes

unfoldable pub insert_key : KeyRow → List KeyRow → Result (Unit {0}) × List KeyRow
insert_key k t =
    if any (λ r. text_eq r.id k.id || text_eq r.key_hash k.key_hash) t
    then (err integrity_error, t)
    else (ok tt, t ++ k ∷ [])

abbrev pub has_hash : Text → KeyRow → Bool
has_hash h r = text_eq r.key_hash h

-- the model of a row, as `validate_api_key` and `list_api_keys` build it
abbrev pub to_key : Bool → KeyRow → ApiKey
to_key revoked r = record {
  id = r.id;
  name = r.name;
  project_id = r.project_id;
  scopes = scopes_of r.scopes;
  key_hash = r.key_hash;
  created_at = r.created_at;
  last_used_at = r.last_used_at;
  is_revoked = revoked;
  plane = shown_plane r.plane;
}

-- UPDATE api_keys SET last_used_at = ? WHERE id = ?
unfoldable pub touch : ℕ → Text → Exec (List KeyRow) (Unit {0})
touch now id =
    execute
      (λ t. (ok tt, update (λ r. text_eq r.id id) (λ r. record r { last_used_at = some now }) t))

unfoldable pub admit : ℕ → Option KeyRow → Exec (List KeyRow) (Option ApiKey)
unfolding touch
admit now none = pure none
admit now (some r) =
    if r.is_revoked then pure none else (do touch now r.id; pure (some (to_key false r)))

-- revoke_api_key
unfoldable pub revoke_api_key : Text → Exec (List KeyRow) (Unit {0})
revoke_api_key id =
    execute (λ t. (ok tt, update (λ r. text_eq r.id id) (λ r. record r { is_revoked = true }) t))

-- ORDER BY created_at DESC
unfoldable pub insert_newest : KeyRow → List KeyRow → List KeyRow
insert_newest k [] = k ∷ []
insert_newest k (r ∷ rs) =
    if leb r.created_at k.created_at then k ∷ r ∷ rs else r ∷ insert_newest k rs

unfoldable pub by_newest : List KeyRow → List KeyRow
unfolding insert_newest
by_newest [] = []
by_newest (r ∷ rs) = insert_newest r (by_newest rs)

-- `if project_ids:` the filter
abbrev pub in_projects : Option (List Text) → KeyRow → Bool
in_projects none r = true
in_projects (some []) r = true
in_projects (some (p ∷ ps)) r = member r.project_id (p ∷ ps)

-- list_api_keys
unfoldable pub list_api_keys : Option (List Text) → Exec (List KeyRow) (List ApiKey)
unfolding by_newest
list_api_keys project_ids = do
  rows ←
      execute
        (λ t. (ok (by_newest (keep (λ r. not r.is_revoked && in_projects project_ids r) t)), t))
  pure (map (λ r. to_key r.is_revoked r) rows)

module _ (sha256 : Text → Text) where
  -- the row of a new key
  abbrev pub new_row : Text → Text → ℕ → Text → Text → List Text → Text → KeyRow
  new_row id raw now project_id name scopes plane = record {
    id = id;
    project_id = project_id;
    name = name;
    scopes = join (comma ∷ []) scopes;
    key_hash = sha256 raw;
    created_at = now;
    last_used_at = none;
    is_revoked = false;
    plane = stored_plane plane;
  }

  abbrev pub new_key : Text → Text → ℕ → Text → Text → List Text → Text → ApiKey
  new_key id raw now project_id name scopes plane = record {
    id = id;
    name = name;
    project_id = project_id;
    scopes = scopes;
    key_hash = sha256 raw;
    created_at = now;
    last_used_at = none;
    is_revoked = false;
    plane = stored_plane plane;
  }

  -- create_api_key; `id` is the new uuid, `token` the new random token
  unfoldable pub create_api_key :
      Text → Text → ℕ → Text → Text → List Text → Text → Exec (List KeyRow) (Text × ApiKey)
  create_api_key id token now project_id name scopes plane =
      let raw = api_key_prefix ++ token in
      if accepts (strip name) (strip project_id) scopes
      then (do
        execute (insert_key (new_row id raw now (strip project_id) (strip name) scopes plane))
        pure (raw, new_key id raw now (strip project_id) (strip name) scopes plane))
      else raise value_error

  -- validate_api_key
  unfoldable pub validate_api_key : ℕ → Text → Exec (List KeyRow) (Option ApiKey)
  unfolding admit
  validate_api_key now raw =
      catch (do row ← execute (λ t. (ok (first (has_hash (sha256 raw)) t), t)); admit now row)
        (λ _. pure none)
