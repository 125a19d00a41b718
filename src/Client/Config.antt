-- ===== src/Client/Config.antt =====
-- pyronites/pyronites/config.py. The environment is a parameter: the value of a variable, if any.
use pyronites.Base.{Option, none, some, List, [], ◌∷◌, Text, codes, member, ◌==◌, if◌then◌else◌}
use mathlib.Core.List.{reverse}

pub data Policy : Type 0 where
  remote local cache : Policy

-- Without the timeout, which only httpx reads. The frozen sets are lists.
pub record ClientConfig : Type 0 where
  pub url : Text
  pub key : Option Text
  pub local_tables : List Text
  pub remote_tables : List Text
  pub cache_tables : List Text
  pub local_db_path : Option Text

unfoldable pub table_policy : ClientConfig → Text → Policy
table_policy c name =
    if member name c.local_tables
    then local
    else if member name c.cache_tables
    then cache
    else remote

unfoldable pub drop_slashes : Text → Text
drop_slashes [] = []
drop_slashes (c ∷ s) = if c == b'/' then drop_slashes s else c ∷ s

-- `url.rstrip("/")`
unfoldable pub normalize_url : Text → Text
unfolding drop_slashes
normalize_url url = reverse (drop_slashes (reverse url))

abbrev or_env : Option Text → Option Text → Option Text
or_env (some given) env = some given
or_env none env = env

-- `resolved_key or None`
abbrev non_empty : Option Text → Option Text
non_empty (some (c ∷ s)) = some (c ∷ s)
non_empty _ = none

abbrev names : Option (List Text) → List Text
names none = []
names (some ts) = ts

module _ (environ : Text → Option Text) where
  -- load_config, or the ApiError of a missing URL
  unfoldable pub load_config :
      Option Text
      → Option Text
      → Option (List Text)
      → Option (List Text)
      → Option (List Text)
      → Option Text
      → Option ClientConfig
  unfolding normalize_url
  load_config url key local_tables remote_tables cache_tables local_db_path =
      elim (non_empty (or_env url (environ (codes "PYRONITES_URL")))) [
        | none ↦ none
        | some found ↦ some (record {
          url = normalize_url found;
          key = non_empty (or_env key (environ (codes "PYRONITES_KEY")));
          local_tables = names local_tables;
          remote_tables = names remote_tables;
          cache_tables = names cache_tables;
          local_db_path = or_env local_db_path (environ (codes "PYRONITES_LOCAL_DB"));
        })
      ]
