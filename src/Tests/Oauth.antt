-- ===== src/Tests/Oauth.antt =====
-- Sign-in by a provider.
use pyronites.Base.{◌≡◌, ◌⊎◌, refl, true, none, some, [], ◌∷◌, Text, codes, text_eq, first}
use pyronites.Json.{Value, Items, nil, cons, end, field, null, bool, str, arr, obj}
use pyronites.Db.{execute, healthy}
use pyronites.Db.Preserves.{Preserves}
use pyronites.Auth.{AuthDb, Identity, StateRow}
use pyronites.Auth.Oauth.Providers.{github_id, google_id, Web, body}
use pyronites.Auth.Oauth.Profile.{Profile}
use pyronites.Auth.Oauth.Resolve.{Fresh, signed_in, resolve_oauth_user}
use pyronites.Auth.Oauth.Sound.{ByLink, ByAddress, resolve_oauth_user_sound}
use pyronites.Auth.Oauth.Links.{Linked, resolve_oauth_user-Linked}
use pyronites.Tests.Accounts.{digest, hasher, ann, accounts}

abbrev ann_profile : Profile
ann_profile = record {
  provider_user_id = codes "77";
  email = some ann.email;
  email_verified = true;
  display_name = null;
  avatar_url = null;
}

abbrev ann_identity : Identity
ann_identity = record {
  id = codes "i1";
  user_id = ann.id;
  provider = github_id;
  provider_user_id = codes "77";
  email = some ann.email;
  email_verified = true;
  display_name = null;
  avatar_url = null;
  created_at = 5;
}

abbrev linked_accounts : AuthDb
linked_accounts = record accounts { identities = ann_identity ∷ [] }

abbrev fresh_values : Fresh
fresh_values = record {
  identity = codes "i9";
  user = codes "u9";
  now = 50;
  secret = codes "random secret";
}

resolve_oauth_user_sound_example :
    (ann.is_active ≡ true)
    × (ByLink hasher fresh_values github_id ann_profile linked_accounts ann
        ⊎ ByAddress hasher fresh_values github_id ann_profile linked_accounts ann)
unfolding resolve_oauth_user execute first text_eq
resolve_oauth_user_sound_example =
    resolve_oauth_user_sound hasher fresh_values github_id ann_profile (healthy linked_accounts)
      (record { user = ann; outcome = signed_in }) refl

resolve_oauth_user-Linked_example :
    Preserves
      (Linked hasher github_id (codes "77") ann.id)
      (resolve_oauth_user hasher fresh_values google_id ann_profile)
resolve_oauth_user-Linked_example =
    resolve_oauth_user-Linked hasher github_id (codes "77") ann.id fresh_values google_id
      ann_profile

abbrev state_row : StateRow
state_row = record {
  id = codes "t1";
  state_hash = digest (codes "raw");
  provider = google_id;
  redirect_uri = codes "https://x.io/cb";
  expires_at = 90;
  used_at = none;
  created_at = 10;
}

abbrev with_state : AuthDb
with_state = record accounts { states = state_row ∷ [] }

abbrev address_list : Items
address_list =
    cons
      (obj
        (field (codes "email") (str (codes "Ann@x.io")) (field (codes "verified") (bool true) end)))
      nil

abbrev text_of : Value → Text
text_of (str s) = s
text_of v = []

-- GitHub's answer to every request is the list of addresses
abbrev web : Web
web = record {
  environ = λ name. none;
  urlencode = λ ps. [];
  urlopen = λ call. body [];
  loads = λ s. some (arr address_list);
  py_str = text_of;
}
