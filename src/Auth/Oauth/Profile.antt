-- ===== src/Auth/Oauth/Profile.antt =====
-- backend/auth/oauth.py: the profile of a provider's account.
use pyronites.Base.{
  Bool, true, false, ◌&&◌, Option, none, some, List, [], ◌∷◌, Text, codes, text_eq, lower, strip,
  if◌then◌else◌, first,
}
use pyronites.Json.{
  Value, null, str, arr, obj, Items, nil, cons, Fields, get, get?, truthy, or_value,
}
use pyronites.Db.{Result, ok, err, oauth_error, provider_error, attribute_error}
use pyronites.Auth.Oauth.Providers.{Provider, Web, get_provider, http_json, github_id}

pub record Profile : Type 0 where
  pub provider_user_id : Text
  pub email : Option Text
  pub email_verified : Bool
  pub display_name : Value
  pub avatar_url : Value

abbrev pub non_empty : Text → Option Text
non_empty [] = none
non_empty (c ∷ s) = some (c ∷ s)

-- `(email or "").strip().lower() or None`; a value that is no text has no `strip`
unfoldable pub normal_email : Value → Result (Option Text)
normal_email (str s) = ok (non_empty (lower (strip s)))
normal_email v = if truthy v then err attribute_error else ok none

abbrev pub profile_of : Text → Value → Value → Bool → Result (Option Text) → Result Profile
profile_of id name picture verified (err e) = err e
profile_of id name picture verified (ok email) = ok (record {
  provider_user_id = id;
  email = email;
  email_verified = verified;
  display_name = or_value name null;
  avatar_url = or_value picture null;
})

-- the objects of a JSON list whose `verified` is true
unfoldable pub verified_addresses : Items → List Fields
verified_addresses nil = []
verified_addresses (cons (obj fs) vs) =
    let rest = verified_addresses vs in
    if truthy (get (codes "verified") fs) then fs ∷ rest else rest
verified_addresses (cons v vs) = verified_addresses vs

abbrev pub is_primary : Fields → Bool
is_primary fs = truthy (get (codes "primary") fs)

abbrev pub or_head : List Fields → Option Fields → Option Fields
or_head es (some e) = some e
or_head [] none = none
or_head (e ∷ es) none = some e

-- the primary one, or the first
abbrev pub chosen : List Fields → Option Fields
chosen es = or_head es (first is_primary es)

module _ (web : Web) where
  -- `str(chosen.get("email", "")).strip().lower()`
  abbrev pub address_of : Fields → Text
  address_of fs = elim (get? (codes "email") fs) [
    | none ↦ lower (strip [])
    | some v ↦ lower (strip (web.py_str v))
  ]

  abbrev pub picked : Option Fields → Option Text × Bool
  picked none = (none, false)
  picked (some fs) = (some (address_of fs), true)

  abbrev pub from_list : Result Value → Option Text × Bool
  from_list (ok (arr es)) = picked (chosen (verified_addresses es))
  from_list _ = (none, false)

  abbrev ask : Text → Text → Result Value
  ask token url = http_json web (record { url = url; form = none; token = some token })

  -- _github_primary_email
  unfoldable pub github_primary_email : Provider → Text → Option Text × Bool
  unfolding http_json verified_addresses
  github_primary_email p token = from_list (ask token p.emails_url)

  abbrev pub adopt : Value → Option Text × Bool → Value × Bool
  adopt email (some address, true) = (str address, true)
  adopt email _ = (email, false)

  -- the address of `/user`, or where that is not verified, one of `/user/emails`
  unfoldable pub github_email : Provider → Text → Fields → Value × Bool
  unfolding github_primary_email
  github_email p token fs =
      let email = get (codes "email") fs in
      if truthy email && truthy (get (codes "verified_email") fs)
      then (email, true)
      else adopt email (github_primary_email p token)

  abbrev github_fields : Provider → Text → Fields → Result Profile
  github_fields p token fs =
      let id = get (codes "id") fs in
      let (email, verified) = github_email p token fs in
      if truthy id
      then profile_of (web.py_str id) (or_value (get (codes "name") fs) (get (codes "login") fs))
          (get (codes "avatar_url") fs) verified (normal_email email)
      else err provider_error

  abbrev github_value : Provider → Text → Result Value → Result Profile
  github_value p token (err e) = err e
  github_value p token (ok (obj fs)) = github_fields p token fs
  github_value p token (ok _) = err provider_error

  -- _github_profile
  unfoldable pub github_profile : Provider → Text → Result Profile
  unfolding github_email normal_email http_json
  github_profile p token = github_value p token (ask token p.userinfo_url)

  abbrev google_fields : Fields → Result Profile
  google_fields fs =
      let sub = get (codes "sub") fs in
      if truthy sub
      then profile_of (web.py_str sub) (get (codes "name") fs) (get (codes "picture") fs)
          (truthy (get (codes "email_verified") fs)) (normal_email (get (codes "email") fs))
      else err provider_error

  abbrev google_value : Result Value → Result Profile
  google_value (err e) = err e
  google_value (ok (obj fs)) = google_fields fs
  google_value (ok _) = err provider_error

  -- _google_profile
  unfoldable pub google_profile : Provider → Text → Result Profile
  unfolding normal_email http_json
  google_profile p token = google_value (ask token p.userinfo_url)

  -- fetch_profile
  unfoldable pub fetch_profile : Text → Text → Result Profile
  unfolding get_provider github_profile google_profile
  fetch_profile provider_id token = elim (get_provider provider_id) [
    | none ↦ err oauth_error
    | some p ↦
        if text_eq provider_id github_id then github_profile p token else google_profile p token
  ]
