-- ===== src/Auth/Oauth/Providers.antt =====
-- backend/auth/oauth.py: the provider registry, the authorize URL, and the exchange of a code.
--
-- The environment, `urllib` and the JSON parser are parameters.
use pyronites.Base.{
  Bool, true, false, ◌||◌, Option, none, some, List, [], ◌∷◌, ◌++◌, map, Text, codes, text_eq,
  lower, strip, if◌then◌else◌,
}
use pyronites.Json.{Value, obj, get, truthy}
use pyronites.Db.{Result, ok, err, oauth_error, provider_error}

pub record Provider : Type 0 where
  pub id : Text
  pub name : Text
  pub authorize_url : Text
  pub token_url : Text
  pub userinfo_url : Text
  pub emails_url : Text
  pub scope : Text
  pub client_id_env : Text
  pub client_secret_env : Text

abbrev pub google_id : Text
google_id = codes "google"

abbrev pub github_id : Text
github_id = codes "github"

-- Google has no `emails_url`
abbrev pub google : Provider
google = record {
  id = google_id;
  name = codes "Google";
  authorize_url = codes "https://accounts.google.com/o/oauth2/v2/auth";
  token_url = codes "https://oauth2.googleapis.com/token";
  userinfo_url = codes "https://openidconnect.googleapis.com/v1/userinfo";
  emails_url = [];
  scope = codes "openid email profile";
  client_id_env = codes "GOOGLE_CLIENT_ID";
  client_secret_env = codes "GOOGLE_CLIENT_SECRET";
}

abbrev pub github : Provider
github = record {
  id = github_id;
  name = codes "GitHub";
  authorize_url = codes "https://github.com/login/oauth/authorize";
  token_url = codes "https://github.com/login/oauth/access_token";
  userinfo_url = codes "https://api.github.com/user";
  emails_url = codes "https://api.github.com/user/emails";
  scope = codes "read:user user:email";
  client_id_env = codes "GITHUB_CLIENT_ID";
  client_secret_env = codes "GITHUB_CLIENT_SECRET";
}

unfoldable pub get_provider : Text → Option Provider
get_provider provider_id =
    if text_eq (lower provider_id) google_id
    then some google
    else if text_eq (lower provider_id) github_id
    then some github
    else none

abbrev is_empty : Text → Bool
is_empty [] = true
is_empty (c ∷ s) = false

-- `(os.environ.get(name) or "").strip()`
abbrev variable : Option Text → Text
variable none = []
variable (some v) = strip v

-- what `urlopen` does with a request: its URL, form data and bearer token
pub record Call : Type 0 where
  pub url : Text
  pub form : Option Text
  pub token : Option Text

pub data Opened : Type 0 where
  body : Text → Opened
  -- HTTPError, URLError
  http_error : Opened
  unreachable : Opened

pub record Web : Type 0 where
  pub environ : Text → Option Text
  pub urlencode : List (Text × Text) → Text
  pub urlopen : Call → Opened
  pub loads : Text → Option Value
  -- `str` of a JSON value
  pub py_str : Value → Text

module _ (web : Web) where
  abbrev both : Text → Text → Option (Text × Text)
  both client_id client_secret =
      if is_empty client_id || is_empty client_secret then none else some (client_id, client_secret)

  unfoldable pub provider_credentials : Text → Option (Text × Text)
  unfolding get_provider
  provider_credentials provider_id = elim (get_provider provider_id) [
    | none ↦ none
    | some p ↦
        both (variable (web.environ p.client_id_env)) (variable (web.environ p.client_secret_env))
  ]

  unfoldable pub is_provider_configured : Text → Bool
  unfolding provider_credentials
  is_provider_configured provider_id = elim (provider_credentials provider_id) [
    | none ↦ false
    | some c ↦ true
  ]

  -- list_providers: id, name and whether it is configured
  unfoldable pub list_providers : List (Text × Text × Bool)
  unfolding is_provider_configured
  list_providers = map (λ p. (p.id, p.name, is_provider_configured p.id)) (google ∷ github ∷ [])

  -- _http_json
  unfoldable pub http_json : Call → Result Value
  http_json call = elim (web.urlopen call) [
    | http_error ↦ err provider_error
    | unreachable ↦ err provider_error
    | body raw ↦ elim (web.loads raw) [ none ↦ err provider_error | some v ↦ ok v ]
  ]

  -- Google alone is asked to prompt again
  abbrev prompt : Text → List (Text × Text)
  prompt provider_id =
      if text_eq provider_id google_id then (codes "prompt", codes "consent") ∷ [] else []

  abbrev authorize_params : Text → Text → Text → Provider → Text × Text → List (Text × Text)
  authorize_params provider_id redirect_uri state p (client_id, client_secret) =
      (codes "client_id", client_id)
      ∷ (codes "redirect_uri", redirect_uri)
      ∷ (codes "response_type", codes "code")
      ∷ (codes "scope", p.scope)
      ∷ (codes "state", state)
      ∷ prompt provider_id

  unfoldable pub build_authorize_url : Text → Text → Text → Result Text
  unfolding get_provider provider_credentials
  build_authorize_url provider_id redirect_uri state = elim (get_provider provider_id) [
    | none ↦ err oauth_error
    | some p ↦ elim (provider_credentials provider_id) [
      | none ↦ err oauth_error
      | some c ↦ ok (
          p.authorize_url
          ++ b'?' ∷ web.urlencode (authorize_params provider_id redirect_uri state p c))
    ]
  ]

  abbrev token_params : Text → Text → Text × Text → List (Text × Text)
  token_params code redirect_uri (client_id, client_secret) =
      (codes "client_id", client_id)
      ∷ (codes "client_secret", client_secret)
      ∷ (codes "code", code)
      ∷ (codes "redirect_uri", redirect_uri)
      ∷ (codes "grant_type", codes "authorization_code")
      ∷ []

  abbrev access_token : Value → Result Text
  access_token (obj fs) =
      let token = get (codes "access_token") fs in
      if truthy token then ok (web.py_str token) else err provider_error
  access_token _ = err provider_error

  abbrev asked : Result Value → Result Text
  asked (err e) = err e
  asked (ok v) = access_token v

  unfoldable pub exchange_code_for_token : Text → Text → Text → Result Text
  unfolding get_provider provider_credentials http_json
  exchange_code_for_token provider_id code redirect_uri = elim (get_provider provider_id) [
    | none ↦ err oauth_error
    | some p ↦ elim (provider_credentials provider_id) [
      | none ↦ err oauth_error
      | some c ↦ asked (
          http_json (record {
            url = p.token_url;
            form = some (web.urlencode (token_params code redirect_uri c));
            token = none;
          }))
    ]
  ]
