-- ===== src/Api/Accounts/Cookie.antt =====
-- backend/api/_session.py: the attributes of the session cookie.
use pyronites.Base.{
  ℕ, Bool, true, ◌||◌, Option, none, some, [], ◌∷◌, Text, codes, text_eq, lower, strip, member,
  if◌then◌else◌,
}
use pyronites.Api.Accounts.{Setting}

-- the x-forwarded-proto header, the scheme of the URL, and the two variables of the environment
pub record Surroundings : Type 0 where
  pub forwarded_proto : Option Text
  pub scheme : Text
  pub session_cookie_secure : Option Text
  pub session_cookie_samesite : Option Text

-- what a response does to the cookie session_token
pub record Cookie : Type 0 where
  pub value : Text
  pub http_only : Bool
  pub secure : Bool
  pub samesite : Text
  pub max_age : ℕ

pub data CookieChange : Type 0 where
  kept : CookieChange
  set_to : Cookie → CookieChange
  deleted : CookieChange

abbrev pub or_blank : Option Text → Text
or_blank none = []
or_blank (some s) = s

-- is_https, of a request that is there
unfoldable pub is_https : Surroundings → Bool
is_https s =
    text_eq (lower (or_blank s.forwarded_proto)) (codes "https") || text_eq s.scheme (codes "https")

unfoldable pub cookie_secure : Surroundings → Bool
unfolding is_https
cookie_secure s = elim s.session_cookie_secure [
  | none ↦ is_https s
  | some raw ↦ member (lower (strip raw)) (codes "1" ∷ codes "true" ∷ codes "yes" ∷ codes "on" ∷ [])
]

abbrev pub none_text : Text
none_text = codes "none"

unfoldable pub cookie_samesite : Surroundings → Text
unfolding is_https
cookie_samesite s = elim s.session_cookie_samesite [
  | none ↦ if is_https s then none_text else codes "lax"
  | some raw ↦ lower (strip raw)
]

-- set_session_cookie
unfoldable pub set_session_cookie : Setting → Surroundings → Text → CookieChange
unfolding cookie_secure cookie_samesite
set_session_cookie px s raw_token = set_to (record {
  value = raw_token;
  http_only = true;
  secure = text_eq (cookie_samesite s) none_text || cookie_secure s;
  samesite = cookie_samesite s;
  max_age = px.session_max_age;
})
