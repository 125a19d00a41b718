-- ===== src/Api/Accounts.antt =====
-- backend/api/auth.py and backend/api/_session.py: the meta database and the settings of the
-- accounts' endpoints, the limit of their calls, and the session cookie.
--
-- A request reads the clock once, at `now`; what its client's address is, is get_client_ip of RateLimit.
pub mod Cookie
pub mod Entry
pub mod Recovery
pub mod Deletion
pub mod Kept
pub mod Entered
pub mod Recovered
pub mod Private
pub mod Erased
pub mod Live
use pyronites.Base.{
  ℕ, ◌*◌, Bool, true, false, Option, none, some, List, map, ◌++◌, Text, codes, text_eq, lower,
  first, if◌then◌else◌,
}
use pyronites.Db.{Exc, Result, ok, err, http_exception, Exec, pure, raise, within, ◌>>=◌}
use pyronites.Auth.{User, AuthDb}
use pyronites.Auth.Passwords.{Hasher}
use pyronites.Auth.ApiKeys.{KeyRow}
use pyronites.RateLimit.{Hit, Verdict, check_and_record}
use pyronites.Projects.{Registry, LastProject, last_of}

-- the meta database; the column last_project_id of users stands in the registry
pub record Platform : Type 0 where
  pub auth : AuthDb
  pub registry : Registry
  pub hits : List Hit

-- what the endpoints take from their surroundings
pub record Setting : Type 0 where
  pub ph : Hasher
  pub sha256 : Text → Text
  -- pydantic's EmailStr: the address as it is normalized, if it is one
  pub email_str : Text → Option Text
  -- the ticks of a second and of a day
  pub second : ℕ
  pub day : ℕ
  pub auth_rate_limit : ℕ
  pub forgot_rate_limit : ℕ
  pub reset_ttl : ℕ
  pub session_max_age : ℕ
  -- of Projects
  pub is_meta : Text → Bool
  pub prepare : Text → Result (Unit {0})
  pub str : ℕ → Text

abbrev last_project_of : List LastProject → User → LastProject
last_project_of last u = record {
  user_id = u.id;
  project = last_of (first (λ l. text_eq l.user_id u.id) last);
}

-- each user has one last_project_id, which goes with the row
unfoldable pub put_auth : AuthDb → Platform → Platform
put_auth a p = record p {
  auth = a;
  registry = record p.registry { last = map (last_project_of p.registry.last) a.users };
}

abbrev pub put_registry : Registry → Platform → Platform
put_registry r p = record p { registry = r }

abbrev pub put_hits : List Hit → Platform → Platform
put_hits h p = record p { hits = h }

module _ {A : Type 0} where
  abbrev pub in_users : Exec AuthDb A → Exec Platform A
  in_users act = within (λ p. p.auth) put_auth act

  abbrev pub in_registry : Exec Registry A → Exec Platform A
  in_registry act = within (λ p. p.registry) put_registry act

  abbrev pub in_hits : Exec (List Hit) A → Exec Platform A
  in_hits act = within (λ p. p.hits) put_hits act

  abbrev pub in_keys : Exec (List KeyRow) A → Exec Platform A
  in_keys act =
      within (λ p. p.registry.keys) (λ k p. record p { registry = record p.registry { keys = k } })
        act

abbrev pub auth_rate_window : ℕ
auth_rate_window = 60

abbrev pub forgot_rate_window : ℕ
forgot_rate_window = 3600

module _ (px : Setting) (now : ℕ) where
  abbrev pub refuse : Verdict → Exec Platform (Unit {0})
  refuse v = if v.allowed then pure tt else raise (http_exception 429)

  -- check_and_record, and rate_limit_response where it refuses; `window` in seconds
  unfoldable pub limited : Text → Text → ℕ → ℕ → Exec Platform (Unit {0})
  unfolding check_and_record put_auth
  limited key endpoint limit window = do
    verdict ← in_hits (check_and_record px.second key endpoint limit (window * px.second) now)
    refuse verdict

-- the validators of _EmailBody and _ForgotBody; FastAPI answers 422 where one refuses
unfoldable pub body_email : Setting → Text → Result Text
body_email px email = elim (px.email_str email) [
  | none ↦ err (http_exception 422)
  | some e ↦ ok (lower e)
]

abbrev pub ip_key : Text → Text
ip_key ip = codes "ip:" ++ ip

abbrev pub email_key : Text → Text
email_key email = codes "email:" ++ lower email
