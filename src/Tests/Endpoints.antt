-- ===== src/Tests/Endpoints.antt =====
-- The accounts' endpoints.
use pyronites.Auth.Users.{authenticate_user}
use pyronites.Base.{
  keep, all, starts_with, ◌+◌, ◌*◌, ◌≡◌, ◌≢◌, ◌≤◌, inr, refl, arith, true, false, Option, none,
  some, List, [], ◌∷◌, Text, codes, lower, strip, first, any, text_eq,
}
use pyronites.Db.{execute, Exc, ok, healthy, operational_error}
use pyronites.Auth.{User, AuthDb, ResetRow, has_email, has_hash}
use pyronites.Auth.Passwords.{verify_password, is_argon2_hash, hash_password, verified}
use pyronites.Auth.ResetTokens.{is_unused}
use pyronites.RateLimit.{count_hits, Hit}
use pyronites.Projects.{active, Registry}
use pyronites.Api.AuthDeps.{cookie}
use pyronites.Api.Accounts.{put_auth, Platform, Setting, body_email}
use pyronites.Api.Accounts.Cookie.{Surroundings, deleted, set_session_cookie}
use pyronites.Api.Accounts.Entry.{Fresh, Response, user_of, login}
use pyronites.Api.Accounts.Entered.{Opens, login-Opens}
use pyronites.Api.Accounts.Recovery.{forgot_password, reset_password}
use pyronites.Api.Accounts.Recovered.{IsClosed, IsChanged, reset_password_sound}
use pyronites.Api.Accounts.Private.{forgot_password_private}
use pyronites.Api.Accounts.Deletion.{DeleteAccountBody, delete_account}
use pyronites.Api.Accounts.Erased.{IsConfirmed, IsErased, delete_account_erases}
use pyronites.Api.Accounts.Live.{login_answers}
use pyronites.Tests.Accounts.{digest, hasher, ann, bob, accounts, logged_in}
use pyronites.Tests.Registry.{project}

abbrev px : Setting
px = record {
  ph = hasher;
  sha256 = digest;
  email_str = λ e. some e;
  second = 1;
  day = 86400;
  auth_rate_limit = 2;
  forgot_rate_limit = 5;
  reset_ttl = 3600;
  session_max_age = 604800;
  is_meta = λ f. false;
  prepare = λ f. ok tt;
  str = λ n. codes "2";
}

abbrev registry : Registry
registry = record {
  projects = project (codes "a1") (codes "shop") active ∷ [];
  keys = [];
  last = [];
  files = codes "a1.db" ∷ [];
}

abbrev hit : Hit
hit = record {
  key = codes "ip:10.0.0.1";
  endpoint = codes "auth:login";
  hit_at = 40;
  expires_at = 100;
}

abbrev platform : AuthDb → Platform
platform a = record { auth = a; registry = registry; hits = hit ∷ [] }

abbrev surroundings : Surroundings
surroundings = record {
  forwarded_proto = some (codes "https");
  scheme = codes "http";
  session_cookie_secure = none;
  session_cookie_samesite = none;
}

abbrev fresh : Fresh
fresh = record {
  user_id = codes "u9";
  project_id = codes "a9";
  session_id = codes "s9";
  token = codes "t9";
}

abbrev ip : Text
ip = codes "10.0.0.1"

abbrev welcome : Response Text
welcome = record { body = ann.email; cookie = set_session_cookie px surroundings fresh.token }

full : fresh.token ≢ []
full e = absurd (ground arith)

login-Opens_example :
    (address : Text) × (u : User) × (body_email px (codes "Ann@x.io") ≡ ok address)
    × (first (has_email (lower address)) accounts.users ≡ some u)
    × (u.is_active ≡ true)
    × (px.ph.verify u.password_hash (codes "secret pw") ≡ verified)
    × (welcome.cookie ≡ set_session_cookie px surroundings fresh.token)
    × Opens px
        (login px 50 surroundings fresh ip
          (codes "Ann@x.io")
          (codes "secret pw")
          (healthy (platform accounts))).1.tables
        fresh.token
        u.id
        (50 + 7 * 86400)
unfolding login count_hits keep text_eq first lower verify_password is_argon2_hash starts_with any
login-Opens_example =
    login-Opens px 50 surroundings fresh ip (codes "Ann@x.io") (codes "secret pw")
      (healthy (platform accounts)) welcome full refl

login_answers_example :
    (r : Response Text) × ((login px 100 surroundings fresh ip
        (codes "ann@x.io")
        (codes "secret pw")
        (healthy (platform accounts))).0
      ≡ ok r)
unfolding body_email lower authenticate_user execute first text_eq verify_password is_argon2_hash
    starts_with any
login_answers_example =
    login_answers px 100 surroundings fresh ip (codes "ann@x.io") (codes "secret pw") ann.email
      (platform accounts) ann refl refl (omega arith) (inr (omega arith), tt) refl

abbrev reset : ResetRow
reset = record {
  id = codes "r1";
  user_id = ann.id;
  token_hash = digest (codes "0123456789");
  expires_at = 90;
  used_at = none;
  created_at = 10;
}

abbrev forgetful : AuthDb
forgetful = record logged_in { reset_tokens = reset ∷ [] }

reset_password_sound_example :
    (r : ResetRow) × (first (has_hash (digest (strip (codes " 0123456789")))) forgetful.reset_tokens
      ≡ some r)
    × (is_unused r ≡ true)
    × (60 ≤ r.expires_at)
    × IsChanged px forgetful
        (reset_password px 60
          (codes " 0123456789")
          (codes "new secret")
          (healthy (platform forgetful))).1.tables.auth
        r.user_id
        (codes "new secret")
    × IsClosed px
        (reset_password px 60
          (codes " 0123456789")
          (codes "new secret")
          (healthy (platform forgetful))).1.tables
        r.user_id
unfolding reset_password strip execute first text_eq hash_password is_argon2_hash starts_with any
    put_auth
reset_password_sound_example =
    reset_password_sound px 60 (codes " 0123456789") (codes "new secret")
      (healthy (platform forgetful)) refl

abbrev fault : List (Option Exc)
fault = none ∷ some operational_error ∷ []

forgot_password_private_example :
    (forgot_password px 60
      (λ to token. ok tt)
      (codes "r2")
      (codes "abc")
      ip
      (codes "ann@x.io")
      (record { tables = platform accounts; faults = fault })).0
    ≡ (forgot_password px 60
        (λ to token. ok tt)
        (codes "r2")
        (codes "abc")
        ip
        (codes "ann@x.io")
        (record { tables = platform (record accounts { users = bob ∷ [] }); faults = fault })).0
forgot_password_private_example =
    forgot_password_private px 60 (λ to token. ok tt) (codes "r2") (codes "abc") ip
      (codes "ann@x.io") (record { tables = platform accounts; faults = fault })
      (record { tables = platform (record accounts { users = bob ∷ [] }); faults = fault }) refl
      refl

abbrev confirmation : DeleteAccountBody
confirmation = record { password = none; confirm_email = some (codes " Ann@x.io") }

abbrev goodbye : Response (Unit {0})
goodbye = record { body = tt; cookie = deleted }

delete_account_erases_example :
    (u : User) × ((user_of px 50 (cookie (some ann.id)) (healthy (platform logged_in))).0
      ≡ ok (some u))
    × IsConfirmed px 50 confirmation u
        (user_of px 50 (cookie (some ann.id)) (healthy (platform logged_in))).1.tables.auth
    × IsErased u.id
        (delete_account px 50 confirmation
          (some ann.id)
          (healthy (platform logged_in))).1.tables.auth
unfolding delete_account execute first text_eq lower strip keep put_auth all
delete_account_erases_example =
    delete_account_erases px 50 confirmation (some ann.id) (healthy (platform logged_in)) goodbye
      refl
