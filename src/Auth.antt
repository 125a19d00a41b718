-- ===== src/Auth.antt =====
-- backend/auth: accounts, passwords, sessions, password-reset tokens, API keys and OAuth.
--
-- This file is the part of the schema that they share (backend/migrations): the tables users,
-- sessions, password_reset_tokens, oauth_identities and oauth_states with their UNIQUE and FOREIGN KEY constraints, and the
-- cascade of a deleted user. Times are whole ticks; the code stores them as ISO texts.
pub mod Passwords
pub mod Users
pub mod Sessions
pub mod ResetTokens
pub mod ApiKeys
pub mod Oauth
use pyronites.Base.{
  ℕ, Bool, true, false, not, ◌||◌, Option, none, some, List, [], ◌∷◌, ◌++◌, Text, text_eq, keep,
  any, if◌then◌else◌,
}
use pyronites.Json.{Value}
use pyronites.Db.{Result, ok, err, integrity_error}

pub record User : Type 0 where
  pub id : Text
  pub email : Text
  pub password_hash : Text
  pub created_at : ℕ
  pub is_active : Bool

-- a row of sessions; `token` is the hash of the raw token
pub record SessionRow : Type 0 where
  pub id : Text
  pub user_id : Text
  pub token : Text
  pub expires_at : ℕ
  pub created_at : ℕ

pub record ResetRow : Type 0 where
  pub id : Text
  pub user_id : Text
  pub token_hash : Text
  pub expires_at : ℕ
  pub used_at : Option ℕ
  pub created_at : ℕ

-- a row of oauth_identities
pub record Identity : Type 0 where
  pub id : Text
  pub user_id : Text
  pub provider : Text
  pub provider_user_id : Text
  pub email : Option Text
  pub email_verified : Bool
  pub display_name : Value
  pub avatar_url : Value
  pub created_at : ℕ

-- a row of oauth_states
pub record StateRow : Type 0 where
  pub id : Text
  pub state_hash : Text
  pub provider : Text
  pub redirect_uri : Text
  pub expires_at : ℕ
  pub used_at : Option ℕ
  pub created_at : ℕ

pub record AuthDb : Type 0 where
  pub users : List User
  pub sessions : List SessionRow
  pub reset_tokens : List ResetRow
  pub identities : List Identity
  pub states : List StateRow

abbrev pub Statement : Type 0 → Type 0
Statement A = AuthDb → Result A × AuthDb

abbrev pub has_id : Text → User → Bool
has_id id u = text_eq u.id id

abbrev pub has_email : Text → User → Bool
has_email email u = text_eq u.email email

abbrev pub has_token : Text → SessionRow → Bool
has_token token s = text_eq s.token token

abbrev pub has_hash : Text → ResetRow → Bool
has_hash h r = text_eq r.token_hash h

-- INSERT INTO users: `id` is the primary key, `email` is UNIQUE
unfoldable pub insert_user : User → Statement (Unit {0})
insert_user u db =
    if any (λ v. has_id u.id v || has_email u.email v) db.users
    then (err integrity_error, db)
    else (ok tt, record db { users = db.users ++ u ∷ [] })

-- DELETE FROM users WHERE id = ?: what belongs to the user goes with it
unfoldable pub delete_user_row : Text → Statement Bool
delete_user_row id db = (
  ok (any (has_id id) db.users),
  record {
    users = keep (λ u. not (has_id id u)) db.users;
    sessions = keep (λ s. not (text_eq s.user_id id)) db.sessions;
    reset_tokens = keep (λ r. not (text_eq r.user_id id)) db.reset_tokens;
    identities = keep (λ i. not (text_eq i.user_id id)) db.identities;
    states = db.states;
  },
)

-- INSERT INTO sessions: `id` is the primary key, `token` is UNIQUE, `user_id` names a user
unfoldable pub insert_session : SessionRow → Statement (Unit {0})
insert_session s db =
    if any (λ r. text_eq r.id s.id || has_token s.token r) db.sessions
      || not (any (has_id s.user_id) db.users)
    then (err integrity_error, db)
    else (ok tt, record db { sessions = db.sessions ++ s ∷ [] })

-- INSERT INTO password_reset_tokens: `id` is the primary key, `token_hash` is UNIQUE
unfoldable pub insert_reset : ResetRow → Statement (Unit {0})
insert_reset t db =
    if any (λ r. text_eq r.id t.id || has_hash t.token_hash r) db.reset_tokens
      || not (any (has_id t.user_id) db.users)
    then (err integrity_error, db)
    else (ok tt, record db { reset_tokens = db.reset_tokens ++ t ∷ [] })
