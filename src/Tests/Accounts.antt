-- ===== src/Tests/Accounts.antt =====
-- Accounts, sessions and reset tokens.
use pyronites.Base.{
  ℕ, ◌+◌, ◌≡◌, ◌≢◌, refl, Bool, true, false, Option, none, some, List, [], ◌∷◌, ◌++◌, Text, codes,
  text_eq, strip, first,
}
use pyronites.Db.{
  Exc, ok, Exec, healthy, execute, operational_error, database_error, value_error, raise, ◌>>◌,
}
use pyronites.Auth.{User, SessionRow, ResetRow, AuthDb}
use pyronites.Auth.Passwords.{Hasher, Verification, verified, mismatch}
use pyronites.Auth.Sessions.{Session}
use pyronites.Auth.ResetTokens.{consume_reset_token}
use pyronites.Auth.ResetTokens.Spent.{
  TokenCall, create, consume, after_all, two_at_once, consume_once,
}

abbrev pub digest : Text → Text
digest s = b'#' ∷ s

abbrev pub argon : Text → Text
argon s = codes "$argon2id$" ++ s

abbrev pub hash_of : Text → Option Text
hash_of plain = some (argon plain)

abbrev pub answer : Bool → Verification
answer true = verified
answer false = mismatch

abbrev pub hasher : Hasher
hasher = record { hash = hash_of; verify = λ hashed plain. answer (text_eq hashed (argon plain)) }

abbrev pub ann : User
ann = record {
  id = codes "u1";
  email = codes "ann@x.io";
  password_hash = argon (codes "secret pw");
  created_at = 3;
  is_active = true;
}

abbrev pub bob : User
bob = record {
  id = codes "u2";
  email = codes "bob@x.io";
  password_hash = argon (codes "other pw");
  created_at = 4;
  is_active = true;
}

abbrev pub accounts : AuthDb
accounts = record {
  users = ann ∷ bob ∷ [];
  sessions = [];
  reset_tokens = [];
  identities = [];
  states = [];
}

abbrev pub session : Text → SessionRow
session user_id = record {
  id = codes "s" ++ user_id;
  user_id = user_id;
  token = digest user_id;
  expires_at = 100;
  created_at = 10;
}

abbrev pub logged_in : AuthDb
logged_in = record accounts { sessions = session ann.id ∷ session bob.id ∷ [] }

abbrev fault : List (Option Exc)
fault = some operational_error ∷ []

-- a block that writes and then fails
abbrev broken_block : Exec ℕ ℕ
broken_block = execute (λ t. (ok t, t + 1)) >> raise value_error

abbrev new_session : Session
new_session = record {
  id = codes "s9";
  user_id = ann.id;
  token = codes "tok";
  expires_at = 80;
  created_at = 10;
}

abbrev reset_row : Text → Text → ResetRow
reset_row id raw = record {
  id = id;
  user_id = ann.id;
  token_hash = digest raw;
  expires_at = 60;
  used_at = none;
  created_at = 5;
}

abbrev resets : AuthDb
resets = record accounts { reset_tokens = reset_row (codes "r1") (codes "old") ∷ [] }

-- a token that is created for the same user, and a redemption of which the UPDATE fails
abbrev between : List TokenCall
between =
    create (codes "r2") (codes "new") 20 ann.id 60 []
    ∷ consume 21 (codes "new") (none ∷ some database_error ∷ [])
    ∷ []

consume_once_example :
    ((consume_reset_token digest 22 (codes "old") (record {
      tables =
          after_all digest between
            (consume_reset_token digest 20 (codes "old") (healthy resets)).1.tables;
      faults = [];
    })).0
      ≢ ok (some ann.id))
    × ((two_at_once digest 20 (codes "old") (healthy resets)).0 ≡ ok (some ann.id, some ann.id))
unfolding consume_reset_token execute strip first text_eq
consume_once_example =
    consume_once digest 20 (codes "old") (healthy resets) ann.id between 22 [] ann.id refl
