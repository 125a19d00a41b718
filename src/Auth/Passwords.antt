-- ===== src/Auth/Passwords.antt =====
-- backend/auth/passwords.py. The Argon2 hasher is a parameter.
use pyronites.Base.{
  Bool, true, false, ◌||◌, Option, none, some, [], ◌∷◌, Text, codes, starts_with, if◌then◌else◌,
}
use pyronites.Db.{Result, ok, err, value_error, runtime_error, argon2_error}

-- the outcome of `PH.verify`
pub data Verification : Type 0 where
  verified : Verification
  mismatch : Verification
  -- InvalidHashError, Argon2Error
  broken : Verification

pub record Hasher : Type 0 where
  -- `PH.hash`, or an Argon2Error
  pub hash : Text → Option Text
  -- `PH.verify(hashed, plain)`
  pub verify : Text → Text → Verification

unfoldable pub is_argon2_hash : Text → Bool
is_argon2_hash [] = false
is_argon2_hash (c ∷ s) =
    starts_with (codes "$argon2id$") (c ∷ s)
    || starts_with (codes "$argon2i$") (c ∷ s)
    || starts_with (codes "$argon2d$") (c ∷ s)

abbrev checked : Option Text → Result Text
checked none = err argon2_error
checked (some hashed) = if is_argon2_hash hashed then ok hashed else err runtime_error

abbrev pub matches : Verification → Bool
matches verified = true
matches _ = false

module _ (ph : Hasher) where
  unfoldable pub hash_password : Text → Result Text
  hash_password [] = err value_error
  hash_password (c ∷ s) = checked (ph.hash (c ∷ s))

  unfoldable pub verify_password : Text → Text → Bool
  verify_password plain hashed =
      if is_argon2_hash hashed then matches (ph.verify hashed plain) else false
