-- ===== src/Auth/Users/Hashed.antt =====
-- Stored passwords.
use pyronites.Base.{
  ℕ, ◌≡◌, Bool, true, false, Text, All, All-append, any, List, [], ◌∷◌, update, if◌then◌else◌,
  arith, Bool-cases, inl, inr, ◌||◌, Option, none, some,
}
use pyronites.Db.{value_error, ok, Exc, integrity_error, user_exists, ◌>>=◌, lift}
use pyronites.Db.Preserves.{
  Preserves, invariant_rules, Preserves-execute, Preserves-bind, Preserves-bind-lift, Preserves-if,
  Preserves-catch, Preserves-pure, Preserves-raise,
}
use pyronites.Auth.{User, AuthDb, has_id, has_email, insert_user}
use pyronites.Auth.Passwords.{Hasher, is_argon2_hash, hash_password}
use pyronites.Auth.Users.{
  create_user, add_if_new, add_user, set_user_password, update_user, on_insert_error, new_user,
  get_user_by_email,
}

-- no account has a password that is not an Argon2 hash
abbrev pub IsHashed : AuthDb → Type 0
IsHashed db = All (λ u. is_argon2_hash u.password_hash ≡ true) db.users

All-update :
    (P : User → Type 0) (p : User → Bool) (f : User → User) (us : List User)
    → ((u : User) → P u → P (f u))
    → All P us
    → All P (update p f us)
unfolding update
All-update P p f [] k h = tt
All-update P p f (u ∷ us) k h = (go (p u), All-update P p f us k h.1)
  where
    go : (b : Bool) → P (if b then f u else u)
    go true = k u h.0
    go false = h.0

update_user-IsHashed :
    (id : Text) (f : User → User)
    → ((u : User)
        → is_argon2_hash u.password_hash ≡ true
        → is_argon2_hash (f u).password_hash ≡ true)
    → Preserves IsHashed (update_user id f)
unfolding update_user
update_user-IsHashed id f k = Preserves-execute _ (λ db h. All-update _ (has_id id) f db.users k h)

insert_user-IsHashed :
    (u : User) (db : AuthDb)
    → is_argon2_hash u.password_hash ≡ true
    → IsHashed db
    → IsHashed (insert_user u db).1
unfolding insert_user
insert_user-IsHashed u db k h =
    elim (Bool-cases (any (λ v. has_id u.id v || has_email u.email v) db.users)) [
      | inl old ↦ rw old h
      | inr new ↦ rw new (All-append _ db.users (u ∷ []) h (k, tt))
    ]

on_insert_error-IsHashed : (e : Exc) → Preserves IsHashed (on_insert_error e)
on_insert_error-IsHashed integrity_error = Preserves-raise user_exists
on_insert_error-IsHashed _ = record { kept = λ w h. h }

module _ (ph : Hasher) where
  hash_password-IsHashed :
      (plain hashed : Text) → hash_password ph plain ≡ ok hashed → is_argon2_hash hashed ≡ true
  unfolding hash_password
  hash_password-IsHashed [] hashed h = ground arith
  hash_password-IsHashed (c ∷ s) hashed h = ground arith

  add_user-IsHashed :
      (id : Text) (now : ℕ) (email plain : Text)
      → Preserves IsHashed (add_user ph id now email plain)
  unfolding add_user
  add_user-IsHashed id now email plain = Preserves-bind-lift (hash_password ph plain) _ λ hashed e.
      Preserves-bind _ _
        (Preserves-catch _ _
          (Preserves-execute _ (λ db h.
            insert_user-IsHashed (new_user id email hashed now) db
              (hash_password-IsHashed plain hashed e) h))
          on_insert_error-IsHashed)
        (λ _. Preserves-pure (new_user id email hashed now))

  add_if_new-IsHashed :
      (id : Text) (now : ℕ) (email plain : Text) (o : Option User)
      → Preserves IsHashed (add_if_new ph id now email plain o)
  unfolding add_if_new
  add_if_new-IsHashed id now email plain none = add_user-IsHashed id now email plain
  add_if_new-IsHashed id now email plain (some u) = Preserves-raise user_exists

  get_user_by_email-IsHashed : (email : Text) → Preserves IsHashed (get_user_by_email email)
  unfolding get_user_by_email
  get_user_by_email-IsHashed email = Preserves-execute _ (λ db h. h)

  -- Whichever statements fail, `create_user` keeps every stored password an Argon2 hash.
  create_user-IsHashed :
      (id : Text) (now : ℕ) (email plain : Text)
      → Preserves IsHashed (create_user ph id now email plain)
  unfolding create_user
  create_user-IsHashed id now email plain =
      search (invariant_rules, get_user_by_email-IsHashed, add_if_new-IsHashed) depth 8

  -- Whichever statements fail, `set_user_password` keeps every stored password an Argon2 hash.
  set_user_password-IsHashed :
      (id plain : Text) → Preserves IsHashed (set_user_password ph id plain)
  unfolding set_user_password
  set_user_password-IsHashed id plain =
      let set_hash = λ (hashed : Text). update_user id (λ u. record u { password_hash = hashed }) in
      let stores : Preserves IsHashed (lift (hash_password ph plain) >>= set_hash) =
        Preserves-bind-lift (hash_password ph plain) set_hash
          (λ hashed e. update_user-IsHashed id _ (λ u k. hash_password-IsHashed plain hashed e)) in
      Preserves-if _ _ _ (Preserves-raise value_error) stores
