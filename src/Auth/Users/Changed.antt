-- ===== src/Auth/Users/Changed.antt =====
-- A change of password.
use pyronites.Base.{
  ◌≡◌, ◌∙◌, ap, ◌||◌, ltb, length, text_eq, if◌then◌else◌, Bool-cases, Bool, true, Text, List, some,
  first, update, any, any-eq-first, first-update, first_sound, text_eq_sound, Option-cases, inl,
  inr, refl, arith,
}
use pyronites.Db.{ok, Conn, Exec, execute, lift}
use pyronites.Db.Transaction.{bind_returned}
use pyronites.Auth.{User, AuthDb, has_id}
use pyronites.Auth.Passwords.{Hasher, hash_password}
use pyronites.Auth.Users.{is_empty, update_user, set_user_password}

-- the first user of an id that some user has
pub first_of_any :
    (id : Text) (us : List User)
    → any (has_id id) us ≡ true
    → (u : User) × (first (has_id id) us ≡ some u) × (u.id ≡ id)
first_of_any id us h = elim (Option-cases (first (has_id id) us)) [
  | inl e ↦ absurd (ground (arith, any-eq-first (has_id id) us e))
  | inr (u, e) ↦ (u, e, text_eq_sound u.id id (first_sound (has_id id) us u e))
]

update_user_found :
    (id : Text) (f : User → User) (w : Conn AuthDb)
    → ((u : User) → (f u).id ≡ u.id)
    → (update_user id f w).0 ≡ ok true
    → (u : User) × (first (has_id id) w.tables.users ≡ some u)
      × (first (has_id id) (update_user id f w).1.tables.users ≡ some (f u))
unfolding update_user execute
update_user_found id f w same h =
    let (known, after) : (any (has_id id) w.tables.users ≡ true)
        × ((update_user id f w).1.tables.users ≡ update (has_id id) f w.tables.users) =
      ground arith in
    let (u, there, _) = first_of_any id w.tables.users known in
    let found =
      first-update (has_id id) (has_id id) f w.tables.users u (λ v. ap (λ i. text_eq i id) (same v))
        there in
    let own : has_id id u ≡ true = first_sound (has_id id) w.tables.users u there in
    (u, there, ap (first (has_id id)) after ∙ found ∙ ap (λ b. some (if b then f u else u)) own)

module _ (ph : Hasher) where
  -- a change that is made stores the hash of the new password in the user's row
  pub set_user_password_stored :
      (id plain : Text) (w : Conn AuthDb)
      → (set_user_password ph id plain w).0 ≡ ok true
      → (hashed : Text) × (u : User) × (hash_password ph plain ≡ ok hashed)
        × (first (has_id id) w.tables.users ≡ some u)
        × (first (has_id id) (set_user_password ph id plain w).1.tables.users
            ≡ some (record u { password_hash = hashed }))
  unfolding set_user_password
  set_user_password_stored id plain w h =
      elim (Bool-cases (is_empty plain || ltb (length plain) 8)) [
        | inl short ↦ absurd (ground arith)
        | inr long ↦
            let write : Text → Exec AuthDb Bool =
              λ hashed. update_user id (λ u. record u { password_hash = hashed }) in
            let (hashed, is_hash, rest, after) =
              bind_returned (lift (hash_password ph plain)) write w true (rw long at h) in
            let (u, there, found) =
              update_user_found id (λ u. record u { password_hash = hashed }) w (λ v. refl) rest in
            (
              hashed,
              u,
              is_hash,
              there,
              rw long (ap (λ v. first (has_id id) v.tables.users) after ∙ found),
            )
      ]
