-- ===== src/Auth/Oauth/Links.antt =====
-- A provider's account keeps the user it was linked to.
use pyronites.Base.{
  ℕ, ◌≡◌, refl, arith, inl, inr, Option, none, some, [], ◌∷◌, Text, text_eq, first,
  first-append_found, first-update, Option-cases,
}
use pyronites.Db.{Exc, oauth_error, integrity_error, user_exists}
use pyronites.Db.Preserves.{
  Preserves, invariant_rules, Preserves-execute, Preserves-bind, Preserves-bind-lift,
  Preserves-catch, Preserves-pure, Preserves-raise,
}
use pyronites.Auth.{User, AuthDb, Identity, insert_user}
use pyronites.Auth.Passwords.{Hasher, hash_password}
use pyronites.Auth.Users.{
  get_user_by_id, get_user_by_email, create_user, add_if_new, add_user, new_user, on_insert_error,
}
use pyronites.Auth.Oauth.Profile.{Profile}
use pyronites.Auth.Oauth.Resolve.{
  is_link, owner_of, select_identity, get_identity, insert_identity, update_identity,
  write_identity, refreshed, upsert_identity, Outcome, signed_in, linked, Fresh, attach, adopt,
  returning, create_user_for_oauth, by_address, by_profile, by_link, resolve_oauth_user,
}

module _ (ph : Hasher) (site id user_id : Text) where
  -- the account `id` of the provider `site` is linked to the user
  abbrev pub Linked : AuthDb → Type 0
  Linked db = owner_of (first (is_link site id) db.identities) ≡ some user_id

  insert_identity-Linked :
      (i : Identity) (db : AuthDb) → Linked db → Linked (insert_identity i db).1
  unfolding insert_identity
  insert_identity-Linked i db h = elim (Option-cases (first (is_link site id) db.identities)) [
    | inl unlinked ↦ absurd (ground arith)
    | inr (r, found) ↦
        ground (arith, first-append_found (is_link site id) db.identities (i ∷ []) r found)
  ]

  update_identity-Linked : (key : Text) (p : Profile) → Preserves Linked (update_identity key p)
  unfolding update_identity
  update_identity-Linked key p = Preserves-execute _ λ db h.
      elim (Option-cases (first (is_link site id) db.identities)) [
        | inl unlinked ↦ absurd (ground arith)
        | inr (r, found) ↦ ground (
          arith,
          first-update (is_link site id) (λ i. text_eq i.id key) (refreshed p) db.identities r
              (λ y. refl) found,
        )
      ]

  write_identity-Linked :
      (i : Identity) (p : Profile) (o : Option Identity) → Preserves Linked (write_identity i p o)
  unfolding write_identity
  write_identity-Linked i p none = Preserves-execute _ (insert_identity-Linked i)
  write_identity-Linked i p (some r) = update_identity-Linked r.id p

  select_identity-Linked : (provider key : Text) → Preserves Linked (select_identity provider key)
  unfolding select_identity
  select_identity-Linked provider key = Preserves-execute _ (λ db h. h)

  upsert_identity-Linked :
      (key : Text) (now : ℕ) (owner provider : Text) (p : Profile)
      → Preserves Linked (upsert_identity key now owner provider p)
  unfolding upsert_identity
  upsert_identity-Linked key now owner provider p =
      search (invariant_rules, select_identity-Linked, write_identity-Linked) depth 8

  insert_user-Linked : (u : User) (db : AuthDb) → Linked db → Linked (insert_user u db).1
  unfolding insert_user
  insert_user-Linked u db h = ground arith

  on_insert_error-Linked : (e : Exc) → Preserves Linked (on_insert_error e)
  on_insert_error-Linked integrity_error = Preserves-raise user_exists
  on_insert_error-Linked _ = record { kept = λ w h. h }

  add_user-Linked :
      (key : Text) (now : ℕ) (email plain : Text)
      → Preserves Linked (add_user ph key now email plain)
  unfolding add_user
  add_user-Linked key now email plain = Preserves-bind-lift (hash_password ph plain) _ λ hashed e.
      Preserves-bind _ _
        (Preserves-catch _ _
          (Preserves-execute _ (insert_user-Linked (new_user key email hashed now)))
          on_insert_error-Linked)
        (λ _. Preserves-pure (new_user key email hashed now))

  add_if_new-Linked :
      (key : Text) (now : ℕ) (email plain : Text) (o : Option User)
      → Preserves Linked (add_if_new ph key now email plain o)
  unfolding add_if_new
  add_if_new-Linked key now email plain none = add_user-Linked key now email plain
  add_if_new-Linked key now email plain (some u) = Preserves-raise user_exists

  get_user_by_email-Linked : (email : Text) → Preserves Linked (get_user_by_email email)
  unfolding get_user_by_email
  get_user_by_email-Linked email = Preserves-execute _ (λ db h. h)

  get_user_by_id-Linked : (key : Text) → Preserves Linked (get_user_by_id key)
  unfolding get_user_by_id
  get_user_by_id-Linked key = Preserves-execute _ (λ db h. h)

  create_user-Linked :
      (key : Text) (now : ℕ) (email plain : Text)
      → Preserves Linked (create_user ph key now email plain)
  unfolding create_user
  create_user-Linked key now email plain =
      search (invariant_rules, get_user_by_email-Linked, add_if_new-Linked) depth 8

  get_identity-Linked : (provider key : Text) → Preserves Linked (get_identity provider key)
  unfolding get_identity
  get_identity-Linked provider key = search (invariant_rules, select_identity-Linked) depth 8

  module _ (fresh : Fresh) (provider : Text) (p : Profile) where
    attach-Linked :
        (u : User) (outcome : Outcome) → Preserves Linked (attach ph fresh provider p u outcome)
    attach-Linked u outcome = search (invariant_rules, upsert_identity-Linked) depth 8

    adopt-Linked :
        (outcome : Outcome) (u : User) → Preserves Linked (adopt ph fresh provider p outcome u)
    unfolding adopt
    adopt-Linked outcome u = search (invariant_rules, attach-Linked) depth 8

    returning-Linked : (o : Option User) → Preserves Linked (returning ph fresh provider p o)
    returning-Linked none = Preserves-raise oauth_error
    returning-Linked (some u) = adopt-Linked signed_in u

    create_user_for_oauth-Linked :
        (email : Text) → Preserves Linked (create_user_for_oauth ph fresh provider p email)
    unfolding create_user_for_oauth
    create_user_for_oauth-Linked email = create_user-Linked _ _ email _

    by_address-Linked :
        (email : Text) (o : Option User) → Preserves Linked (by_address ph fresh provider p email o)
    unfolding by_address
    by_address-Linked email none =
        search (invariant_rules, create_user_for_oauth-Linked, attach-Linked) depth 8
    by_address-Linked email (some u) = adopt-Linked linked u

    by_profile-Linked : (o : Option Text) → Preserves Linked (by_profile ph fresh provider p o)
    unfolding by_profile
    by_profile-Linked none = Preserves-raise oauth_error
    by_profile-Linked (some []) = Preserves-raise oauth_error
    by_profile-Linked (some (c ∷ s)) =
        search (invariant_rules, get_user_by_email-Linked, by_address-Linked) depth 8

    by_link-Linked : (o : Option Text) → Preserves Linked (by_link ph fresh provider p o)
    unfolding by_link
    by_link-Linked none = by_profile-Linked p.email
    by_link-Linked (some []) = by_profile-Linked p.email
    by_link-Linked (some (c ∷ s)) =
        search (invariant_rules, get_user_by_id-Linked, returning-Linked) depth 8

    -- Whatever profile any provider returns, and whichever statements fail, `resolve_oauth_user` leaves
    -- a provider's account that is linked to a user linked to that user.
    pub resolve_oauth_user-Linked : Preserves Linked (resolve_oauth_user ph fresh provider p)
    unfolding resolve_oauth_user
    resolve_oauth_user-Linked =
        search (invariant_rules, get_identity-Linked, by_link-Linked) depth 8
