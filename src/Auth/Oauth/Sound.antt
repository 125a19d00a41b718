-- ===== src/Auth/Oauth/Sound.antt =====
-- Which account a provider's profile opens.
use pyronites.Base.{
  ℕ, ◌≡◌, ◌∙◌, ◌⊎◌, inl, inr, refl, arith, true, Option, none, some, List, [], ◌∷◌, Text, lower,
  first, Bool-cases, Option-cases,
}
use pyronites.Db.{ok, Conn, execute, ◌>>=◌}
use pyronites.Db.Transaction.{bind_returned}
use pyronites.Auth.{User, AuthDb, Identity, has_id, has_email}
use pyronites.Auth.Passwords.{Hasher}
use pyronites.Auth.Users.{get_user_by_id, get_user_by_email, create_user, add_if_new, add_user}
use pyronites.Auth.Oauth.Profile.{Profile}
use pyronites.Auth.Oauth.Resolve.{
  is_link, owner_of, select_identity, get_identity, Outcome, signed_in, linked, created, Resolution,
  Fresh, attach, adopt, returning, create_user_for_oauth, by_address, by_profile, by_link,
  resolve_oauth_user,
}

module _ (ph : Hasher) (fresh : Fresh) (provider : Text) (p : Profile) where
  attached :
      (u : User) (outcome : Outcome) (w : Conn AuthDb) (r : Resolution)
      → (attach ph fresh provider p u outcome w).0 ≡ ok r
      → r.user ≡ u
  attached u outcome w r h = ground arith

  adopted :
      (outcome : Outcome) (u : User) (w : Conn AuthDb) (r : Resolution)
      → (adopt ph fresh provider p outcome u w).0 ≡ ok r
      → (r.user ≡ u) × (u.is_active ≡ true)
  unfolding adopt
  adopted outcome u w r h = elim (Bool-cases u.is_active) [
    | inl live ↦ (attached u outcome w r (ground arith), live)
    | inr dead ↦ absurd (ground arith)
  ]

  -- the link was there, and names the account
  abbrev pub ByLink : AuthDb → User → Type 0
  ByLink db u =
      (i : Identity) × (first (is_link provider p.provider_user_id) db.identities ≡ some i)
      × (first (has_id i.user_id) db.users ≡ some u)

  -- the provider vouches for the address, which the account has, or which was in no account
  abbrev pub ByAddress : AuthDb → User → Type 0
  ByAddress db u =
      (email : Text) × (p.email ≡ some email)
      × (p.email_verified ≡ true)
      × ((first (has_email (lower email)) db.users ≡ some u)
          ⊎ ((first (has_email (lower email)) db.users ≡ none) × (u.email ≡ lower email)))

  user_of :
      (id : Text) (w : Conn AuthDb) (o : Option User)
      → (get_user_by_id id w).0 ≡ ok o
      → first (has_id id) w.tables.users ≡ o
  unfolding get_user_by_id execute
  user_of id w o h = ground arith

  user_of_email :
      (email : Text) (w : Conn AuthDb) (o : Option User)
      → (get_user_by_email email w).0 ≡ ok o
      → (first (has_email (lower email)) w.tables.users ≡ o)
        × ((get_user_by_email email w).1.tables ≡ w.tables)
  unfolding get_user_by_email execute
  user_of_email email w o h = (ground arith, ground arith)

  link_of :
      (w : Conn AuthDb) (o : Option Text)
      → (get_identity provider p.provider_user_id w).0 ≡ ok o
      → (owner_of (first (is_link provider p.provider_user_id) w.tables.identities) ≡ o)
        × ((get_identity provider p.provider_user_id w).1.tables ≡ w.tables)
  unfolding get_identity select_identity execute
  link_of w o h = (ground arith, ground arith)

  added :
      (id : Text) (now : ℕ) (email plain : Text) (w : Conn AuthDb) (u : User)
      → (add_user ph id now email plain w).0 ≡ ok u
      → (u.email ≡ email) × (u.is_active ≡ true)
  unfolding add_user
  added id now email plain w u h = ground arith

  added_if_new :
      (id : Text) (now : ℕ) (email plain : Text) (o : Option User) (w : Conn AuthDb) (u : User)
      → (add_if_new ph id now email plain o w).0 ≡ ok u
      → (u.email ≡ email) × (u.is_active ≡ true)
  unfolding add_if_new
  added_if_new id now email plain none w u h = added id now email plain w u h
  added_if_new id now email plain (some v) w u h = absurd (ground arith)

  looked_up :
      (id : Text) (now : ℕ) (email plain : Text) (w : Conn AuthDb) (u : User)
      → ((get_user_by_email email >>= add_if_new ph id now email plain) w).0 ≡ ok u
      → (u.email ≡ email) × (u.is_active ≡ true)
  looked_up id now email plain w u h =
      let (o, _, got, _) =
        bind_returned (get_user_by_email email) (add_if_new ph id now email plain) w u h in
      added_if_new id now email plain o _ u got

  made :
      (id : Text) (now : ℕ) (email plain : Text) (w : Conn AuthDb) (u : User)
      → (create_user ph id now email plain w).0 ≡ ok u
      → (u.email ≡ lower email) × (u.is_active ≡ true)
  unfolding create_user
  made id now email plain w u h = ground (arith, looked_up id now (lower email) plain w u)

  returned_user :
      (o : Option User) (w : Conn AuthDb) (r : Resolution)
      → (returning ph fresh provider p o w).0 ≡ ok r
      → (u : User) × (o ≡ some u) × (u.is_active ≡ true) × (r.user ≡ u)
  returned_user none w r h = absurd (ground arith)
  returned_user (some u) w r h =
      let (same, live) = adopted signed_in u w r h in (u, refl, live, same)

  module _ where
    by_address_sound :
        (w : Conn AuthDb) (r : Resolution) (email : Text) (o : Option User) (users : List User)
        → first (has_email (lower email)) users ≡ o
        → (by_address ph fresh provider p email o w).0 ≡ ok r
        → (r.user.is_active ≡ true)
          × ((first (has_email (lower email)) users ≡ some r.user)
              ⊎ ((first (has_email (lower email)) users ≡ none) × (r.user.email ≡ lower email)))
    unfolding by_address create_user_for_oauth
    by_address_sound w r email (some u) users found h =
        let (same, live) = adopted linked u w r h in ground arith
    by_address_sound w r email none users found h =
        let (u, there, rest, _) =
          bind_returned (create_user_for_oauth ph fresh provider p email)
            (λ u. attach ph fresh provider p u created) w r h in
        let (name, live) = made fresh.user fresh.now email fresh.secret w u there in
        let same = attached u created _ r rest in ground arith

  module _ (w : Conn AuthDb) (r : Resolution) where
    looked_up_sound :
        (email : Text)
        → p.email ≡ some email
        → p.email_verified ≡ true
        → ((get_user_by_email email >>= by_address ph fresh provider p email) w).0 ≡ ok r
        → (r.user.is_active ≡ true) × ByAddress w.tables r.user
    looked_up_sound email e vouch h =
        let (o, there, rest, _) =
          bind_returned (get_user_by_email email) (by_address ph fresh provider p email) w r h in
        let (found, same) = user_of_email email w o there in
        let (live, which) = by_address_sound _ r email o w.tables.users found rest in
        (live, (email, e, vouch, which))

    by_profile_sound :
        (email : Option Text)
        → p.email ≡ email
        → (by_profile ph fresh provider p email w).0 ≡ ok r
        → (r.user.is_active ≡ true) × ByAddress w.tables r.user
    unfolding by_profile
    by_profile_sound none e h = absurd (ground arith)
    by_profile_sound (some []) e h = absurd (ground arith)
    by_profile_sound (some (c ∷ s)) e h = elim (Bool-cases p.email_verified) [
      | inl vouch ↦ looked_up_sound (c ∷ s) e vouch (ground arith)
      | inr doubt ↦ absurd (ground arith)
    ]

    by_link_sound :
        (o : Option Text)
        → owner_of (first (is_link provider p.provider_user_id) w.tables.identities) ≡ o
        → (by_link ph fresh provider p o w).0 ≡ ok r
        → (r.user.is_active ≡ true) × (ByLink w.tables r.user ⊎ ByAddress w.tables r.user)
    unfolding by_link
    by_link_sound none e h = let (live, how) = by_profile_sound p.email refl h in (live, inr how)
    by_link_sound (some []) e h =
        let (live, how) = by_profile_sound p.email refl h in (live, inr how)
    by_link_sound (some (c ∷ s)) e h =
        let (o, there, rest, _) =
          bind_returned (get_user_by_id (c ∷ s)) (returning ph fresh provider p) w r h in
        let found = user_of (c ∷ s) w o there in
        let (u, some_o, live, same) = returned_user o _ r rest in
        elim (Option-cases (first (is_link provider p.provider_user_id) w.tables.identities)) [
          | inl unlinked ↦ absurd (ground arith)
          | inr (i, at_link) ↦
              let name : i.user_id ≡ c ∷ s = ground arith in
              (ground arith, inl (i, at_link, rw name (rw same (found ∙ some_o))))
        ]

  -- Whenever a provider's profile opens an account, the account is active, and either the very link of
  -- the provider's id names it, or the provider vouches for the address and the address is that of
  -- the account, or was in no account and the account is a new one with it.
  pub resolve_oauth_user_sound :
      (w : Conn AuthDb) (r : Resolution)
      → (resolve_oauth_user ph fresh provider p w).0 ≡ ok r
      → (r.user.is_active ≡ true) × (ByLink w.tables r.user ⊎ ByAddress w.tables r.user)
  unfolding resolve_oauth_user
  resolve_oauth_user_sound w r h =
      let (o, there, rest, _) =
        bind_returned (get_identity provider p.provider_user_id) (by_link ph fresh provider p) w r
          h in
      let (owner, same) = link_of w o there in
      let sound = by_link_sound _ r o (rw same owner) rest in rw same at sound
