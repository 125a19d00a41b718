-- ===== src/Auth/Oauth/Resolve.antt =====
-- backend/auth/oauth.py: identities, and `resolve_oauth_user`.
use pyronites.Base.{
  ℕ, Bool, false, not, ◌&&◌, ◌||◌, Option, none, some, List, [], ◌∷◌, ◌++◌, map, Text, text_eq,
  first, keep, update, any, leb, if◌then◌else◌,
}
use pyronites.Db.{
  Result, ok, err, integrity_error, oauth_error, is_database_error, Exec, pure, raise, execute,
  catch, ◌>>=◌, ◌>>◌,
}
use pyronites.Auth.{User, AuthDb, Identity, has_id}
use pyronites.Auth.Passwords.{Hasher}
use pyronites.Auth.Users.{get_user_by_id, get_user_by_email, create_user}
use pyronites.Auth.Oauth.Profile.{Profile}

abbrev pub is_link : Text → Text → Identity → Bool
is_link provider id i = text_eq i.provider provider && text_eq i.provider_user_id id

unfoldable pub select_identity : Text → Text → Exec AuthDb (Option Identity)
select_identity provider id = execute (λ db. (ok (first (is_link provider id) db.identities), db))

abbrev pub owner_of : Option Identity → Option Text
owner_of none = none
owner_of (some i) = some i.user_id

-- get_identity
unfoldable pub get_identity : Text → Text → Exec AuthDb (Option Text)
unfolding select_identity
get_identity provider id = do row ← select_identity provider id; pure (owner_of row)

-- INSERT INTO oauth_identities: `id` is the primary key, UNIQUE (provider, provider_user_id)
unfoldable pub insert_identity : Identity → AuthDb → Result (Unit {0}) × AuthDb
insert_identity i db =
    if any (λ r. text_eq r.id i.id || is_link i.provider i.provider_user_id r) db.identities
      || not (any (has_id i.user_id) db.users)
    then (err integrity_error, db)
    else (ok tt, record db { identities = db.identities ++ i ∷ [] })

-- the columns of the profile; `updated_at`, which nothing reads, is left out
abbrev pub refreshed : Profile → Identity → Identity
refreshed p i = record i {
  email = p.email;
  email_verified = p.email_verified;
  display_name = p.display_name;
  avatar_url = p.avatar_url;
}

abbrev pub new_identity : Text → ℕ → Text → Text → Profile → Identity
new_identity id now user_id provider p = record {
  id = id;
  user_id = user_id;
  provider = provider;
  provider_user_id = p.provider_user_id;
  email = p.email;
  email_verified = p.email_verified;
  display_name = p.display_name;
  avatar_url = p.avatar_url;
  created_at = now;
}

unfoldable pub update_identity : Text → Profile → Exec AuthDb (Unit {0})
update_identity id p = execute (λ db.
    (ok tt, record db { identities = update (λ i. text_eq i.id id) (refreshed p) db.identities }))

unfoldable pub write_identity : Identity → Profile → Option Identity → Exec AuthDb (Unit {0})
unfolding insert_identity update_identity
write_identity i p none = execute (insert_identity i)
write_identity i p (some r) = update_identity r.id p

-- upsert_identity; `id` is the new uuid
unfoldable pub upsert_identity : Text → ℕ → Text → Text → Profile → Exec AuthDb (Unit {0})
unfolding write_identity select_identity
upsert_identity id now user_id provider p = do
  row ← select_identity provider p.provider_user_id
  write_identity (new_identity id now user_id provider p) p row

-- ORDER BY created_at
unfoldable pub insert_oldest : Identity → List Identity → List Identity
insert_oldest i [] = i ∷ []
insert_oldest i (j ∷ js) =
    if leb i.created_at j.created_at then i ∷ j ∷ js else j ∷ insert_oldest i js

unfoldable pub by_oldest : List Identity → List Identity
unfolding insert_oldest
by_oldest [] = []
by_oldest (i ∷ is) = insert_oldest i (by_oldest is)

-- list_identities_for_user: provider, address and time of each
unfoldable pub list_identities_for_user : Text → Exec AuthDb (List (Text × Option Text × ℕ))
unfolding by_oldest
list_identities_for_user user_id = execute (λ db. (
  ok (
      map (λ i. (i.provider, i.email, i.created_at))
        (by_oldest (keep (λ i. text_eq i.user_id user_id) db.identities))),
  db,
))

-- get_verified_email_status
unfoldable pub get_verified_email_status : Text → Exec AuthDb Bool
get_verified_email_status user_id =
    catch
      (execute
        (λ db. (ok (any (λ i. text_eq i.user_id user_id && i.email_verified) db.identities), db)))
      (λ e. if is_database_error e then pure false else raise e)

pub data Outcome : Type 0 where
  signed_in linked created : Outcome

pub record Resolution : Type 0 where
  pub user : User
  pub outcome : Outcome

-- The new uuids of an identity and of a user, the clock, and the random secret.
pub record Fresh : Type 0 where
  pub identity : Text
  pub user : Text
  pub now : ℕ
  pub secret : Text

module _ (ph : Hasher) (fresh : Fresh) (provider : Text) (p : Profile) where
  abbrev pub attach : User → Outcome → Exec AuthDb Resolution
  attach u outcome = do
    upsert_identity fresh.identity fresh.now u.id provider p
    pure (record { user = u; outcome = outcome })

  -- an account that is there; a disabled one is refused
  unfoldable pub adopt : Outcome → User → Exec AuthDb Resolution
  unfolding upsert_identity
  adopt outcome u = if u.is_active then attach u outcome else raise oauth_error

  abbrev pub returning : Option User → Exec AuthDb Resolution
  returning none = raise oauth_error
  returning (some u) = adopt signed_in u

  -- _create_user_for_oauth
  unfoldable pub create_user_for_oauth : Text → Exec AuthDb User
  unfolding create_user
  create_user_for_oauth email = create_user ph fresh.user fresh.now email fresh.secret

  unfoldable pub by_address : Text → Option User → Exec AuthDb Resolution
  unfolding adopt create_user_for_oauth
  by_address email (some u) = adopt linked u
  by_address email none = do u ← create_user_for_oauth email; attach u created

  unfoldable pub by_profile : Option Text → Exec AuthDb Resolution
  unfolding by_address get_user_by_email
  by_profile none = raise oauth_error
  by_profile (some []) = raise oauth_error
  by_profile (some (c ∷ s)) =
      let email = c ∷ s in
      if p.email_verified
      then (do existing ← get_user_by_email email; by_address email existing)
      else raise oauth_error

  unfoldable pub by_link : Option Text → Exec AuthDb Resolution
  unfolding adopt by_profile get_user_by_id
  by_link none = by_profile p.email
  by_link (some []) = by_profile p.email
  by_link (some (c ∷ s)) = do existing ← get_user_by_id (c ∷ s); returning existing

  -- resolve_oauth_user
  unfoldable pub resolve_oauth_user : Exec AuthDb Resolution
  unfolding by_link get_identity
  resolve_oauth_user = do owner ← get_identity provider p.provider_user_id; by_link owner
