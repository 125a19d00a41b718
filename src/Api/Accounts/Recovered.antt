-- ===== src/Api/Accounts/Recovered.antt =====
-- backend/api/auth.py: what a reset of the password does.
use pyronites.Base.{
  ℕ, ◌≡◌, ◌≢◌, ◌≤◌, ◌∙◌, ap, sym, subst, refl, arith, Bool, true, false, Option, none, some, List,
  Text, strip, Bool-cases, inl, inr, first, leb, length, if◌then◌else◌,
}
use pyronites.Db.{
  Exc, ok, is_database_error, http_exception, Conn, Exec, raise, lift, catch, ◌>>=◌, ◌>>◌,
}
use pyronites.Db.Transaction.{bind_returned, catch_returned}
use pyronites.Auth.{User, ResetRow, AuthDb, has_id, has_hash}
use pyronites.Auth.Passwords.{hash_password}
use pyronites.Auth.Users.{set_user_password}
use pyronites.Auth.Users.Changed.{set_user_password_stored}
use pyronites.Auth.Sessions.{validate_session, revoke_all_sessions_for_user}
use pyronites.Auth.Sessions.Lifecycle.{users-revoke_all, validate_session-revoke_all}
use pyronites.Auth.ResetTokens.{is_unused, consume_reset_token}
use pyronites.Auth.ResetTokens.Use.{consume_reset_token_sound, users-consume_reset_token}
use pyronites.Api.Accounts.{Platform, Setting, in_users, put_auth}
use pyronites.Api.Accounts.Recovery.{
  reset_body, check_length, or_invalid, on_consume_error, on_update_error, change_password,
  reset_password,
}

-- no session opens an account of this id, at any time and whatever fails
abbrev pub IsClosed : Setting → Platform → Text → Type 0
IsClosed px p id =
    (later : ℕ) (token : Text) (faults : List (Option Exc)) (u : User)
    → (validate_session px.sha256 later token (record { tables = p.auth; faults = faults })).0
      ≡ ok (some u)
    → u.id ≢ id

-- the account's password is now that one
abbrev pub IsChanged : Setting → AuthDb → AuthDb → Text → Text → Type 0
IsChanged px before after id password =
    (hashed : Text) × (u : User) × (hash_password px.ph password ≡ ok hashed)
    × (first (has_id id) before.users ≡ some u)
    × (first (has_id id) after.users ≡ some (record u { password_hash = hashed }))

raises_update : (e : Exc) (v : Conn Platform) → (on_update_error e v).0 ≢ ok tt
raises_update e v h = absurd (ground arith)

raises_consume : (o : Option Text) (e : Exc) (v : Conn Platform) → (on_consume_error e v).0 ≢ ok o
raises_consume o e v h = elim (Bool-cases (is_database_error e)) [
  | inl t ↦ absurd (ground arith)
  | inr f ↦ absurd (ground arith)
]

checked_length :
    (password : Text) (w : Conn Platform)
    → (check_length password w).0 ≡ ok tt
    → (check_length password w).1 ≡ w
checked_length password w h = elim (Bool-cases (leb 8 (length password))) [
  | inl t ↦ rw t refl
  | inr f ↦ absurd (ground arith)
]

module _ (px : Setting) where
  revoking : Text → Bool → Exec Platform (Unit {0})
  revoking id updated =
      if updated
      then in_users (revoke_all_sessions_for_user px.sha256 id)
      else raise (http_exception 400)

  revoking_sound :
      (id : Text) (updated : Bool) (v : Conn Platform)
      → (revoking id updated v).0 ≡ ok tt
      → (updated ≡ true)
        × IsClosed px (revoking id updated v).1.tables id
        × ((revoking id updated v).1.tables.auth.users ≡ v.tables.auth.users)
  unfolding revoking put_auth
  revoking_sound id false v h = absurd (ground arith)
  revoking_sound id true v h =
      let w : Conn AuthDb = record { tables = v.tables.auth; faults = v.faults } in
      (
        refl,
        λ later token faults u k.
            validate_session-revoke_all px.sha256 later token id w faults u h k,
        users-revoke_all px.sha256 id w,
      )

  change_password_sound :
      (now : ℕ) (id password : Text) (w : Conn Platform)
      → (change_password px now id password w).0 ≡ ok tt
      → IsChanged px w.tables.auth (change_password px now id password w).1.tables.auth id password
        × IsClosed px (change_password px now id password w).1.tables id
  unfolding change_password put_auth revoking
  change_password_sound now id password w h =
      let set = in_users (set_user_password px.ph id password) in
      let act = set >>= revoking id in
      let (got, after) = catch_returned act on_update_error w tt raises_update h in
      let (updated, is_set, rest, same) = bind_returned set (revoking id) w tt got in
      let (done, closed, users) = revoking_sound id updated (set w).1 rest in
      let (hashed, u, is_hash, there, found) =
        set_user_password_stored px.ph id password
          (record { tables = w.tables.auth; faults = w.faults }) (is_set ∙ ap ok done) in
      let end = after ∙ same in
      (
        (
          hashed,
          u,
          is_hash,
          there,
          ap (λ v. first (has_id id) v.tables.auth.users) end
              ∙ ap (first (has_id id)) users
              ∙ found,
        ),
        subst (λ v. IsClosed px v.tables id) (sym end) closed,
      )

  valid_owner :
      (now : ℕ) (owner : Option Text) (password : Text) (w : Conn Platform)
      → ((or_invalid owner >>= λ id. change_password px now id password) w).0 ≡ ok tt
      → (id : Text) × (owner ≡ some id)
        × ((change_password px now id password w).0 ≡ ok tt)
        × (((or_invalid owner >>= λ id. change_password px now id password) w).1
            ≡ (change_password px now id password w).1)
  valid_owner now none password w h = absurd (ground arith)
  valid_owner now (some id) password w h = (id, refl, h, refl)

  -- A reset that is answered has used an unused token that had not expired. The account that the token
  -- was made for then has the hash of the new password, and no session opens it any more, whatever
  -- statements fail later.
  pub reset_password_sound :
      (now : ℕ) (token password : Text) (w : Conn Platform)
      → (reset_password px now token password w).0 ≡ ok tt
      → (r : ResetRow) × (first (has_hash (px.sha256 (strip token))) w.tables.auth.reset_tokens
          ≡ some r)
        × (is_unused r ≡ true)
        × (now ≤ r.expires_at)
        × IsChanged px w.tables.auth
            (reset_password px now token password w).1.tables.auth
            r.user_id
            password
        × IsClosed px (reset_password px now token password w).1.tables r.user_id
  unfolding reset_password put_auth
  reset_password_sound now token password w h =
      let consume = catch (in_users (consume_reset_token px.sha256 now token)) on_consume_error in
      let tail =
        λ (owner : Option Text). or_invalid owner >>= λ id. change_password px now id password in
      let (_, _, h1, e1) =
        bind_returned (lift (reset_body token password))
          (λ _. check_length password >> (consume >>= tail)) w tt h in
      let (_, long, h2, e2) =
        bind_returned (check_length password) (λ _. consume >>= tail) w tt h1 in
      let same = checked_length password w long in
      let (owner, known, h3, e3) =
        bind_returned consume tail w tt (subst (λ v. ((consume >>= tail) v).0 ≡ ok tt) same h2) in
      let (got, after) =
        catch_returned (in_users (consume_reset_token px.sha256 now token)) on_consume_error w owner
          (raises_consume owner) known in
      let (id, is_id, changed, e4) = valid_owner now owner password (consume w).1 h3 in
      let end = e1 ∙ e2 ∙ ap (λ v. ((consume >>= tail) v).1) same ∙ e3 ∙ e4 in
      let auth : Conn AuthDb = record { tables = w.tables.auth; faults = w.faults } in
      let users =
        ap (λ v. v.tables.auth.users) after ∙ users-consume_reset_token px.sha256 now token auth in
      let (r, found, unused, fresh, owned) =
        consume_reset_token_sound px.sha256 now token auth id (got ∙ ap ok is_id) in
      let ((hashed, u, is_hash, there, stored), closed) =
        change_password_sound now id password (consume w).1 changed in
      let v = (reset_password px now token password w).1.tables in
      let new : IsChanged px w.tables.auth v.auth id password = (
        hashed,
        u,
        is_hash,
        ap (first (has_id id)) (sym users) ∙ there,
        ap (λ x. first (has_id id) x.tables.auth.users) end ∙ stored,
      ) in
      let shut : IsClosed px v id = subst (λ x. IsClosed px x.tables id) (sym end) closed in
      (
        r,
        found,
        unused,
        fresh,
        subst (λ i. IsChanged px w.tables.auth v.auth i password) owned new,
        subst (IsClosed px v) owned shut,
      )
