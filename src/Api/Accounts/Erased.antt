-- ===== src/Api/Accounts/Erased.antt =====
-- backend/api/auth.py: what is left of a deleted account.
use pyronites.Base.{
  ℕ, ◌≡◌, ◌⊎◌, ◌∙◌, ap, sym, subst, refl, arith, inl, inr, not, Bool, true, false, Bool-cases,
  Option, none, some, List, Text, text_eq, lower, first, keep, All, All-map, All-keep_self,
}
use pyronites.Db.{ok, Conn, Exec, pure, execute, ◌>>=◌, ◌>>◌}
use pyronites.Db.Transaction.{bind_returned}
use pyronites.Db.Preserves.{Preserves-pure}
use pyronites.Db.Ensures.{Ensures, Ensures-after, Ensures-then}
use pyronites.Auth.{User, AuthDb, has_id, has_email, delete_user_row}
use pyronites.Auth.Passwords.{verified}
use pyronites.Auth.Users.{delete_user, authenticate_user}
use pyronites.Auth.Users.Login.{authenticate_user_sound}
use pyronites.Auth.Sessions.{revoke_all_sessions_for_user}
use pyronites.Auth.ApiKeys.{list_api_keys}
use pyronites.Projects.{list_projects_for_owner}
use pyronites.Api.AuthDeps.{cookie}
use pyronites.Api.Accounts.{Platform, Setting, in_users, in_registry, in_keys, put_auth}
use pyronites.Api.Accounts.Entry.{Response, or_unauthorized, user_of}
use pyronites.Api.Accounts.Cookie.{deleted}
use pyronites.Api.Accounts.Kept.{found_user}
use pyronites.Api.Accounts.Deletion.{
  DeleteAccountBody, or_bad_request, is_confirmed, is_key_of, delete_projects, revoke_keys, confirm,
  delete_all, delete_confirmed, delete_account,
}

-- no account of this id, and no session, reset token or identity of it
abbrev pub IsErased : Text → AuthDb → Type 0
IsErased id p =
    All (λ u. has_id id u ≡ false) p.users
    × All (λ s. text_eq s.user_id id ≡ false) p.sessions
    × All (λ r. text_eq r.user_id id ≡ false) p.reset_tokens
    × All (λ i. text_eq i.user_id id ≡ false) p.identities

-- the rows that a DELETE leaves
kept_false :
    {A : Type 0} (p : A → Bool) (xs : List A) → All (λ x. p x ≡ false) (keep (λ x. not (p x)) xs)
kept_false p xs =
    All-map _ _ (keep (λ x. not (p x)) xs) (λ x h. ground arith) (All-keep_self (λ x. not (p x)) xs)

delete_user-IsErased :
    (id : Text) (w : Conn AuthDb) (b : Bool)
    → (delete_user id w).0 ≡ ok b
    → IsErased id (delete_user id w).1.tables
unfolding delete_user delete_user_row execute
delete_user-IsErased id w b h =
    let after : (delete_user id w).1.tables ≡ (delete_user_row id w.tables).1 = ground arith in
    subst (IsErased id) (sym after) (
      kept_false (has_id id) w.tables.users,
      kept_false (λ s. text_eq s.user_id id) w.tables.sessions,
      kept_false (λ r. text_eq r.user_id id) w.tables.reset_tokens,
      kept_false (λ i. text_eq i.user_id id) w.tables.identities,
    )

accepted :
    (found : Option User) (w : Conn Platform)
    → (or_bad_request found w).0 ≡ ok tt
    → (u : User) × (found ≡ some u)
accepted none w h = absurd (ground arith)
accepted (some u) w h = (u, refl)

module _ (px : Setting) (now : ℕ) where
  delete_all-IsErased : (u : User) → Ensures (λ p. IsErased u.id p.auth) (delete_all px now u)
  unfolding delete_all put_auth
  delete_all-IsErased u =
      Ensures-after (in_registry (list_projects_for_owner u.id false)) _ (λ projects.
        Ensures-after (delete_projects px now u.id projects) _ (λ _.
          Ensures-after (in_keys (list_api_keys none)) _ (λ keys.
            Ensures-after (revoke_keys px now (keep (is_key_of projects) keys)) _ (λ _.
              Ensures-after (in_users (revoke_all_sessions_for_user px.sha256 u.id)) _ (λ _.
                Ensures-then (in_users (delete_user u.id)) (λ _. pure tt)
                  (record {
                    holds = λ w b h.
                        delete_user-IsErased u.id
                          (record { tables = w.tables.auth; faults = w.faults }) b h;
                  })
                  (λ _. Preserves-pure tt))))))

  -- the password that was given is that of an account of this address, or none was given, and the
  -- address was repeated
  abbrev pub IsConfirmed : DeleteAccountBody → User → AuthDb → Type 0
  IsConfirmed b u db =
      ((cookie b.password ≡ none) × (is_confirmed b u ≡ true))
      ⊎ ((password : Text) × (v : User) × (cookie b.password ≡ some password)
          × (first (has_email (lower u.email)) db.users ≡ some v)
          × (px.ph.verify v.password_hash password ≡ verified))

  confirm_sound :
      (b : DeleteAccountBody) (u : User) (o : Option Text) (w : Conn Platform)
      → cookie b.password ≡ o
      → (confirm px now b u o w).0 ≡ ok tt
      → IsConfirmed b u w.tables.auth
  unfolding confirm
  confirm_sound b u none w e h = elim (Bool-cases (is_confirmed b u)) [
    | inl t ↦ inl (e, t)
    | inr f ↦ absurd (ground arith)
  ]
  confirm_sound b u (some password) w e h =
      let (found, known, rest, _) =
        bind_returned (in_users (authenticate_user px.ph u.email password)) or_bad_request w tt h in
      let (v, is_user) = accepted found _ rest in
      let (there, _, _, right) =
        authenticate_user_sound px.ph u.email password
          (record { tables = w.tables.auth; faults = w.faults }) v (known ∙ ap ok is_user) in
      inr (password, v, e, there, right)

  delete_confirmed_sound :
      (b : DeleteAccountBody) (u : User) (w : Conn Platform) (r : Response (Unit {0}))
      → (delete_confirmed px now b u w).0 ≡ ok r
      → IsConfirmed b u w.tables.auth × IsErased u.id (delete_confirmed px now b u w).1.tables.auth
  unfolding delete_confirmed
  delete_confirmed_sound b u w r h =
      let end : Exec Platform (Response (Unit {0})) =
        pure (record { body = tt; cookie = deleted }) in
      let (_, sure, _, _) =
        bind_returned (confirm px now b u (cookie b.password)) (λ _. delete_all px now u >> end) w r
          h in
      (
        confirm_sound b u (cookie b.password) w refl sure,
        (Ensures-after (confirm px now b u (cookie b.password)) (λ _. delete_all px now u >> end)
              (λ _.
                Ensures-then (delete_all px now u) (λ _. end) (delete_all-IsErased u)
                  (λ _. Preserves-pure _))).holds
            w r h,
      )

  -- A deletion that is answered was asked for with a cookie that opens the account and with a
  -- confirmation; then neither the account nor a session, a reset token or an identity of it is left.
  pub delete_account_erases :
      (b : DeleteAccountBody) (token : Option Text) (w : Conn Platform) (r : Response (Unit {0}))
      → (delete_account px now b token w).0 ≡ ok r
      → (u : User) × ((user_of px now (cookie token) w).0 ≡ ok (some u))
        × IsConfirmed b u (user_of px now (cookie token) w).1.tables.auth
        × IsErased u.id (delete_account px now b token w).1.tables.auth
  unfolding delete_account
  delete_account_erases b token w r h =
      let (found, known, h1, e1) =
        bind_returned (user_of px now (cookie token))
          (λ o. or_unauthorized px now o >>= delete_confirmed px now b) w r h in
      let (u, is_user, done, e2) = found_user px now found (delete_confirmed px now b) _ r h1 in
      let (sure, gone) = delete_confirmed_sound b u _ r done in
      (
        u,
        known ∙ ap ok is_user,
        sure,
        subst (λ v. IsErased u.id v.tables.auth) (sym (e1 ∙ ap (λ x. x.1) e2)) gone,
      )
