-- ===== src/Api/Keys/Managed.antt =====
-- backend/api/apikeys.py: whom _resolve_project_or_403 lets through.
use pyronites.Base.{
  ◌≡◌, ◌∙◌, ◌⊎◌, refl, ap, subst, arith, true, ◌&&◌, Option, none, some, [], ◌∷◌, first, Text,
  text_eq, text_eq_sound, member, Bool-cases, inl, inr,
}
use pyronites.Db.{ok, Conn, pure, raise, lift, ◌>>=◌, ◌>>◌}
use pyronites.Db.Transaction.{bind_returned, catch_returned}
use pyronites.Db.Refused.{Makes, Makes-lift, Makes-query}
use pyronites.Projects.{
  Project, Registry, is_named, is_kept, shown, get_project, owned_by, ensure_owner,
}
use pyronites.Api.AuthDeps.{AuthInfo, api_key, session}
use pyronites.Api.ProjectDeps.{allowed}
use pyronites.Api.Keys.{owner_error, enforce_caller, or_404, resolve_project_or_403}

-- the owner, where the project has one; or a key that is bound to the project, or to none
abbrev pub IsManager : Option AuthInfo → Project → Type 0
IsManager none p = Unit {0}
IsManager (some (session user_id)) p =
    (p.owner_id ≡ none) ⊎ ((p.owner_id ≡ some []) ⊎ (p.owner_id ≡ some user_id))
IsManager (some (api_key scopes project_id key_id plane)) p =
    (project_id ≡ []) ⊎ (member project_id (allowed p) ≡ true)

ensure_owner_sound :
    (p : Project) (user : Text) (w : Conn Registry)
    → (ensure_owner p user w).0 ≡ ok tt
    → IsManager (some (session user)) p × ((ensure_owner p user w).1 ≡ w)
unfolding ensure_owner
ensure_owner_sound p user w h = go p.owner_id refl h
  where
    go :
        (o : Option Text)
        → p.owner_id ≡ o
        → (owned_by user o w).0 ≡ ok tt
        → IsManager (some (session user)) p × ((owned_by user o w).1 ≡ w)
    go none e k = (inl e, refl)
    go (some []) e k = (inr (inl e), refl)
    go (some (c ∷ s)) e k = elim (Bool-cases (text_eq (c ∷ s) user)) [
      | inl t ↦ (inr (inr (e ∙ ap some (text_eq_sound (c ∷ s) user t))), rw t refl)
      | inr f ↦ absurd (ground arith)
    ]

-- the action changes nothing, and its answer has the property
abbrev pub Finds : {A : Type 0} → (Registry → A → Type 0) → Registry → A → Registry → Type 0
Finds P s a t = (t ≡ s) × P s a

enforce_caller-Makes :
    (auth : Option AuthInfo) (p : Project)
    → Makes (Finds (λ _ _. IsManager auth p)) (enforce_caller auth p)
unfolding enforce_caller
enforce_caller-Makes none p = record { made = λ w a h. (refl, tt) }
enforce_caller-Makes (some (session user_id)) p = record {
  made = λ w a h.
      (let (ran, same) =
          catch_returned (ensure_owner p user_id) (λ e. raise (owner_error e)) w tt
            (λ e v k. ground arith) h in
        let (manager, left) = ensure_owner_sound p user_id w ran in
        (ap (λ v. v.tables) (same ∙ left), manager));
}
enforce_caller-Makes (some (api_key scopes [] key_id plane)) p = record {
  made = λ w a h. (refl, inl refl);
}
enforce_caller-Makes (some (api_key scopes (c ∷ s) key_id plane)) p = record {
  made = λ w a h. elim (Bool-cases (member (c ∷ s) (allowed p))) [
    | inl t ↦ (rw t refl, inr t)
    | inr f ↦ absurd (ground arith)
  ];
}

abbrev pub sought : Text → Registry → Option Project
sought ref s = shown (first (λ x. is_named ref x && is_kept x) s.projects)

-- the project that a name finds, and that the caller may manage
abbrev pub IsProject : Option AuthInfo → Text → Registry → Project → Type 0
IsProject auth ref s p = (sought ref s ≡ some p) × IsManager auth p

pub or_404_sound : {A : Type 0} (o : Option A) (a : A) → or_404 o ≡ ok a → o ≡ some a
or_404_sound none a h = absurd (ground arith)
or_404_sound (some b) a h = ground arith

module _ (auth : Option AuthInfo) (ref : Text) where
  abbrev IsResolved : Option Project → Registry → Project → Registry → Type 0
  IsResolved found s p t = ok (sought ref s) ≡ ok found → Finds (IsProject auth ref) s p t

  entered-Makes :
      (found : Option Project) (p : Project)
      → or_404 found ≡ ok p
      → Makes (IsResolved found) (enforce_caller auth p >> pure p)
  entered-Makes found p e = record {
    made = λ w q h same.
        (let (_, got, rest, left) = bind_returned (enforce_caller auth p) (λ _. pure p) w q h in
          let (kept, manager) = (enforce_caller-Makes auth p).made w tt got in
          let which : p ≡ q = ground arith in
          let there : sought ref w.tables ≡ some p =
            (let seen : sought ref w.tables ≡ found = ground arith in
              seen ∙ or_404_sound found p e) in
          (
            ap (λ v. v.tables) left ∙ kept,
            subst (IsProject auth ref w.tables) which (there, manager),
          ));
  }

  found-Makes :
      (found : Option Project)
      → Makes (IsResolved found) (do p ← lift (or_404 found); enforce_caller auth p; pure p)
  found-Makes found =
      Makes-lift (or_404 found) (λ p. enforce_caller auth p >> pure p) (entered-Makes found)

  pub resolve_project_or_403-Makes :
      Makes (Finds (IsProject auth ref)) (resolve_project_or_403 auth ref)
  unfolding resolve_project_or_403 get_project
  resolve_project_or_403-Makes =
      Makes-query (λ s. ok (sought ref s))
        (λ found. do p ← lift (or_404 found); enforce_caller auth p; pure p) found-Makes
