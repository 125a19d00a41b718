-- ===== src/Api/Keys/Revoked.antt =====
-- backend/api/apikeys.py: whom revoke_key answers, and what it leaves.
use pyronites.Base.{
  ℕ, ◌≡◌, ◌∙◌, refl, sym, ap, subst, arith, true, Option, none, some, List, [], ◌∷◌, first, update,
  Text, text_eq, All, Bool-cases, inl, inr,
}
use pyronites.Db.{ok, http_exception, Conn, Exec, raise, lift, execute, catch, ◌>>=◌, ◌>>◌}
use pyronites.Db.Transaction.{execute_returned, bind_returned, catch_returned}
use pyronites.Db.Refused.{Makes, Makes-after, Makes-lift, Makes-query, Makes-bind, Makes-weaken}
use pyronites.Auth.ApiKeys.{KeyRow, admin_scope, revoke_api_key}
use pyronites.Projects.{Project, Registry}
use pyronites.Api.AuthDeps.{Request, AuthInfo, require_scopes, resolve_auth}
use pyronites.Api.ProjectDeps.{Plane, in_meta, in_registry}
use pyronites.Api.Tables.Hidden.{require_scopes-Reads}
use pyronites.Api.Keys.{or_404, on_keys, resolve_project_or_403}
use pyronites.Api.Keys.Routes.{is_key, revoke_for, revoke_key}
use pyronites.Api.Keys.Managed.{IsProject, or_404_sound, resolve_project_or_403-Makes}

abbrev pub IsRevoked : Text → Registry → Type 0
IsRevoked id s = All (λ k. is_key id k ≡ true → k.is_revoked ≡ true) s.keys

update-IsRevoked :
    (id : Text) (keys : List KeyRow)
    → All
        (λ k. is_key id k ≡ true → k.is_revoked ≡ true)
        (update (is_key id) (λ r. record r { is_revoked = true }) keys)
unfolding update
update-IsRevoked id [] = tt
update-IsRevoked id (k ∷ ks) = elim (Bool-cases (is_key id k)) [
  | inl t ↦ rw t ((λ _. refl), update-IsRevoked id ks)
  | inr f ↦ rw f ((λ h. absurd (ground arith)), update-IsRevoked id ks)
]

revoke_step :
    (id : Text)
    → Makes
        (λ _ _ t. IsRevoked id t)
        (catch (on_keys (revoke_api_key id)) (λ _. raise (http_exception 500)))
unfolding revoke_api_key
revoke_step id = record {
  made = λ w a h.
      (let (ran, same) =
          catch_returned (on_keys (revoke_api_key id)) (λ _. raise (http_exception 500)) w a
            (λ e v k. ground arith) h in
        let (_, left) =
          execute_returned
            (λ t. (ok tt, update (λ r. text_eq r.id id) (λ r. record r { is_revoked = true }) t))
            (record { tables = w.tables.keys; faults = w.faults }) a ran in
        subst (λ v. IsRevoked id v.tables) (sym same)
          (subst (λ ks. IsRevoked id (record w.tables { keys = ks })) (sym left)
            (update-IsRevoked id w.tables.keys)));
}

module _ (auth : Option AuthInfo) (id : Text) where
  -- a key of this id stood in the table, the caller may manage its project, and no key of the id is
  -- good any more
  abbrev pub IsManaged : Registry → Unit {0} → Registry → Type 0
  IsManaged s _ t =
      (k : KeyRow) × (p : Project) × (first (is_key id) s.keys ≡ some k)
      × IsProject auth k.project_id s p
      × IsRevoked id t

  abbrev revoke : Exec Registry (Unit {0})
  revoke = catch (on_keys (revoke_api_key id)) (λ _. raise (http_exception 500))

  abbrev IsChosen : Option KeyRow → Registry → Unit {0} → Registry → Type 0
  IsChosen found s u t = ok (first (is_key id) s.keys) ≡ ok found → IsManaged s u t

  picked-Makes :
      (found : Option KeyRow) (k : KeyRow)
      → or_404 found ≡ ok k
      → Makes (IsChosen found) (resolve_project_or_403 auth k.project_id >> revoke)
  picked-Makes found k e =
      Makes-bind (resolve_project_or_403 auth k.project_id) (λ _. revoke)
        (resolve_project_or_403-Makes auth k.project_id)
        (λ s p.
          Makes-weaken revoke
            (λ t u v gone (_, managed) same.
              let seen : first (is_key id) s.keys ≡ found = ground arith in
              (k, p, seen ∙ or_404_sound found k e, managed, gone))
            (revoke_step id))

  revoke_for-Makes : Makes IsManaged (revoke_for auth id)
  unfolding revoke_for
  revoke_for-Makes =
      Makes-after (require_scopes auth (admin_scope ∷ []))
        (λ _. do
          found ← execute (λ s. (ok (first (is_key id) s.keys), s))
          k ← lift (or_404 found)
          resolve_project_or_403 auth k.project_id
          revoke)
        (require_scopes-Reads auth (admin_scope ∷ []))
        (λ _.
          Makes-query (λ s. ok (first (is_key id) s.keys))
            (λ found. do k ← lift (or_404 found); resolve_project_or_403 auth k.project_id; revoke)
            (λ found.
              Makes-lift (or_404 found) (λ k. resolve_project_or_403 auth k.project_id >> revoke)
                (picked-Makes found)))

known_caller :
    (auth : Option AuthInfo) (id : Text) (v : Conn Plane)
    → (in_registry (revoke_for auth id) v).0 ≡ ok tt
    → (a : AuthInfo) × (auth ≡ some a)
unfolding revoke_for require_scopes
known_caller none id v k = absurd (ground arith)
known_caller (some a) id v k = (a, refl)

module _ (sha256 : Text → Text) (now : ℕ) (request : Request) (id : Text) where
  abbrev caller : Exec Plane (Option AuthInfo)
  caller = in_meta (resolve_auth sha256 now request)

  -- A revocation that is answered was asked for by a caller whom `resolve_auth` knows. Where it is a
  -- session, its account owns the project of a key of this id, if that project has an owner; where it
  -- is a key that is bound to a project, it is bound to that one. Then no key of this id is good any
  -- more.
  pub revoke_key-IsManaged :
      (w : Conn Plane)
      → (revoke_key sha256 now request id w).0 ≡ ok tt
      → (a : AuthInfo) × ((caller w).0 ≡ ok (some a))
        × IsManaged
            (some a)
            id
            (caller w).1.tables.registry
            tt
            (revoke_key sha256 now request id w).1.tables.registry
  unfolding revoke_key
  revoke_key-IsManaged w h =
      let (auth, known, rest, same) =
        bind_returned caller (λ o. in_registry (revoke_for o id)) w tt h in
      let (a, is_some) = known_caller auth id (caller w).1 rest in
      (
        a,
        known ∙ ap ok is_some,
        subst (λ v. IsManaged (some a) id (caller w).1.tables.registry tt v.tables.registry)
            (sym same)
            (subst
              (λ o.
                IsManaged (some a) id (caller w).1.tables.registry tt
                  (in_registry (revoke_for o id) (caller w).1).1.tables.registry)
              (sym is_some)
              ((revoke_for-Makes (some a) id).made
                (record { tables = (caller w).1.tables.registry; faults = (caller w).1.faults }) tt
                (subst (λ o. (in_registry (revoke_for o id) (caller w).1).0 ≡ ok tt) is_some
                  rest))),
      )
