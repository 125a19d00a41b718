-- ===== src/Api/ProjectDeps/Confined.antt =====
-- backend/api/project_deps.py: what get_project_context checks, and which file it opens.
use mathlib.Mathlib.Data.List.Basic.{append_left_Injective}
use pyronites.Base.{
  ℕ, Bool, true, false, ◌≡◌, ◌⊎◌, ◌∙◌, ap, sym, subst, refl, arith, Option, none, some, List, [],
  ◌∷◌, ◌++◌, Text, codes, text_eq, first, lower, member, all, strip, ◌&&◌, inl, inr, Bool-cases,
}
use pyronites.Db.{Result, ok, err, Conn, Exec, pure, lift, execute, ◌>>=◌, ◌>>◌}
use pyronites.Db.Transaction.{bind_returned}
use pyronites.Auth.ApiKeys.{read_scope}
use pyronites.Projects.{
  shown, Project, Registry, is_named, is_kept, is_archived, row_to_project, get_project,
}
use pyronites.Projects.Slugs.{project_file_path}
use pyronites.Api.{MetaDb}
use pyronites.Api.AuthDeps.{
  Request, AuthInfo, api_key, session, granted, require_scopes, resolve_auth,
}
use pyronites.Api.ProjectDeps.{
  touch, migrate_once, DataPath, meta, file, Plane, meta_of, in_meta, in_registry, unarchived,
  resolve_project_or_404, allowed, enforce_api_key_project, slug_of, is_legacy_default, own_path,
  data_path, open_data_db_for_project, Context, get_project_context,
}

-- a key that is bound to a project is bound to this one
abbrev pub MayEnter : AuthInfo → Project → Type 0
MayEnter (session user_id) p = Unit {0}
MayEnter (api_key scopes project key_id plane) p =
    (project ≡ []) ⊎ (member project (allowed p) ≡ true)

-- the project is that of a row of the table which the text names, and which is neither deleted nor archived
abbrev pub IsFound : Text → List Project → Project → Type 0
IsFound x ps p =
    (row : Project) × (first (λ r. is_named x r && is_kept r) ps ≡ some row)
    × (p ≡ row_to_project row)
    × (is_archived p ≡ false)

scopes_held :
    (o : Option AuthInfo) (w : Conn MetaDb) (a : AuthInfo)
    → (require_scopes o (read_scope ∷ []) w).0 ≡ ok a
    → (o ≡ some a) × (member read_scope (granted a) ≡ true)
unfolding require_scopes all
scopes_held none w a h = absurd (ground arith)
scopes_held (some b) w a h = elim (Bool-cases (member read_scope (granted b))) [
  | inl t ↦ (let same : b ≡ a = ground arith in (ap some same, rw (sym same) t))
  | inr f ↦ absurd (ground arith)
]

checked_row :
    (x : Text) (ps : List Project) (o : Option Project) (v : Conn Registry) (p : Project)
    → first (λ r. is_named x r && is_kept r) ps ≡ o
    → (unarchived (shown o) v).0 ≡ ok p
    → IsFound x ps p
checked_row x ps none v p e h = absurd (ground arith)
checked_row x ps (some row) v p e h = elim (Bool-cases (is_archived (row_to_project row))) [
  | inl t ↦ absurd (ground arith)
  | inr f ↦
      (let same : row_to_project row ≡ p = ground arith in (row, e, sym same, rw (sym same) f))
]

resolved :
    (x : Text) (w : Conn Registry) (p : Project)
    → (resolve_project_or_404 x w).0 ≡ ok p
    → IsFound x w.tables.projects p
unfolding resolve_project_or_404 get_project execute
resolved x w p h =
    let (o, got, rest, _) = bind_returned (get_project x) unarchived w p h in
    let same : shown (first (λ r. is_named x r && is_kept r) w.tables.projects) ≡ o =
      ground arith in
    checked_row x w.tables.projects (first (λ r. is_named x r && is_kept r) w.tables.projects)
      (get_project x w).1 p refl
      (subst (λ q. (unarchived q (get_project x w).1).0 ≡ ok p) (sym same) rest)

entered :
    (a : AuthInfo) (o : Option AuthInfo) (p : Project) (w : Conn Registry)
    → o ≡ some a
    → (enforce_api_key_project o p w).0 ≡ ok tt
    → MayEnter a p
unfolding enforce_api_key_project
entered (session user_id) o p w e h = tt
entered (api_key scopes [] key_id plane) o p w e h = inl refl
entered (api_key scopes (c ∷ s) key_id plane) o p w e h = inr (ground arith)

-- the file is named by the project's id, without surrounding space
project_file_path-name : (id f : Text) → project_file_path id ≡ ok f → f ≡ strip id ++ codes ".db"
unfolding project_file_path
project_file_path-name id f h = ground arith

own_path-name :
    (p : Project) (d : DataPath) → own_path p ≡ ok d → d ≡ file (strip p.id ++ codes ".db")
own_path-name p d h = go (project_file_path p.id) refl h
  where
    go :
        (r : Result Text)
        → project_file_path p.id ≡ r
        → elim r [ ok f ↦ ok (file f) | err e ↦ err e ] ≡ ok d
        → d ≡ file (strip p.id ++ codes ".db")
    go (ok f) e k =
        let same : file f ≡ d = ground arith in sym same ∙ ap file (project_file_path-name p.id f e)
    go (err x) e k = absurd (ground arith)

default_slug :
    (files : List Text) (p : Project)
    → is_legacy_default files p ≡ ok true
    → text_eq (lower (slug_of p)) (codes "default") ≡ true
unfolding is_legacy_default
default_slug files p h = elim (Bool-cases (text_eq (lower (slug_of p)) (codes "default"))) [
  | inl t ↦ t
  | inr f ↦ absurd (ground arith)
]

-- a project shares the meta database only where its slug is `default`
data_path-cases :
    (files : List Text) (p : Project) (d : DataPath)
    → data_path files p ≡ ok d
    → ((text_eq (lower (slug_of p)) (codes "default") ≡ true) × (d ≡ meta))
      ⊎ (d ≡ file (strip p.id ++ codes ".db"))
unfolding data_path
data_path-cases files p d h = go (is_legacy_default files p) refl h
  where
    go :
        (r : Result Bool)
        → is_legacy_default files p ≡ r
        → elim r [ ok true ↦ ok meta | ok false ↦ own_path p | err e ↦ err e ] ≡ ok d
        → ((text_eq (lower (slug_of p)) (codes "default") ≡ true) × (d ≡ meta))
          ⊎ (d ≡ file (strip p.id ++ codes ".db"))
    go (ok true) e k = inl (default_slug files p e, ground arith)
    go (ok false) e k = inr (own_path-name p d k)
    go (err x) e k = absurd (ground arith)

abbrev file_of : DataPath → Text
file_of meta = []
file_of (file f) = f

module _ (migrate : DataPath → Result (Unit {0})) where
  -- get_project_context, after the scopes are checked
  abbrev in_project : Text → Option AuthInfo → AuthInfo → Exec Plane Context
  in_project x o a = do
    p ← in_registry (resolve_project_or_404 x)
    in_registry (enforce_api_key_project o p)
    d ← open_data_db_for_project migrate p
    pure (record { project = p; db = d; auth = a })

  in_project_sound :
      (x : Text) (o : Option AuthInfo) (a : AuthInfo) (w : Conn Plane) (c : Context)
      → o ≡ some a
      → (in_project x o a w).0 ≡ ok c
      → (c.auth ≡ a) × MayEnter a c.project × IsFound x w.tables.registry.projects c.project
  in_project_sound x o a w c e h =
      let (p, found, last, _) = bind_returned (in_registry (resolve_project_or_404 x)) _ w c h in
      let (u, may, opened, _) =
        bind_returned (in_registry (enforce_api_key_project o p)) _ _ c last in
      let (d, _, end, _) = bind_returned (open_data_db_for_project migrate p) _ _ c opened in
      let one : a ≡ c.auth = ground arith in
      let two : p ≡ c.project = ground arith in
      (
        sym one,
        subst (MayEnter a) two (entered a o p _ e may),
        subst (IsFound x w.tables.registry.projects) two
            (resolved x (record { tables = w.tables.registry; faults = w.faults }) p found),
      )

  module _ (sha256 : Text → Text) (now : ℕ) where
    -- Whichever statements fail, a request that gets a project's context comes from a caller whom
    -- `resolve_auth` knows, who has the read scope, and whose key, if it is one and is bound to a
    -- project, is bound to that project, which the path names and which is neither deleted nor archived.
    pub get_project_context_sound :
        (x : Text) (request : Request) (w : Conn Plane) (c : Context)
        → (get_project_context migrate sha256 now x request w).0 ≡ ok c
        → ((resolve_auth sha256 now request
              (record { tables = meta_of w.tables; faults = w.faults })).0
            ≡ ok (some c.auth))
          × (member read_scope (granted c.auth) ≡ true)
          × MayEnter c.auth c.project
          × IsFound x w.tables.registry.projects c.project
    unfolding get_project_context
    get_project_context_sound x request w c h =
        let (o, known, rest, _) =
          bind_returned (in_meta (resolve_auth sha256 now request)) _ w c h in
        let (a, scoped, more, _) =
          bind_returned (in_meta (require_scopes o (read_scope ∷ []))) _ _ c rest in
        let (is_caller, reads) = scopes_held o _ a scoped in
        let (same, may, found) = in_project_sound x o a _ c is_caller more in
        (
          known ∙ ap ok (is_caller ∙ ap some (sym same)),
          subst (λ b. member read_scope (granted b) ≡ true) (sym same) reads,
          subst (λ b. MayEnter b c.project) (sym same) may,
          found,
        )

  opened_path :
      (p : Project) (w : Conn Plane) (d : DataPath)
      → (open_data_db_for_project migrate p w).0 ≡ ok d
      → data_path w.tables.registry.files p ≡ ok d
  unfolding open_data_db_for_project
  opened_path p w d h =
      let (e, got, rest, _) = bind_returned (lift (data_path w.tables.registry.files p)) _ w d h in
      let (u, _, more, _) = bind_returned (in_registry (execute (touch e))) _ _ d rest in
      let (v, _, end, _) = bind_returned (migrate_once migrate e) _ _ d more in
      let same : e ≡ d = ground arith in got ∙ ap ok same

  -- Two projects, of which the first is not named `default`, get the same database only where their
  -- ids are the same up to the space around them, whatever files there are at either time.
  pub open_data_db_separate :
      (p q : Project) (w v : Conn Plane) (d : DataPath)
      → text_eq (lower (slug_of p)) (codes "default") ≡ false
      → (open_data_db_for_project migrate p w).0 ≡ ok d
      → (open_data_db_for_project migrate q v).0 ≡ ok d
      → strip p.id ≡ strip q.id
  open_data_db_separate p q w v d other h k =
      elim (data_path-cases w.tables.registry.files p d (opened_path p w d h)) [
        | inl (a, _) ↦ absurd (ground arith)
        | inr a ↦ elim (data_path-cases v.tables.registry.files q d (opened_path q v d k)) [
          | inl (_, b) ↦ absurd (ground arith)
          | inr b ↦
              append_left_Injective (codes ".db") (strip p.id) (strip q.id) (ap file_of (sym a ∙ b))
        ]
      ]
