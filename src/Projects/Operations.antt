-- ===== src/Projects/Operations.antt =====
-- backend/core/projects.py: making, changing and deleting projects.
use pyronites.Base.{
  ℕ, Bool, true, false, not, ◌&&◌, ◌||◌, Option, none, some, List, [], ◌∷◌, ◌++◌, Text, codes,
  text_eq, strip, first, keep, update, any, leb, if◌then◌else◌,
}
use pyronites.Db.{
  Exc, Result, ok, err, value_error, integrity_error, key_error, assertion_error, os_error, Exec,
  pure, raise, lift, execute, catch, ◌>>=◌, ◌>>◌,
}
use pyronites.Projects.Slugs.{slugify, project_file_path}
use pyronites.Projects.{
  active, archived, Project, Registry, max_projects_per_user, is_active, is_archived, is_kept,
  is_named, has_id, shown, count_projects_for_owner, count_active_projects_for_owner,
  list_projects_for_owner, get_project, update_row, insert_project, set_last_project, unique_slug,
}

abbrev pub or_raise : Exc → Option Project → Exec Registry Project
or_raise e none = raise e
or_raise e (some p) = pure p

-- `a or b`
abbrev pub or_text : Option Text → Text → Text
or_text none b = b
or_text (some []) b = b
or_text (some (c ∷ s)) b = c ∷ s

abbrev pub is_blank : Text → Bool
is_blank [] = true
is_blank (c ∷ s) = false

-- the arguments of create_project
pub record Draft : Type 0 where
  pub name : Text
  pub slug : Option Text
  pub use_meta_db : Bool
  pub storage_location : Text
  pub backup_interval : Text
  pub enable_public_api : Bool

-- mkdir, and the connection, which makes the file
unfoldable pub make_file : Text → Exec Registry (Unit {0})
make_file file =
    execute
      (λ s. (ok tt, record s { files = keep (λ f. not (text_eq f file)) s.files ++ file ∷ [] }))

-- the deletion of the file, where it is there
unfoldable pub remove_file : Text → Exec Registry (Unit {0})
remove_file file =
    execute (λ s. (ok tt, record s { files = keep (λ f. not (text_eq f file)) s.files }))

abbrev pub on_remove_error : Exc → Exec Registry (Unit {0})
on_remove_error os_error = pure tt
on_remove_error e = raise e

-- DELETE FROM api_keys: the keys of the slug, of the old slug and of the id
unfoldable pub delete_keys : Project → Exec Registry (Unit {0})
delete_keys p = execute (λ s. (
  ok tt,
  record s {
    keys =
        keep
          (λ k. not (
            text_eq k.project_id p.project_id
            || text_eq k.project_id p.slug
            || text_eq k.project_id p.id))
          s.keys;
  },
))

unfoldable pub delete_row : Text → Exec Registry (Unit {0})
delete_row id =
    execute (λ s. (ok tt, record s { projects = keep (λ p. not (has_id id p)) s.projects }))

-- a project of any status
unfoldable pub find_project : Text → Exec Registry (Option Project)
find_project x = execute (λ s. (ok (first (is_named x) s.projects), s))

-- archive_project
unfoldable pub archive_project : ℕ → Text → Exec Registry Project
unfolding get_project update_row
archive_project now x = do
  found ← get_project x
  p ← or_raise key_error found
  update_row p.id (λ q. record q { status = archived; updated_at = now })
  row ← execute (λ s. (ok (shown (first (has_id p.id) s.projects)), s))
  pure (elim row [ none ↦ p | some q ↦ q ])

-- restore_project
unfoldable pub restore_project : ℕ → Text → Exec Registry Project
unfolding get_project update_row
restore_project now x = do
  row ← execute (λ s.
      (ok (first (λ p. (text_eq p.id x || text_eq p.project_id x) && is_archived p) s.projects), s))
  p ← or_raise key_error row
  update_row p.id (λ q. record q { status = active; updated_at = now })
  restored ← get_project p.id
  or_raise assertion_error restored

-- the guard of hard_delete_project; a remainder below zero is none
abbrev pub leaves_none : Project → ℕ → Bool
leaves_none p n = if is_active p then leb n 1 else leb n 0

unfoldable pub guard_last : Project → Option Text → Bool → Exec Registry (Unit {0})
unfolding count_active_projects_for_owner
guard_last p owner true = pure tt
guard_last p none false = pure tt
guard_last p (some []) false = pure tt
guard_last p (some (c ∷ s)) false = do
  n ← count_active_projects_for_owner (c ∷ s)
  (if leaves_none p n then raise value_error else pure tt)

-- `owner_id or owner`
abbrev pub owner_or : Option Text → Option Text → Option Text
owner_or none owner = owner
owner_or (some []) owner = owner
owner_or (some (c ∷ s)) owner = some (c ∷ s)

-- the arguments of update_project that are given
pub record Change : Type 0 where
  pub name : Option Text
  pub slug : Option Text
  pub backup_interval : Option Text
  pub enable_public_api : Option Bool

abbrev pub new_name : Project → Option Text → Text
new_name p none = p.name
new_name p (some n) = strip n

abbrev pub new_interval : Project → Option Text → Text
new_interval p none = or_text (some p.backup_interval) (codes "1hour")
new_interval p (some i) = i

abbrev pub new_access : Project → Option Bool → Bool
new_access p none = p.enable_public_api
new_access p (some b) = b

-- `is_meta`: the path is that of the meta database
module _ (is_meta : Text → Bool) where
  unfoldable pub delete_file : Text → Exec Registry (Unit {0})
  unfolding project_file_path remove_file
  delete_file id = do
    file ← lift (project_file_path id)
    (if is_meta file then pure tt else catch (remove_file file) on_remove_error)

  unfoldable pub delete_confirmed : Project → Option Text → Bool → Exec Registry (Unit {0})
  unfolding guard_last delete_keys delete_row delete_file
  delete_confirmed p owner force = do
    guard_last p owner force
    delete_keys p
    delete_row p.id
    delete_file p.id

  -- hard_delete_project
  unfoldable pub hard_delete_project : Text → Text → Option Text → Bool → Exec Registry (Unit {0})
  unfolding find_project delete_confirmed
  hard_delete_project x confirm_name owner force = do
    row ← find_project x
    p ← or_raise key_error row
    (if text_eq (strip confirm_name) p.name
        then delete_confirmed p (owner_or owner p.owner_id) force
        else raise value_error)

-- `prepare`: whether the migrations of a new file run; `str` writes a number
module _ (prepare : Text → Result (Unit {0})) (str : ℕ → Text) where
  unfoldable pub make_database : Text → Bool → Exec Registry (Unit {0})
  unfolding project_file_path make_file
  make_database id true = pure tt
  make_database id false = do
    file ← lift (project_file_path id)
    make_file file
    lift (prepare file)

  abbrev pub new_project : Text → ℕ → Text → Draft → Text → Text → Project
  new_project id now owner d name slug = record {
    id = id;
    project_id = slug;
    name = name;
    slug = slug;
    owner_id = some owner;
    status = active;
    storage_location = d.storage_location;
    backup_interval = d.backup_interval;
    enable_public_api = d.enable_public_api;
    created_at = now;
    updated_at = now;
  }

  unfoldable pub add_project : Text → ℕ → Text → Draft → Text → Exec Registry Project
  unfolding slugify unique_slug insert_project get_project set_last_project make_database
  add_project id now owner d name = do
    slug ← unique_slug str (slugify (or_text d.slug name)) none
    execute (insert_project (new_project id now owner d name slug))
    row ← get_project id
    p ← or_raise assertion_error row
    set_last_project owner p.id
    make_database id d.use_meta_db
    pure p

  -- create_project; `id` is the new uuid, `now` the clock
  unfoldable pub create_project : Text → ℕ → Text → Draft → Exec Registry Project
  unfolding count_projects_for_owner add_project
  create_project id now owner d = if is_blank (strip d.name) then raise value_error else (do
    n ← count_projects_for_owner owner
    (if leb max_projects_per_user n
        then raise value_error
        else add_project id now owner d (strip d.name)))

  -- ensure_default_project, with a project that has lost its owner, or none
  abbrev pub orphan_of : List Project → Option Project
  orphan_of ps =
      first (λ p. (elim p.owner_id [ none ↦ true | some o ↦ is_blank o ]) && is_kept p) ps

  abbrev pub default_draft : Draft
  default_draft = record {
    name = codes "Default";
    slug = some (codes "default");
    use_meta_db = true;
    storage_location = codes "local";
    backup_interval = codes "1hour";
    enable_public_api = true;
  }

  unfoldable pub make_default : Text → ℕ → Text → Exec Registry Project
  unfolding create_project
  make_default id now owner = do
    p ← create_project id now owner default_draft
    set_last_project owner p.id
    pure p

  abbrev pub or_default : Text → ℕ → Text → Option Project → Exec Registry Project
  or_default id now owner none = make_default id now owner
  or_default id now owner (some p) = do set_last_project owner p.id; pure p

  unfoldable pub adopt_orphan : Text → ℕ → Text → Option Project → Exec Registry Project
  unfolding make_default update_row
  adopt_orphan id now owner none = make_default id now owner
  adopt_orphan id now owner (some o) = do
    update_row o.id (λ q. record q { owner_id = some owner; status = active; updated_at = now })
    p ← get_project o.id
    or_default id now owner p

  abbrev pub first_or_orphan : Text → ℕ → Text → List Project → Exec Registry Project
  first_or_orphan id now owner [] = do
    orphan ← execute (λ s. (ok (orphan_of s.projects), s))
    adopt_orphan id now owner orphan
  first_or_orphan id now owner (p ∷ ps) = do set_last_project owner p.id; pure p

  unfoldable pub ensure_default_project : Text → ℕ → Text → Exec Registry Project
  unfolding list_projects_for_owner adopt_orphan
  ensure_default_project id now owner = do
    existing ← list_projects_for_owner owner false
    first_or_orphan id now owner existing

  unfoldable pub new_slug : Project → Option Text → Exec Registry Text
  unfolding unique_slug slugify
  new_slug p none = pure p.slug
  new_slug p (some s) = unique_slug str (slugify s) (some p.id)

  -- UPDATE projects: `project_id` is UNIQUE
  unfoldable pub update_unique : Text → Text → (Project → Project) → Exec Registry (Unit {0})
  update_unique id slug f = execute (λ s.
      if any (λ q. text_eq q.project_id slug && not (has_id id q)) s.projects
      then (err integrity_error, s)
      else (ok tt, record s { projects = update (has_id id) f s.projects }))

  unfoldable pub write_change : ℕ → Project → Change → Text → Exec Registry Project
  unfolding update_unique get_project new_slug
  write_change now p c name = do
    slug ← new_slug p c.slug
    update_unique p.id slug (λ q. record q {
      name = name;
      project_id = slug;
      slug = slug;
      backup_interval = new_interval p c.backup_interval;
      enable_public_api = new_access p c.enable_public_api;
      updated_at = now;
    })
    updated ← get_project p.id
    or_raise assertion_error updated

  -- update_project
  unfoldable pub update_project : ℕ → Text → Change → Exec Registry Project
  unfolding write_change
  update_project now x c = do
    found ← get_project x
    p ← or_raise key_error found
    (if is_blank (new_name p c.name)
        then raise value_error
        else write_change now p c (new_name p c.name))
