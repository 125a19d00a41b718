-- ===== src/Projects.antt =====
-- backend/core/projects.py: the registry of projects, in the meta database.
pub mod Slugs
pub mod Operations
pub mod Unused
pub mod Allocation
pub mod Deletion
pub mod Calmness
use pyronites.Base.{
  ℕ, zero, suc, ◌+◌, Bool, true, false, not, ◌&&◌, ◌||◌, Option, none, some, List, [], ◌∷◌, ◌++◌,
  Text, codes, text_eq, first, keep, update, any, take, leb, length, if◌then◌else◌,
}
use pyronites.Db.{
  Exc, Result, ok, err, value_error, key_error, permission_error, integrity_error, Exec, pure,
  raise, execute, catch, ◌>>=◌, ◌>>◌,
}
use pyronites.Auth.ApiKeys.{KeyRow}

pub data Status : Type 0 where
  active archived deleted : Status

pub record Project : Type 0 where
  pub id : Text
  pub project_id : Text
  pub name : Text
  pub slug : Text
  pub owner_id : Option Text
  pub status : Status
  pub storage_location : Text
  pub backup_interval : Text
  pub enable_public_api : Bool
  pub created_at : ℕ
  pub updated_at : ℕ

-- `users.last_project_id` of a user
pub record LastProject : Type 0 where
  pub user_id : Text
  pub project : Option Text

-- the tables projects, api_keys and users, and the files of the directory of projects
pub record Registry : Type 0 where
  pub projects : List Project
  pub keys : List KeyRow
  pub last : List LastProject
  pub files : List Text

abbrev pub max_projects_per_user : ℕ
max_projects_per_user = 10

abbrev pub is_active : Project → Bool
is_active p = elim p.status [ active ↦ true | archived ↦ false | deleted ↦ false ]

abbrev pub is_archived : Project → Bool
is_archived p = elim p.status [ active ↦ false | archived ↦ true | deleted ↦ false ]

-- status != 'deleted'
abbrev pub is_kept : Project → Bool
is_kept p = elim p.status [ active ↦ true | archived ↦ true | deleted ↦ false ]

abbrev is_some : Text → Option Text → Bool
is_some x none = false
is_some x (some y) = text_eq y x

abbrev pub is_owner : Text → Project → Bool
is_owner owner p = is_some owner p.owner_id

-- id = ? OR project_id = ? OR slug = ?
abbrev pub is_named : Text → Project → Bool
is_named x p = text_eq p.id x || text_eq p.project_id x || text_eq p.slug x

abbrev pub has_id : Text → Project → Bool
has_id id p = text_eq p.id id

-- project_id = ? OR slug = ?, of those not deleted
abbrev pub takes_slug : Text → Project → Bool
takes_slug slug p = (text_eq p.project_id slug || text_eq p.slug slug) && is_kept p

-- _row_to_project: `slug or project_id`
abbrev pub row_to_project : Project → Project
row_to_project p = elim p.slug [ [] ↦ record p { slug = p.project_id } | c ∷ s ↦ p ]

abbrev pub shown : Option Project → Option Project
shown none = none
shown (some p) = some (row_to_project p)

-- how many projects of the owner pass the test
abbrev pub count : (Project → Bool) → Text → Registry → ℕ
count test owner s = length (keep (λ p. is_owner owner p && test p) s.projects)

unfoldable pub count_projects_for_owner : Text → Exec Registry ℕ
count_projects_for_owner owner = execute (λ s. (ok (count is_kept owner s), s))

unfoldable pub count_active_projects_for_owner : Text → Exec Registry ℕ
count_active_projects_for_owner owner = execute (λ s. (ok (count is_active owner s), s))

-- ORDER BY created_at ASC
unfoldable pub insert_oldest : Project → List Project → List Project
insert_oldest p [] = p ∷ []
insert_oldest p (q ∷ qs) =
    if leb p.created_at q.created_at then p ∷ q ∷ qs else q ∷ insert_oldest p qs

unfoldable pub by_oldest : List Project → List Project
unfolding insert_oldest
by_oldest [] = []
by_oldest (p ∷ ps) = insert_oldest (row_to_project p) (by_oldest ps)

unfoldable pub list_projects_for_owner : Text → Bool → Exec Registry (List Project)
unfolding by_oldest
list_projects_for_owner owner include_archived =
    let test = if include_archived then is_kept else is_active in
    execute (λ s. (ok (by_oldest (keep (λ p. is_owner owner p && test p) s.projects)), s))

unfoldable pub get_project : Text → Exec Registry (Option Project)
get_project x = execute (λ s. (ok (shown (first (λ p. is_named x p && is_kept p) s.projects)), s))

abbrev pub owned_by : Text → Option Text → Exec Registry (Unit {0})
owned_by user none = pure tt
owned_by user (some []) = pure tt
owned_by user (some (c ∷ s)) = if text_eq (c ∷ s) user then pure tt else raise permission_error

-- ensure_owner: a project without an owner is everybody's
unfoldable pub ensure_owner : Project → Text → Exec Registry (Unit {0})
ensure_owner p user = owned_by user p.owner_id

-- UPDATE projects SET … WHERE id = ?
unfoldable pub update_row : Text → (Project → Project) → Exec Registry (Unit {0})
update_row id f = execute (λ s. (ok tt, record s { projects = update (has_id id) f s.projects }))

-- INSERT INTO projects: `id` is the primary key, `project_id` is UNIQUE
unfoldable pub insert_project : Project → Registry → Result (Unit {0}) × Registry
insert_project p s =
    if any (λ q. text_eq q.id p.id || text_eq q.project_id p.project_id) s.projects
    then (err integrity_error, s)
    else (ok tt, record s { projects = s.projects ++ p ∷ [] })

-- set_last_project: a failure is logged
unfoldable pub set_last_project : Text → Text → Exec Registry (Unit {0})
set_last_project user project =
    catch
      (execute (λ s. (
        ok tt,
        record s {
          last =
              update (λ l. text_eq l.user_id user) (λ l. record l { project = some project })
                s.last;
        },
      )))
      (λ _. pure tt)

abbrev pub last_of : Option LastProject → Option Text
last_of none = none
last_of (some l) = elim l.project [ none ↦ none | some [] ↦ none | some (c ∷ s) ↦ some (c ∷ s) ]

unfoldable pub get_last_project : Text → Exec Registry (Option Text)
get_last_project user =
    catch (execute (λ s. (ok (last_of (first (λ l. text_eq l.user_id user) s.last)), s)))
      (λ _. pure none)

-- what is free, or the project's own
abbrev pub is_free : Option Text → Option Project → Bool
is_free exclude none = true
is_free none (some p) = false
is_free (some []) (some p) = false
is_free (some (c ∷ s)) (some p) = text_eq p.id (c ∷ s)

unfoldable pub select_slug : Text → Exec Registry (Option Project)
select_slug slug = execute (λ s. (ok (first (takes_slug slug) s.projects), s))

-- `str` writes a number
module _ (str : ℕ → Text) where
  abbrev pub numbered : Text → ℕ → Text
  numbered base n = take 50 base ++ b'-' ∷ str n

  -- the loop of _unique_slug; `left` is 1000 - n
  unfoldable pub allocate : Text → Option Text → ℕ → ℕ → Text → Exec Registry Text
  unfolding select_slug
  allocate base exclude zero n candidate = do
    row ← select_slug candidate
    (if is_free exclude row then pure candidate else raise value_error)
  allocate base exclude (suc left) n candidate = do
    row ← select_slug candidate
    (if is_free exclude row
        then pure candidate
        else allocate base exclude left (n + 1) (numbered base n))

  -- _unique_slug
  unfoldable pub unique_slug : Text → Option Text → Exec Registry Text
  unfolding allocate
  unique_slug base exclude = allocate base exclude 998 2 base
