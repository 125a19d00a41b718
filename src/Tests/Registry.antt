-- ===== src/Tests/Registry.antt =====
-- Projects.
use pyronites.Base.{
  lower, text_eq, any, all, keep, ℕ, ◌≡◌, ◌≤◌, ◌<◌, ◌≢◌, refl, arith, Bool, true, false, none, some,
  [], ◌∷◌, Text, codes, strip, first,
}
use pyronites.Db.{execute, Result, ok, healthy}
use pyronites.Projects.{Status, active, Project, Registry, is_active, is_kept, count}
use pyronites.Projects.Slugs.{slugify, is_slug, slugify-IsSlug}
use pyronites.Projects.Operations.{Draft, new_project, hard_delete_project, create_project}
use pyronites.Projects.Deletion.{hard_delete_project-leaves}
use pyronites.Projects.Allocation.{IsAdded, create_project-IsAdded}

abbrev pub project : Text → Text → Status → Project
project id slug status = record {
  id = id;
  project_id = slug;
  name = slug;
  slug = slug;
  owner_id = some (codes "u1");
  status = status;
  storage_location = codes "local";
  backup_interval = codes "1hour";
  enable_public_api = true;
  created_at = 3;
  updated_at = 3;
}

abbrev registry : Registry
registry = record {
  projects =
      project (codes "a1") (codes "shop") active ∷ project (codes "a2") (codes "blog") active ∷ [];
  keys = [];
  last = [];
  files = codes "a1.db" ∷ codes "a2.db" ∷ [];
}

abbrev decimal : ℕ → Text
decimal n = codes "2"

abbrev prepare : Text → Result (Unit {0})
prepare file = ok tt

abbrev is_meta : Text → Bool
is_meta file = false

slugify-IsSlug_example : is_slug (slugify (codes "--My Shop, Ltd.--")) ≡ true
slugify-IsSlug_example = slugify-IsSlug (codes "--My Shop, Ltd.--")

full : codes "u1" ≢ []
full e = absurd (ground arith)

hard_delete_project-leaves_example :
    1
    ≤ count is_active
        (codes "u1")
        (hard_delete_project is_meta
          (codes "shop")
          (codes " shop ")
          none
          false
          (healthy registry)).1.tables
unfolding any text_eq first hard_delete_project execute strip keep all
hard_delete_project-leaves_example =
    hard_delete_project-leaves is_meta (codes "shop") (codes " shop ") none (codes "u1")
      (healthy registry) (project (codes "a1") (codes "shop") active) (refl, (refl, tt)) refl refl
      full refl

abbrev draft : Draft
draft = record {
  name = codes " Shop ";
  slug = none;
  use_meta_db = false;
  storage_location = codes "local";
  backup_interval = codes "1hour";
  enable_public_api = true;
}

abbrev made : Project
made = new_project prepare decimal (codes "a3") 9 (codes "u1") draft (codes "Shop") (codes "shop-2")

create_project-IsAdded_example :
    (count is_kept (codes "u1") registry < 10)
    × IsAdded prepare decimal
        (codes "a3")
        9
        (codes "u1")
        draft
        (strip draft.name)
        registry
        (create_project prepare decimal
          (codes "a3")
          9
          (codes "u1")
          draft
          (healthy registry)).1.tables
        made
unfolding create_project strip execute keep text_eq first lower all any
create_project-IsAdded_example =
    create_project-IsAdded prepare decimal (codes "a3") 9 (codes "u1") draft (healthy registry) made
      refl refl
