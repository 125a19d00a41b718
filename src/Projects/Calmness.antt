-- ===== src/Projects/Calmness.antt =====
-- backend/core/projects.py: what makes a default project makes no statement fail.
use pyronites.Base.{ℕ, zero, suc, ◌+◌, Bool, true, false, Option, none, some, List, [], ◌∷◌, Text}
use pyronites.Db.{Exc, Result, assertion_error, execute}
use pyronites.Db.Calm.{Calm, calm_rules, Calm-then, Calm-pure, Calm-if, Calm-bind, Calm-execute}
use pyronites.Projects.{
  Project, set_last_project, select_slug, numbered, is_free, allocate, unique_slug, get_project,
  insert_project,
}
use pyronites.Projects.Slugs.{slugify}
use pyronites.Projects.Operations.{
  Draft, or_raise, or_text, new_project, make_database, add_project, create_project, make_default,
  or_default, adopt_orphan, first_or_orphan, ensure_default_project,
}

pub set_last_project-Calm : (user project : Text) → Calm (set_last_project user project)
unfolding set_last_project
set_last_project-Calm user project = search calm_rules depth 6

select_slug-Calm : (slug : Text) → Calm (select_slug slug)
unfolding select_slug
select_slug-Calm slug = search calm_rules depth 4

get_project-Calm : (x : Text) → Calm (get_project x)
unfolding get_project
get_project-Calm x = search calm_rules depth 4

or_raise-Calm : (e : Exc) (o : Option Project) → Calm (or_raise e o)
or_raise-Calm e none = search calm_rules depth 4
or_raise-Calm e (some p) = search calm_rules depth 4

module _ (str : ℕ → Text) where
  allocate-Calm :
      (base : Text) (exclude : Option Text) (left n : ℕ) (candidate : Text)
      → Calm (allocate str base exclude left n candidate)
  unfolding allocate
  allocate-Calm base exclude zero n candidate = search calm_rules depth 6
  allocate-Calm base exclude (suc left) n candidate =
      Calm-bind (select_slug candidate) _ (select_slug-Calm candidate) (λ row.
        Calm-if (is_free exclude row) _ _ (Calm-pure candidate)
          (allocate-Calm base exclude left (n + 1) (numbered str base n)))

  unique_slug-Calm : (base : Text) (exclude : Option Text) → Calm (unique_slug str base exclude)
  unfolding unique_slug
  unique_slug-Calm base exclude = allocate-Calm base exclude 998 2 base

module _ (prepare : Text → Result (Unit {0})) (str : ℕ → Text) where
  make_database-Calm : (id : Text) (meta : Bool) → Calm (make_database prepare str id meta)
  unfolding make_database
  make_database-Calm id true = search calm_rules depth 4
  make_database-Calm id false = search calm_rules depth 8

  add_project-Calm :
      (id : Text) (now : ℕ) (owner : Text) (d : Draft) (name : Text)
      → Calm (add_project prepare str id now owner d name)
  unfolding add_project
  add_project-Calm id now owner d name =
      Calm-bind (unique_slug str (slugify (or_text d.slug name)) none) _
        (unique_slug-Calm str (slugify (or_text d.slug name)) none)
        (λ slug.
          let insert =
            execute (insert_project (new_project prepare str id now owner d name slug)) in
          Calm-bind insert _
            (Calm-execute (insert_project (new_project prepare str id now owner d name slug)))
            (λ _. Calm-bind (get_project id) _ (get_project-Calm id) (λ row.
              Calm-bind (or_raise assertion_error row) _ (or_raise-Calm assertion_error row) (λ p.
                Calm-then (set_last_project owner p.id) _ (set_last_project-Calm owner p.id) (
                  Calm-then (make_database prepare str id d.use_meta_db) _
                    (make_database-Calm id d.use_meta_db) (Calm-pure p))))))

  create_project-Calm :
      (id : Text) (now : ℕ) (owner : Text) (d : Draft)
      → Calm (create_project prepare str id now owner d)
  unfolding create_project
  create_project-Calm id now owner d = search (calm_rules, add_project-Calm) depth 8

  make_default-Calm :
      (id : Text) (now : ℕ) (owner : Text) → Calm (make_default prepare str id now owner)
  unfolding make_default
  make_default-Calm id now owner =
      search (calm_rules, create_project-Calm, set_last_project-Calm) depth 8

  or_default-Calm :
      (id : Text) (now : ℕ) (owner : Text) (o : Option Project)
      → Calm (or_default prepare str id now owner o)
  or_default-Calm id now owner none = make_default-Calm id now owner
  or_default-Calm id now owner (some p) = search (calm_rules, set_last_project-Calm) depth 8

  adopt_orphan-Calm :
      (id : Text) (now : ℕ) (owner : Text) (o : Option Project)
      → Calm (adopt_orphan prepare str id now owner o)
  unfolding adopt_orphan
  adopt_orphan-Calm id now owner none = make_default-Calm id now owner
  adopt_orphan-Calm id now owner (some p) = search (calm_rules, or_default-Calm) depth 8

  first_or_orphan-Calm :
      (id : Text) (now : ℕ) (owner : Text) (ps : List Project)
      → Calm (first_or_orphan prepare str id now owner ps)
  first_or_orphan-Calm id now owner [] = search (calm_rules, adopt_orphan-Calm) depth 8
  first_or_orphan-Calm id now owner (p ∷ ps) = search (calm_rules, set_last_project-Calm) depth 8

  pub ensure_default_project-Calm :
      (id : Text) (now : ℕ) (owner : Text) → Calm (ensure_default_project prepare str id now owner)
  unfolding ensure_default_project
  ensure_default_project-Calm id now owner = search (calm_rules, first_or_orphan-Calm) depth 8
