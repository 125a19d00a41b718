-- ===== src/Projects/Allocation.antt =====
-- What a new project is added to.
use pyronites.Base.{
  ℕ, ◌≡◌, ◌<◌, ◌∙◌, ap, sym, subst, refl, arith, Bool, true, false, ◌&&◌, text_eq, text_eq_refl,
  first-append_new, any-eq-first, Option, none, some, List, [], ◌∷◌, ◌++◌, Text, strip, first, leb,
  if◌then◌else◌, Bool-cases, inl, inr,
}
use pyronites.Db.{
  Exc, Result, ok, value_error, assertion_error, Conn, Exec, execute, ◌>>=◌, ◌>>◌, raise, pure,
}
use pyronites.Db.Transaction.{bind_returned, execute_returned}
use pyronites.Db.Preserves.{
  Preserves, Preserves-execute, Preserves-bind, Preserves-bind-lift, Preserves-catch,
  Preserves-pure, Preserves-raise,
}
use pyronites.Projects.Slugs.{slugify, project_file_path}
use pyronites.Projects.{
  Project, Registry, is_kept, is_named, shown, row_to_project, takes_slug, count, unique_slug,
  count_projects_for_owner, insert_project, get_project, set_last_project, max_projects_per_user,
}
use pyronites.Projects.Unused.{unique_slug_free}
use pyronites.Projects.Operations.{
  Draft, or_raise, or_text, is_blank, make_file, make_database, new_project, add_project,
  create_project,
}

abbrev Listed : List Project → Registry → Type 0
Listed ps s = s.projects ≡ ps

inserted :
    (p : Project) (w : Conn Registry)
    → (execute (insert_project p) w).0 ≡ ok tt
    → (execute (insert_project p) w).1.tables.projects ≡ w.tables.projects ++ p ∷ []
unfolding insert_project
inserted p w h =
    let (ran, same) = execute_returned (insert_project p) w tt h in
    ap (λ s. s.projects) same ∙ ground arith

or_raise-Listed :
    (ps : List Project) (e : Exc) (o : Option Project) → Preserves (Listed ps) (or_raise e o)
or_raise-Listed ps e none = Preserves-raise e
or_raise-Listed ps e (some p) = Preserves-pure p

get_project-Listed : (ps : List Project) (x : Text) → Preserves (Listed ps) (get_project x)
unfolding get_project
get_project-Listed ps x = Preserves-execute _ (λ s h. h)

set_last_project-Listed :
    (ps : List Project) (user x : Text) → Preserves (Listed ps) (set_last_project user x)
unfolding set_last_project
set_last_project-Listed ps user x =
    Preserves-catch _ _ (Preserves-execute _ (λ s h. h)) (λ e. Preserves-pure tt)

module _ (prepare : Text → Result (Unit {0})) (str : ℕ → Text) where
  make_database-Listed :
      (ps : List Project) (id : Text) (b : Bool)
      → Preserves (Listed ps) (make_database prepare str id b)
  unfolding make_database make_file
  make_database-Listed ps id true = Preserves-pure tt
  make_database-Listed ps id false = Preserves-bind-lift (project_file_path id) _ λ file e.
      Preserves-bind _ _ (Preserves-execute _ (λ s h. h)) (λ u. record { kept = λ w h. h })

  -- the rest of create_project leaves the rows
  abbrev finish : Text → Text → Draft → Exec Registry Project
  finish id owner d = do
    row ← get_project id
    p ← or_raise assertion_error row
    set_last_project owner p.id
    make_database prepare str id d.use_meta_db
    pure p

  finish-Listed :
      (ps : List Project) (id owner : Text) (d : Draft) → Preserves (Listed ps) (finish id owner d)
  finish-Listed ps id owner d = Preserves-bind _ _ (get_project-Listed ps id) λ row.
      Preserves-bind _ _ (or_raise-Listed ps assertion_error row) λ p.
        Preserves-bind _ _ (set_last_project-Listed ps owner p.id)
          λ u. Preserves-bind _ _ (make_database-Listed ps id d.use_meta_db) (λ v. Preserves-pure p)

  or_raise_row :
      (e : Exc) (o : Option Project) (v : Conn Registry) (p : Project)
      → (or_raise e o v).0 ≡ ok p
      → o ≡ some p
  or_raise_row e none v p h = absurd (ground arith)
  or_raise_row e (some q) v p h = ground arith

  -- what is answered is the project that the id finds
  finish_row :
      (id owner : Text) (d : Draft) (w : Conn Registry) (p : Project)
      → (finish id owner d w).0 ≡ ok p
      → shown (first (λ x. is_named id x && is_kept x) w.tables.projects) ≡ some p
  unfolding get_project
  finish_row id owner d w p h =
      let (row, got, one, _) = bind_returned (get_project id) _ w p h in
      let (ran, _) =
        execute_returned (λ s. (ok (shown (first (λ x. is_named id x && is_kept x) s.projects)), s))
          w row got in
      let (q, there, two, _) = bind_returned (or_raise assertion_error row) _ _ p one in
      let (_, _, three, _) = bind_returned (set_last_project owner q.id) _ _ p two in
      let (_, _, last, _) =
        bind_returned (make_database prepare str id d.use_meta_db) (λ _. pure q) _ p three in
      let same : q ≡ p = ground arith in
      let found : shown (first (λ x. is_named id x && is_kept x) w.tables.projects) ≡ row =
        ground arith in
      found ∙ or_raise_row assertion_error row _ q there ∙ ap some same

  -- no project has the id as one of its names yet
  abbrev pub IsFresh : Text → Registry → Type 0
  IsFresh id s = first (λ x. is_named id x && is_kept x) s.projects ≡ none

  -- one row is added, with a slug that was free, and it is the answer `p`
  abbrev pub IsAdded : Text → ℕ → Text → Draft → Text → Registry → Registry → Project → Type 0
  IsAdded id now owner d name before after p =
      (slug : Text) × (first (takes_slug slug) before.projects ≡ none)
      × (after.projects ≡ before.projects ++ new_project prepare str id now owner d name slug ∷ [])
      × (p ≡ row_to_project (new_project prepare str id now owner d name slug))

  -- the new row is the one that its id finds
  found_row :
      (id : Text) (ps : List Project) (q p : Project)
      → q.id ≡ id
      → is_kept q ≡ true
      → first (λ x. is_named id x && is_kept x) ps ≡ none
      → shown (first (λ x. is_named id x && is_kept x) (ps ++ q ∷ [])) ≡ some p
      → p ≡ row_to_project q
  found_row id ps q p named kept fresh h =
      let test : (is_named id q && is_kept q) ≡ true =
        (let same : text_eq q.id id ≡ true = rw named (text_eq_refl id) in ground arith) in
      let last : first (λ x. is_named id x && is_kept x) (ps ++ q ∷ []) ≡ some q =
        first-append_new (λ x. is_named id x && is_kept x) ps q
          (any-eq-first (λ x. is_named id x && is_kept x) ps fresh) test in
      let both : some (row_to_project q) ≡ some p = sym (ap shown last) ∙ h in ground arith

  add_project-IsAdded :
      (id : Text) (now : ℕ) (owner : Text) (d : Draft) (name : Text) (w : Conn Registry)
      (p : Project)
      → IsFresh id w.tables
      → (add_project prepare str id now owner d name w).0 ≡ ok p
      → IsAdded id now owner d name w.tables
          (add_project prepare str id now owner d name w).1.tables
          p
  unfolding add_project
  add_project-IsAdded id now owner d name w p fresh h =
      let (slug, got, rest, one) =
        bind_returned (unique_slug str (slugify (or_text d.slug name)) none) _ w p h in
      let (free, kept) = unique_slug_free str (slugify (or_text d.slug name)) w slug got in
      let q = new_project prepare str id now owner d name slug in
      let (u, put, last, two) = bind_returned (execute (insert_project q)) _ _ p rest in
      let rows : (execute (insert_project q) _).1.tables.projects ≡ w.tables.projects ++ q ∷ [] =
        inserted q _ put ∙ ap (λ s. s.projects ++ q ∷ []) kept in
      (
        slug,
        free,
        ap (λ c. c.tables.projects) (one ∙ two) ∙ (finish-Listed _ id owner d).kept _ refl ∙ rows,
        found_row id w.tables.projects q p refl refl fresh (
            subst (λ ps. shown (first (λ x. is_named id x && is_kept x) ps) ≡ some p) rows
              (finish_row id owner d _ p last)),
      )

  counted :
      (owner : Text) (w : Conn Registry) (n : ℕ)
      → (count_projects_for_owner owner w).0 ≡ ok n
      → (n ≡ count is_kept owner w.tables)
        × ((count_projects_for_owner owner w).1.tables ≡ w.tables)
  unfolding count_projects_for_owner execute
  counted owner w n h = (ground arith, ground arith)

  abbrev by_count : Text → ℕ → Text → Draft → ℕ → Exec Registry Project
  by_count id now owner d n =
      if leb max_projects_per_user n
      then raise value_error
      else add_project prepare str id now owner d (strip d.name)

  by_count-IsAdded :
      (id : Text) (now : ℕ) (owner : Text) (d : Draft) (n : ℕ) (v : Conn Registry) (p : Project)
      → IsFresh id v.tables
      → (by_count id now owner d n v).0 ≡ ok p
      → (n < 10)
        × IsAdded id now owner d (strip d.name) v.tables (by_count id now owner d n v).1.tables p
  by_count-IsAdded id now owner d n v p fresh h = elim (Bool-cases (leb max_projects_per_user n)) [
    | inl t ↦ absurd (ground arith)
    | inr f ↦
        (few n f, rw f (add_project-IsAdded id now owner d (strip d.name) v p fresh (rw f at h)))
  ]
    where
      few : (n : ℕ) → leb 10 n ≡ false → n < 10
      few n f = ground arith

  limited :
      (id : Text) (now : ℕ) (owner : Text) (d : Draft) (w : Conn Registry) (p : Project)
      → IsFresh id w.tables
      → ((count_projects_for_owner owner >>= by_count id now owner d) w).0 ≡ ok p
      → (count is_kept owner w.tables < 10)
        × IsAdded id now owner d
            (strip d.name)
            w.tables
            ((count_projects_for_owner owner >>= by_count id now owner d) w).1.tables
            p
  limited id now owner d w p fresh h =
      let (n, got, rest, one) = bind_returned (count_projects_for_owner owner) _ w p h in
      let (is_count, kept) = counted owner w n got in
      let (few, (slug, free, rows, answered)) =
        by_count-IsAdded id now owner d n _ p (rw kept fresh) rest in
      (
        rw is_count at few,
        (
          slug,
          rw kept at free,
          ap (λ c. c.tables.projects) one
              ∙ rows
              ∙ ap
                  (λ s.
                    s.projects ++ new_project prepare str id now owner d (strip d.name) slug ∷ [])
                  kept,
          answered,
        ),
      )

  -- Where the new id is not a name of any project that is not deleted: what `create_project` returned
  -- is the project that it added, to fewer than ten of its owner, as an active project with the given
  -- name, and with a slug that no project that is not deleted had, as its slug or as its project_id;
  -- no other row has changed.
  pub create_project-IsAdded :
      (id : Text) (now : ℕ) (owner : Text) (d : Draft) (w : Conn Registry) (p : Project)
      → IsFresh id w.tables
      → (create_project prepare str id now owner d w).0 ≡ ok p
      → (count is_kept owner w.tables < 10)
        × IsAdded id now owner d
            (strip d.name)
            w.tables
            (create_project prepare str id now owner d w).1.tables
            p
  unfolding create_project
  create_project-IsAdded id now owner d w p fresh h = elim (Bool-cases (is_blank (strip d.name))) [
    | inl t ↦ absurd (ground arith)
    | inr f ↦ rw f (limited id now owner d w p fresh (rw f at h))
  ]
