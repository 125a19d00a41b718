-- ===== src/Projects/Deletion.antt =====
-- The last active project of an owner is not deleted.
use pyronites.Base.{
  ℕ, ◌+◌, ◌≡◌, ◌≢◌, ◌≤◌, ◌∙◌, ap, sym, subst, text_eq_sound, text_eq_refl, refl, arith, Bool, false,
  not, ◌&&◌, Option, some, List, [], ◌∷◌, Text, text_eq, strip, first, keep, any, length,
  if◌then◌else◌, Bool-cases, inl, inr,
}
use pyronites.Db.{Exc, ok, value_error, os_error, Conn, Exec, execute, ◌>>◌, raise}
use pyronites.Db.Transaction.{bind_returned, execute_returned}
use pyronites.Db.Preserves.{
  Preserves, Preserves-execute, Preserves-bind-lift, Preserves-if, Preserves-catch, Preserves-pure,
}
use pyronites.Projects.Slugs.{project_file_path}
use pyronites.Projects.{
  Project, Registry, is_active, is_owner, has_id, is_named, count, count_active_projects_for_owner,
}
use pyronites.Projects.Operations.{
  guard_last, delete_keys, delete_row, delete_file, on_remove_error, remove_file, delete_confirmed,
  hard_delete_project, find_project, leaves_none, owner_or,
}

-- `id` is the primary key
abbrev pub Keyed : List Project → Type 0
Keyed [] = Unit {0}
Keyed (p ∷ ps) = (any (has_id p.id) ps ≡ false) × Keyed ps

-- the guard leaves the tables, and its answer says that enough are left
guarded :
    (p : Project) (o : Text) (w : Conn Registry)
    → o ≢ []
    → (guard_last p (some o) false w).0 ≡ ok tt
    → ((guard_last p (some o) false w).1.tables ≡ w.tables)
      × (leaves_none p (count is_active o w.tables) ≡ false)
unfolding guard_last count_active_projects_for_owner execute
guarded p [] w full h = absurd (full refl)
guarded p (c ∷ s) w full h = (ground arith, ground arith)

text_eq-apart : (s t : Text) → text_eq s t ≡ false → text_eq t s ≡ false
text_eq-apart s t h = elim (Bool-cases (text_eq t s)) [
  | inl e ↦ absurd (clash (text_eq_sound t s e))
  | inr f ↦ f
]
  where
    clash : t ≡ s → ⊥
    clash e = ground (arith, text_eq_refl s)

keep-apart :
    (id : Text) (ps : List Project)
    → any (has_id id) ps ≡ false
    → keep (λ q. not (has_id id q)) ps ≡ ps
unfolding keep any
keep-apart id [] h = refl
keep-apart id (p ∷ ps) h = ground (arith, keep-apart id ps)

found-apart :
    (f : Project → Bool) (id : Text) (ps : List Project) (p : Project)
    → any (has_id id) ps ≡ false
    → first f ps ≡ some p
    → text_eq p.id id ≡ false
unfolding first any
found-apart f id [] p h e = absurd (ground arith)
found-apart f id (q ∷ qs) p h e = elim (Bool-cases (f q)) [
  | inl t ↦
      (let same : q ≡ p = ground arith in subst (λ r. text_eq r.id id ≡ false) same (ground arith))
  | inr g ↦ found-apart f id qs p (ground arith) (rw g at e)
]

-- deleting one row takes one from the count, if it was counted
length-keep_deleted :
    (test f : Project → Bool) (ps : List Project) (p : Project)
    → Keyed ps
    → first f ps ≡ some p
    → length (keep test ps)
      ≤ length (keep test (keep (λ q. not (has_id p.id q)) ps)) + (if test p then 1 else 0)
unfolding keep first
length-keep_deleted test f [] p k e = absurd (ground arith)
length-keep_deleted test f (q ∷ qs) p k e = elim (Bool-cases (f q)) [
  | inl t ↦
      (let same : q ≡ p = ground arith in
        subst
          (λ r.
            length (keep test (q ∷ qs))
            ≤ length (keep test (keep (λ x. not (has_id r.id x)) (q ∷ qs)))
              + (if test r then 1 else 0))
          same (rw (text_eq_refl q.id) (rw (keep-apart q.id qs k.0) (ground arith))))
  | inr g ↦
      let later = length-keep_deleted test f qs p k.1 (rw g at e) in
      let apart = text_eq-apart p.id q.id (found-apart f q.id qs p k.0 (rw g at e)) in
      rw apart (ground (arith, later))
]

abbrev Listed : List Project → Registry → Type 0
Listed ps s = s.projects ≡ ps

on_remove_error-Listed : (ps : List Project) (e : Exc) → Preserves (Listed ps) (on_remove_error e)
on_remove_error-Listed ps os_error = Preserves-pure tt
on_remove_error-Listed ps _ = record { kept = λ w h. h }

delete_keys-Listed : (ps : List Project) (p : Project) → Preserves (Listed ps) (delete_keys p)
unfolding delete_keys
delete_keys-Listed ps p = Preserves-execute _ (λ s h. h)

delete_row_rows :
    (id : Text) (w : Conn Registry)
    → (delete_row id w).0 ≡ ok tt
    → (delete_row id w).1.tables.projects ≡ keep (λ q. not (has_id id q)) w.tables.projects
unfolding delete_row
delete_row_rows id w h = ap (λ s. s.projects) (execute_returned _ w tt h).1

found_row :
    (x : Text) (w : Conn Registry) (o : Option Project)
    → (find_project x w).0 ≡ ok o
    → (first (is_named x) w.tables.projects ≡ o) × ((find_project x w).1.tables ≡ w.tables)
unfolding find_project execute
found_row x w o h = (ground arith, ground arith)

module _ (is_meta : Text → Bool) where
  delete_file-Listed :
      (ps : List Project) (id : Text) → Preserves (Listed ps) (delete_file is_meta id)
  unfolding delete_file remove_file
  delete_file-Listed ps id = Preserves-bind-lift (project_file_path id) _ λ file e.
      Preserves-if _ _ _ (Preserves-pure tt)
        (Preserves-catch _ _ (Preserves-execute _ (λ s h. h)) (on_remove_error-Listed ps))

  removed :
      (p : Project) (w : Conn Registry)
      → ((delete_keys p >> (delete_row p.id >> delete_file is_meta p.id)) w).0 ≡ ok tt
      → ((delete_keys p >> (delete_row p.id >> delete_file is_meta p.id)) w).1.tables.projects
        ≡ keep (λ q. not (has_id p.id q)) w.tables.projects
  removed p w h =
      let (u, _, rest, one) = bind_returned (delete_keys p) _ w tt h in
      let (v, gone, last, two) = bind_returned (delete_row p.id) _ _ tt rest in
      let keys = (delete_keys-Listed w.tables.projects p).kept w refl in
      ap (λ c. c.tables.projects) (one ∙ two)
      ∙ (delete_file-Listed _ p.id).kept _ refl
      ∙ delete_row_rows p.id _ gone
      ∙ ap (keep (λ q. not (has_id p.id q))) keys

  confirmed_leaves :
      (p : Project) (o : Text) (f : Project → Bool) (w : Conn Registry)
      → o ≢ []
      → Keyed w.tables.projects
      → first f w.tables.projects ≡ some p
      → (delete_confirmed is_meta p (some o) false w).0 ≡ ok tt
      → 1 ≤ count is_active o (delete_confirmed is_meta p (some o) false w).1.tables
  unfolding delete_confirmed
  confirmed_leaves p o f w full keyed found h =
      let (u, passed, rest, same) = bind_returned (guard_last p (some o) false) _ w tt h in
      let (kept, enough) = guarded p o w full passed in
      let rows =
        ap (λ c. c.tables.projects) same
        ∙ removed p _ rest
        ∙ ap (λ s. keep (λ q. not (has_id p.id q)) s.projects) kept in
      let fewer =
        length-keep_deleted (λ q. is_owner o q && is_active q) f w.tables.projects p keyed found in
      rw rows (left p o (count is_active o w.tables) _ enough fewer)
    where
      left :
          (p : Project) (o : Text) (n m : ℕ)
          → leaves_none p n ≡ false
          → n ≤ m + (if is_owner o p && is_active p then 1 else 0)
          → 1 ≤ m
      left p o n m h k = ground arith

  abbrev by_name : Text → Option Text → Project → Exec Registry (Unit {0})
  by_name confirm_name owner p =
      if text_eq (strip confirm_name) p.name
      then delete_confirmed is_meta p (owner_or owner p.owner_id) false
      else raise value_error

  by_name_leaves :
      (confirm_name : Text) (owner : Option Text) (o : Text) (f : Project → Bool)
      (w : Conn Registry) (p : Project)
      → Keyed w.tables.projects
      → first f w.tables.projects ≡ some p
      → owner_or owner p.owner_id ≡ some o
      → o ≢ []
      → (by_name confirm_name owner p w).0 ≡ ok tt
      → 1 ≤ count is_active o (by_name confirm_name owner p w).1.tables
  by_name_leaves confirm_name owner o f w p keyed found whose full h =
      elim (Bool-cases (text_eq (strip confirm_name) p.name)) [
        | inl t ↦
            rw t (rw whose (confirmed_leaves p o f w full keyed found (rw whose at (rw t at h))))
        | inr g ↦ absurd (ground arith)
      ]

  -- Without `force`, a deletion that returned, at the word of an owner or of nobody, leaves the owner
  -- an active project, where no two projects have one id.
  pub hard_delete_project-leaves :
      (x confirm_name : Text) (owner : Option Text) (o : Text) (w : Conn Registry) (p : Project)
      → Keyed w.tables.projects
      → first (is_named x) w.tables.projects ≡ some p
      → owner_or owner p.owner_id ≡ some o
      → o ≢ []
      → (hard_delete_project is_meta x confirm_name owner false w).0 ≡ ok tt
      → 1 ≤ count is_active o (hard_delete_project is_meta x confirm_name owner false w).1.tables
  unfolding hard_delete_project
  hard_delete_project-leaves x confirm_name owner o w p keyed found whose full h =
      let (row, got, rest, one) = bind_returned (find_project x) _ w tt h in
      let (is_row, kept) = found_row x w row got in
      let is_p = sym is_row ∙ found in
      let ran : (by_name confirm_name owner p (find_project x w).1).0 ≡ ok tt = rw is_p at rest in
      let left =
        by_name_leaves confirm_name owner o (is_named x) (find_project x w).1 p (rw kept keyed)
          (rw kept found) whose full ran in
      rw one (rw is_p left)
