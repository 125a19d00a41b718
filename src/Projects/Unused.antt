-- ===== src/Projects/Unused.antt =====
-- The slug that _unique_slug returns is one that no project has.
use pyronites.Base.{
  ℕ, zero, suc, ◌+◌, ◌≡◌, ◌∙◌, ap, refl, arith, true, Option, none, some, Text, first,
  if◌then◌else◌, Bool-cases, inl, inr,
}
use pyronites.Db.{ok, Conn, Exec, execute, pure}
use pyronites.Db.Transaction.{bind_returned}
use pyronites.Projects.{
  Project, Registry, is_free, takes_slug, select_slug, allocate, unique_slug, numbered,
}

select_slug_row :
    (slug : Text) (w : Conn Registry) (o : Option Project)
    → (select_slug slug w).0 ≡ ok o
    → (first (takes_slug slug) w.tables.projects ≡ o) × ((select_slug slug w).1.tables ≡ w.tables)
unfolding select_slug execute
select_slug_row slug w o h = (ground arith, ground arith)

-- a free candidate is taken, and what comes next answers otherwise
free_or :
    (candidate : Text) (exclude : Option Text) (o : Option Project) (next : Exec Registry Text)
    (v : Conn Registry) (c : Text)
    → first (takes_slug candidate) v.tables.projects ≡ o
    → ((next v).0 ≡ ok c
        → (is_free exclude (first (takes_slug c) v.tables.projects) ≡ true)
          × ((next v).1.tables ≡ v.tables))
    → ((if is_free exclude o then pure candidate else next) v).0 ≡ ok c
    → (is_free exclude (first (takes_slug c) v.tables.projects) ≡ true)
      × (((if is_free exclude o then pure candidate else next) v).1.tables ≡ v.tables)
free_or candidate exclude o next v c row k h = elim (Bool-cases (is_free exclude o)) [
  | inl t ↦ let same : candidate ≡ c = ground arith in (rw (← same) (rw row t), rw t refl)
  | inr f ↦ rw f (k (rw f at h))
]

module _ (str : ℕ → Text) where
  -- a slug that was allocated is free
  allocate_free :
      (base : Text) (exclude : Option Text) (left n : ℕ) (candidate : Text) (w : Conn Registry)
      (c : Text)
      → (allocate str base exclude left n candidate w).0 ≡ ok c
      → (is_free exclude (first (takes_slug c) w.tables.projects) ≡ true)
        × ((allocate str base exclude left n candidate w).1.tables ≡ w.tables)
  unfolding allocate
  allocate_free base exclude zero n candidate w c h =
      let (o, got, rest, one) = bind_returned (select_slug candidate) _ w c h in
      let (row, kept) = select_slug_row candidate w o got in
      let (free, same) =
        free_or candidate exclude o _ _ c (rw kept row) (λ e. absurd (ground arith)) rest in
      (rw kept at free, ap (λ v. v.tables) one ∙ same ∙ kept)
  allocate_free base exclude (suc left) n candidate w c h =
      let (o, got, rest, one) = bind_returned (select_slug candidate) _ w c h in
      let (row, kept) = select_slug_row candidate w o got in
      let (free, same) =
        free_or candidate exclude o _ _ c (rw kept row)
          (allocate_free base exclude left (n + 1) (numbered str base n) _ c) rest in
      (rw kept at free, ap (λ v. v.tables) one ∙ same ∙ kept)

  pub unique_slug_free :
      (base : Text) (w : Conn Registry) (c : Text)
      → (unique_slug str base none w).0 ≡ ok c
      → (first (takes_slug c) w.tables.projects ≡ none)
        × ((unique_slug str base none w).1.tables ≡ w.tables)
  unfolding unique_slug
  unique_slug_free base w c h =
      let (free, same) = allocate_free base none 998 2 base w c h in (unfree _ free, same)
    where
      unfree : (o : Option Project) → is_free none o ≡ true → o ≡ none
      unfree none e = refl
      unfree (some p) e = absurd (ground arith)
