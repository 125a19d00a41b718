-- ===== src/Backups/Newest.antt =====
-- What it means for a backup to be among the newest, apart from the routine that sorts.
use pyronites.Base.{
  ℕ, ◌≡◌, ◌≤◌, ◌∙◌, zero, suc, leb, ◌⊎◌, ap, sym, refl, arith, Bool, true, false, List, [], ◌∷◌,
  keep, take, length, Bool-cases, inl, inr,
}
use pyronites.Backups.{Backup, insert_newest, list_backups}

none_left : (k m : ℕ) → k ≡ suc m → k ≤ 0 → ⊥
none_left k m e h = omega arith

one_fewer : (k m n : ℕ) → k ≡ suc m → k ≤ suc n → m ≤ n
one_fewer k m n e h = omega arith

module _ {S : Type 0} where
  abbrev pub Among : Backup S → List (Backup S) → Type 0
  Among b [] = ⊥
  Among b (c ∷ cs) = (b ≡ c) ⊎ Among b cs

  abbrev pub is_as_new : Backup S → Backup S → Bool
  is_as_new b c = leb b.created_at c.created_at

  -- how many backups are as new as `b` or newer, `b` itself included
  abbrev pub count_as_new : Backup S → List (Backup S) → ℕ
  count_as_new b bs = length (keep (is_as_new b) bs)

  count_cons :
      (b c : Backup S) (cs ds : List (Backup S))
      → count_as_new b cs ≡ count_as_new b ds
      → count_as_new b (c ∷ cs) ≡ count_as_new b (c ∷ ds)
  unfolding keep
  count_cons b c cs ds e = elim (Bool-cases (is_as_new b c)) [
    | inl t ↦ rw t (ap suc e)
    | inr f ↦ rw f e
  ]

  count_swap :
      (b c d : Backup S) (ds : List (Backup S))
      → count_as_new b (d ∷ c ∷ ds) ≡ count_as_new b (c ∷ d ∷ ds)
  unfolding keep
  count_swap b c d ds = elim (Bool-cases (is_as_new b c)) [
    | inl t ↦ elim (Bool-cases (is_as_new b d)) [ inl u ↦ rw t (rw u refl) | inr u ↦ ground arith ]
    | inr f ↦ elim (Bool-cases (is_as_new b d)) [ inl u ↦ ground arith | inr u ↦ rw f (rw u refl) ]
  ]

  count-insert_newest :
      (b c : Backup S) (cs : List (Backup S))
      → count_as_new b (insert_newest c cs) ≡ count_as_new b (c ∷ cs)
  unfolding insert_newest
  count-insert_newest b c [] = refl
  count-insert_newest b c (d ∷ ds) = elim (Bool-cases (leb d.created_at c.created_at)) [
    | inl t ↦ rw t refl
    | inr f ↦ rw f (count_cons b d _ (c ∷ ds) (count-insert_newest b c ds) ∙ count_swap b c d ds)
  ]

  count-list_backups :
      (b : Backup S) (bs : List (Backup S)) → count_as_new b (list_backups bs) ≡ count_as_new b bs
  unfolding list_backups
  count-list_backups b [] = refl
  count-list_backups b (c ∷ cs) =
      count-insert_newest b c (list_backups cs) ∙ count_cons b c _ cs (count-list_backups b cs)

  insert_newest-Among :
      (b c : Backup S) (cs : List (Backup S)) → Among b (c ∷ cs) → Among b (insert_newest c cs)
  unfolding insert_newest
  insert_newest-Among b c [] h = h
  insert_newest-Among b c (d ∷ ds) h = elim (Bool-cases (leb d.created_at c.created_at)) [
    | inl t ↦ rw t h
    | inr f ↦ rw f (later (insert_newest-Among b c ds) h)
  ]
    where
      later :
          (Among b (c ∷ ds) → Among b (insert_newest c ds))
          → Among b (c ∷ d ∷ ds)
          → Among b (d ∷ insert_newest c ds)
      later rest (inl e) = inr (rest (inl e))
      later rest (inr (inl e)) = inl e
      later rest (inr (inr k)) = inr (rest (inr k))

  list_backups-Among :
      (b : Backup S) (bs : List (Backup S)) → Among b bs → Among b (list_backups bs)
  unfolding list_backups
  list_backups-Among b [] h = h
  list_backups-Among b (c ∷ cs) (inl e) = insert_newest-Among b c (list_backups cs) (inl e)
  list_backups-Among b (c ∷ cs) (inr k) =
      insert_newest-Among b c (list_backups cs) (inr (list_backups-Among b cs k))

  abbrev Above : Backup S → List (Backup S) → Type 0
  Above b bs = (c : Backup S) → Among c bs → is_as_new c b ≡ true

  abbrev Sorted : List (Backup S) → Type 0
  Sorted [] = Unit {0}
  Sorted (b ∷ bs) = Above b bs × Sorted bs

  pub Among-insert :
      (b c : Backup S) (cs : List (Backup S)) → Among b (insert_newest c cs) → Among b (c ∷ cs)
  unfolding insert_newest
  Among-insert b c [] h = h
  Among-insert b c (d ∷ ds) h = elim (Bool-cases (leb d.created_at c.created_at)) [
    | inl older ↦ rw older at h
    | inr newer ↦ later (Among-insert b c ds) (rw newer at h)
  ]
    where
      later :
          (Among b (insert_newest c ds) → Among b (c ∷ ds))
          → Among b (d ∷ insert_newest c ds)
          → Among b (c ∷ d ∷ ds)
      later rest (inl e) = inr (inl e)
      later rest (inr k) = elim (rest k) [ inl e ↦ inl e | inr m ↦ inr (inr m) ]

  older_too :
      (b c d : Backup S) → is_as_new b c ≡ true → is_as_new c d ≡ true → is_as_new b d ≡ true
  older_too b c d h k = leb_trans b.created_at c.created_at d.created_at h k
    where
      leb_trans : (l m n : ℕ) → leb l m ≡ true → leb m n ≡ true → leb l n ≡ true
      leb_trans l m n h k = ground arith

  insert_newest-Sorted :
      (c : Backup S) (cs : List (Backup S)) → Sorted cs → Sorted (insert_newest c cs)
  unfolding insert_newest
  insert_newest-Sorted c [] s = ((λ b m. absurd m), tt)
  insert_newest-Sorted c (d ∷ ds) s = elim (Bool-cases (leb d.created_at c.created_at)) [
    | inl t ↦ rw t (above t, s)
    | inr f ↦ rw f (below f, insert_newest-Sorted c ds s.1)
  ]
    where
      above : is_as_new d c ≡ true → Above c (d ∷ ds)
      above t b (inl e) = ap (λ x. is_as_new x c) e ∙ t
      above t b (inr k) = older_too b d c (s.0 b k) t

      turn : (m n : ℕ) → leb m n ≡ false → leb n m ≡ true
      turn m n f = ground arith

      below : is_as_new d c ≡ false → Above d (insert_newest c ds)
      below f b h = elim (Among-insert b c ds h) [
        | inl e ↦ ap (λ x. is_as_new x d) e ∙ turn d.created_at c.created_at f
        | inr k ↦ s.0 b k
      ]

  list_backups-Sorted : (bs : List (Backup S)) → Sorted (list_backups bs)
  unfolding list_backups
  list_backups-Sorted [] = tt
  list_backups-Sorted (b ∷ bs) = insert_newest-Sorted b (list_backups bs) (list_backups-Sorted bs)

  count_first :
      (b c : Backup S) (cs : List (Backup S))
      → is_as_new b c ≡ true
      → count_as_new b (c ∷ cs) ≡ suc (count_as_new b cs)
  unfolding keep
  count_first b c cs h = rw h refl

  itself : (b c : Backup S) → b ≡ c → is_as_new b c ≡ true
  itself b c e = ap (is_as_new b) (sym e) ∙ self b.created_at
    where
      self : (n : ℕ) → leb n n ≡ true
      self n = ground arith

  Among-take :
      (b : Backup S) (n : ℕ) (bs : List (Backup S))
      → Sorted bs
      → Among b bs
      → count_as_new b bs ≤ n
      → Among b (take n bs)
  Among-take b n [] s m h = absurd m
  Among-take b zero (c ∷ cs) s (inl e) h =
      absurd (none_left _ _ (count_first b c cs (itself b c e)) h)
  Among-take b zero (c ∷ cs) s (inr k) h = absurd (none_left _ _ (count_first b c cs (s.0 b k)) h)
  Among-take b (suc n) (c ∷ cs) s (inl e) h = inl e
  Among-take b (suc n) (c ∷ cs) s (inr k) h =
      inr (Among-take b n cs s.1 k (one_fewer _ _ n (count_first b c cs (s.0 b k)) h))

  -- a backup that at most `n` are as new as is one of the first `n` of the sorted list
  pub newest_first :
      (b : Backup S) (n : ℕ) (bs : List (Backup S))
      → Among b bs
      → count_as_new b bs ≤ n
      → Among b (take n (list_backups bs))
  newest_first b n bs m h =
      Among-take b n (list_backups bs) (list_backups-Sorted bs) (list_backups-Among b bs m)
        (rw (count-list_backups b bs) h)
