-- ===== src/Backups/Retention.antt =====
-- What pruning keeps.
use pyronites.Base.{
  ℕ, ◌≡◌, ◌≤◌, zero, suc, ap, sym, subst, refl, arith, Bool, true, false, not, List, [], ◌∷◌, Text,
  keep, any, take, drop, max, All, Bool-cases, inl, inr,
}
use pyronites.Db.{Exc, Conn, os_error}
use pyronites.Db.Preserves.{
  Preserves, Preserves-execute, Preserves-bind, Preserves-catch, Preserves-pure,
}
use pyronites.Backups.Newest.{Among, Among-insert, count_as_new, newest_first}
use pyronites.Backups.{
  Backup, Disk, is_at, unlink, unlink_all, on_unlink_error, list_backups, prune_backups,
}

module _ {S : Type 0} where
  abbrev pub OnDisk : Backup S → Disk S → Type 0
  OnDisk b d = Among b d.backups

  -- no two of the files have one path
  abbrev pub Distinct : List (Backup S) → Type 0
  Distinct [] = Unit {0}
  Distinct (b ∷ bs) = (any (λ c. is_at c.path b) bs ≡ false) × Distinct bs

  Among-keep :
      (b : Backup S) (p : Backup S → Bool) (bs : List (Backup S))
      → p b ≡ true
      → Among b bs
      → Among b (keep p bs)
  unfolding keep
  Among-keep b p [] t h = h
  Among-keep b p (c ∷ cs) t h = elim (Bool-cases (p c)) [
    | inl kept ↦ rw kept (elim h [ inl e ↦ inl e | inr k ↦ inr (Among-keep b p cs t k) ])
    | inr gone ↦ rw gone (elim h [ inl e ↦ absurd (clash e gone) | inr k ↦ Among-keep b p cs t k ])
  ]
    where
      clash : b ≡ c → p c ≡ false → ⊥
      clash e gone = ground arith

  unlink-OnDisk :
      (b : Backup S) (path : Text) → is_at path b ≡ false → Preserves (OnDisk b) (unlink path)
  unfolding unlink
  unlink-OnDisk b path f = Preserves-execute _ (λ d h. Among-keep b _ d.backups (ap not f) h)

  on_unlink_error-OnDisk : (b : Backup S) (e : Exc) → Preserves (OnDisk b) (on_unlink_error e)
  on_unlink_error-OnDisk b os_error = Preserves-pure tt
  on_unlink_error-OnDisk b _ = record { kept = λ w h. h }

  unlink_all-OnDisk :
      (b : Backup S) (bs : List (Backup S))
      → any (λ c. is_at c.path b) bs ≡ false
      → Preserves (OnDisk b) (unlink_all bs)
  unfolding unlink_all any
  unlink_all-OnDisk b [] f = Preserves-pure tt
  unlink_all-OnDisk b (c ∷ cs) f =
      Preserves-bind _ _
        (Preserves-catch _ _ (unlink-OnDisk b c.path (ground arith)) (on_unlink_error-OnDisk b))
        (λ _. unlink_all-OnDisk b cs (ground arith))

  Among-list_backups :
      (b : Backup S) (bs : List (Backup S)) → Among b (list_backups bs) → Among b bs
  unfolding list_backups
  Among-list_backups b [] h = h
  Among-list_backups b (c ∷ cs) h = elim (Among-insert b c _ h) [
    | inl e ↦ inl e
    | inr k ↦ inr (Among-list_backups b cs k)
  ]

  any-drop :
      (p : Backup S → Bool) (n : ℕ) (bs : List (Backup S))
      → any p bs ≡ false
      → any p (drop n bs) ≡ false
  unfolding any
  any-drop p zero bs f = f
  any-drop p (suc n) [] f = refl
  any-drop p (suc n) (b ∷ bs) f = any-drop p n bs (ground arith)

  kept_apart :
      (P : Backup S → Type 0) (n : ℕ) (bs : List (Backup S))
      → Distinct bs
      → ((b : Backup S) → Among b bs → any (λ c. is_at c.path b) (drop n bs) ≡ false → P b)
      → All P (take n bs)
  kept_apart P zero bs d k = tt
  kept_apart P (suc n) [] d k = tt
  kept_apart P (suc n) (b ∷ bs) d k =
      (k b (inl refl) (any-drop _ n bs d.0), kept_apart P n bs d.1 (λ c m f. k c (inr m) f))

  all_among :
      (P : Backup S → Type 0) (b : Backup S) (bs : List (Backup S)) → All P bs → Among b bs → P b
  all_among P b [] h m = absurd m
  all_among P b (c ∷ cs) h (inl e) = subst P (sym e) h.0
  all_among P b (c ∷ cs) h (inr k) = all_among P b cs h.1 k

  first_kept :
      (count : ℕ) (w : Conn (Disk S))
      → Distinct (list_backups w.tables.backups)
      → All
          (λ b. OnDisk b (prune_backups count w).1.tables)
          (take (max 1 count) (list_backups w.tables.backups))
  unfolding prune_backups
  first_kept count w d =
      kept_apart _ (max 1 count) _ d
        λ b m apart. (unlink_all-OnDisk b _ apart).kept w (Among-list_backups b _ m)

  -- Whatever deletions fail, and where no two backup files have one path: pruning leaves on disk
  -- every backup that, itself included, no more backups are as new as than the retention says (one,
  -- where it says 0). And it leaves on disk the files that `list_backups` names first, as many as
  -- the retention says and at least one, or all where there are fewer.
  pub prune_backups-keeps :
      (count : ℕ) (w : Conn (Disk S)) (b : Backup S)
      → Distinct (list_backups w.tables.backups)
      → Among b w.tables.backups
      → count_as_new b w.tables.backups ≤ max 1 count
      → OnDisk b (prune_backups count w).1.tables
        × All
            (λ c. OnDisk c (prune_backups count w).1.tables)
            (take (max 1 count) (list_backups w.tables.backups))
  prune_backups-keeps count w b d m few =
      let kept = first_kept count w d in
      (
        all_among (λ c. OnDisk c (prune_backups count w).1.tables) b _ kept
            (newest_first b (max 1 count) w.tables.backups m few),
        kept,
      )
