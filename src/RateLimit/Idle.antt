-- ===== src/RateLimit/Idle.antt =====
-- Who waits for a window is let in again.
use pyronites.Base.{
  ℕ, ◌+◌, ◌≡◌, ◌≤◌, ◌⊎◌, inl, inr, refl, ap, arith, true, false, not, List, [], ◌∷◌, Text, keep,
  All, All-keep, leb, length,
}
use pyronites.Db.{ok, healthy}
use pyronites.RateLimit.{
  Hit, Verdict, is_of, is_expired, is_live, cleanup, count_hits, check_and_record,
}
use pyronites.RateLimit.Check.{cleaned, used, check_and_record-healthy}

module _ (key endpoint : Text) (window now : ℕ) where
  -- of another client or endpoint, or at least a window ago
  abbrev pub IsOld : Hit → Type 0
  IsOld h = (is_of key endpoint h ≡ false) ⊎ (h.hit_at + window ≤ now)

  none_live : (t : List Hit) → All IsOld t → keep (is_live key endpoint window now) t ≡ []
  unfolding is_live keep
  none_live [] h = refl
  none_live (x ∷ t) (inl other, h) = ground (arith, none_live t h)
  none_live (x ∷ t) (inr old, h) = ground (arith, none_live t h)

  pub used_none : (t : List Hit) → All IsOld t → used key endpoint window now t ≡ 0
  unfolding cleanup count_hits
  used_none t h = ap length (
      none_live (cleaned key endpoint now t)
        (All-keep IsOld (λ x. not (is_expired key endpoint now x)) t h))

module _ (second : ℕ) (key endpoint : Text) (limit window now : ℕ) where
  -- Where every hit is old and the limit is not zero, the request is granted.
  pub check_and_record_idle :
      (t : List Hit)
      → 1 ≤ limit
      → All (IsOld key endpoint window now) t
      → (v : Verdict) × (h : List Hit) × (v.allowed ≡ true)
        × (check_and_record second key endpoint limit window now (healthy t) ≡ (ok v, healthy h))
  check_and_record_idle t room old =
      let room : leb limit (used key endpoint window now t) ≡ false =
        ground (arith, used_none key endpoint window now t old) in
      let run = check_and_record-healthy second key endpoint limit window now t in
      (_, _, refl, rw room at run)
