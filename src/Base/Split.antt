-- ===== src/Base/Split.antt =====
-- `s.split(sep)` at a single character, and `sep.join(parts)`.
use mathlib.Core.Path.{◌≡◌, refl, ap, ◌∙◌}
use mathlib.Core.Bool.{true, not}
use mathlib.Core.List.{List, [], ◌∷◌, ◌++◌}
use Prim.Native.Nat.{ℕ}
use native.Mathlib.Omega.{arith}
use pyronites.Base.Tests.{◌==◌, if◌then◌else◌}
use pyronites.Base.Lists.{all, All}
use pyronites.Base.Texts.{Text, join}

abbrev pub extend : ℕ → List Text → List Text
extend c [] = (c ∷ []) ∷ []
extend c (w ∷ ws) = (c ∷ w) ∷ ws

unfoldable pub split : ℕ → Text → List Text
split sep [] = [] ∷ []
split sep (c ∷ s) = let rest = split sep s in if c == sep then [] ∷ rest else extend c rest

abbrev pub Without : ℕ → Text → Type 0
Without sep s = all (λ c. not (c == sep)) s ≡ true

split_one : (sep : ℕ) (s : Text) → Without sep s → split sep s ≡ s ∷ []
unfolding split all
split_one sep [] h = refl
split_one sep (c ∷ s) h = ground (arith, split_one sep s)

split-append : (sep : ℕ) (s t : Text) → Without sep s → split sep (s ++ sep ∷ t) ≡ s ∷ split sep t
unfolding split all
split-append sep [] t h = ground arith
split-append sep (c ∷ s) t h = ground (arith, split-append sep s t)

-- splitting undoes joining, where no part holds the separator
pub split-join :
    (sep : ℕ) (s : Text) (ss : List Text)
    → All (Without sep) (s ∷ ss)
    → split sep (join (sep ∷ []) (s ∷ ss)) ≡ s ∷ ss
unfolding join
split-join sep s [] h = split_one sep s h.0
split-join sep s (t ∷ ts) h =
    split-append sep s (join (sep ∷ []) (t ∷ ts)) h.0 ∙ ap (◌∷◌ s) (split-join sep t ts h.1)
