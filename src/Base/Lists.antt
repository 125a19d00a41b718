-- ===== src/Base/Lists.antt =====
-- Lists measured by native numbers, and filters by a Boolean test (a `WHERE` clause, a
-- comprehension with a condition).
use Prim.Native.Nat.{ℕ, zero, suc, ◌+◌, ◌≤◌, min}
use mathlib.Core.Path.{◌≡◌, refl, subst}
use mathlib.Core.Logic.{inl, inr}
use mathlib.Core.Bool.{Bool, true, false, ◌&&◌, ◌||◌}
use mathlib.Core.List.{List, [], ◌∷◌, ◌++◌}
use mathlib.Core.Option.{Option, none, some}
use native.Mathlib.Omega.{arith}
use pyronites.Base.Tests.{if◌then◌else◌, Bool-cases}

module _ {ℓ} {A : Type ℓ} where
  abbrev pub length : List A → ℕ
  length [] = 0
  length (x ∷ xs) = suc (length xs)

  abbrev pub take : ℕ → List A → List A
  take zero xs = []
  take (suc n) [] = []
  take (suc n) (x ∷ xs) = x ∷ take n xs

  abbrev pub drop : ℕ → List A → List A
  drop zero xs = xs
  drop (suc n) [] = []
  drop (suc n) (x ∷ xs) = drop n xs

  -- the rows that pass a test
  unfoldable pub keep : (A → Bool) → List A → List A
  keep p [] = []
  keep p (x ∷ xs) = let rest = keep p xs in if p x then x ∷ rest else rest

  -- the first row that passes a test: `fetchone`
  unfoldable pub first : (A → Bool) → List A → Option A
  first p [] = none
  first p (x ∷ xs) = if p x then some x else first p xs

  -- `UPDATE … WHERE`
  unfoldable pub update : (A → Bool) → (A → A) → List A → List A
  update p f [] = []
  update p f (x ∷ xs) = (if p x then f x else x) ∷ update p f xs

  unfoldable pub any : (A → Bool) → List A → Bool
  any p [] = false
  any p (x ∷ xs) = p x || any p xs

  unfoldable pub all : (A → Bool) → List A → Bool
  all p [] = true
  all p (x ∷ xs) = p x && all p xs

  abbrev pub All {κ} : (A → Type κ) → List A → Type κ
  All P [] = Unit
  All P (x ∷ xs) = P x × All P xs

module _ {ℓ} {A : Type ℓ} where
  pub length-append : (xs ys : List A) → length (xs ++ ys) ≡ length xs + length ys
  length-append [] ys = omega arith
  length-append (x ∷ xs) ys = omega (arith, length-append xs ys)

  pub length-take : (n : ℕ) (xs : List A) → length (take n xs) ≡ min n (length xs)
  length-take zero xs = omega arith
  length-take (suc n) [] = omega arith
  length-take (suc n) (x ∷ xs) = omega (arith, length-take n xs)

  pub length-keep-le : (p : A → Bool) (xs : List A) → length (keep p xs) ≤ length xs
  unfolding keep
  length-keep-le p [] = omega arith
  length-keep-le p (x ∷ xs) = ground (arith, length-keep-le p xs)

  pub keep-append : (p : A → Bool) (xs ys : List A) → keep p (xs ++ ys) ≡ keep p xs ++ keep p ys
  unfolding keep
  keep-append p [] ys = refl
  keep-append p (x ∷ xs) ys = ground (arith, keep-append p xs ys)

  -- a second filter that the first one implies changes nothing
  pub keep-keep :
      (p q : A → Bool) (xs : List A)
      → All (λ x. p x ≡ true → q x ≡ true) xs
      → keep p (keep q xs) ≡ keep p xs
  unfolding keep
  keep-keep p q [] h = refl
  keep-keep p q (x ∷ xs) h = ground (arith, h.0, keep-keep p q xs h.1)

  pub first-keep :
      (p q : A → Bool) (xs : List A)
      → ((x : A) → p x ≡ true → q x ≡ true)
      → first p (keep q xs) ≡ first p xs
  unfolding keep first
  first-keep p q [] h = refl
  first-keep p q (x ∷ xs) h = ground (arith, h x, first-keep p q xs h)

  -- what is deleted is not found again
  pub first-keep-none :
      (p q : A → Bool) (xs : List A)
      → ((x : A) → p x ≡ true → q x ≡ false)
      → first p (keep q xs) ≡ none
  unfolding keep first
  first-keep-none p q [] h = refl
  first-keep-none p q (x ∷ xs) h = ground (arith, h x, first-keep-none p q xs h)

  pub first-keep_kept :
      (p q : A → Bool) (xs : List A) (x : A)
      → first p xs ≡ some x
      → q x ≡ true
      → first p (keep q xs) ≡ some x
  unfolding first keep
  first-keep_kept p q [] x h k = absurd (ground arith)
  first-keep_kept p q (y ∷ xs) x h k = ground (arith, first-keep_kept p q xs x)

  pub first_sound : (p : A → Bool) (xs : List A) (x : A) → first p xs ≡ some x → p x ≡ true
  unfolding first
  first_sound p [] x h = cc
  first_sound p (y ∷ ys) x h = ground (arith, first_sound p ys x)

  pub first-none-All : (p : A → Bool) (xs : List A) → first p xs ≡ none → All (λ x. p x ≡ false) xs
  unfolding first
  first-none-All p [] h = tt
  first-none-All p (x ∷ xs) h = (ground arith, first-none-All p xs (ground arith))

  pub any-eq-first : (p : A → Bool) (xs : List A) → first p xs ≡ none → any p xs ≡ false
  unfolding first any
  any-eq-first p [] h = refl
  any-eq-first p (x ∷ xs) h = ground (arith, any-eq-first p xs)

  pub All-keep {κ} : (P : A → Type κ) (p : A → Bool) (xs : List A) → All P xs → All P (keep p xs)
  unfolding keep
  All-keep P p [] h = tt
  All-keep P p (x ∷ xs) h = elim (Bool-cases (p x)) [
    | inl t ↦ rw t (h.0, All-keep P p xs h.1)
    | inr f ↦ rw f (All-keep P p xs h.1)
  ]

  pub first-All {κ} :
      (P : A → Type κ) (p : A → Bool) (xs : List A) (x : A) → All P xs → first p xs ≡ some x → P x
  unfolding first
  first-All P p [] x h e = absurd (ground arith)
  first-All P p (y ∷ ys) x h e = elim (Bool-cases (p y)) [
    | inl t ↦ (let same : y ≡ x = ground arith in subst P same h.0)
    | inr f ↦ first-All P p ys x h.1 (rw f at e)
  ]

  pub All-append {κ} : (P : A → Type κ) (xs ys : List A) → All P xs → All P ys → All P (xs ++ ys)
  All-append P [] ys h k = k
  All-append P (x ∷ xs) ys h k = (h.0, All-append P xs ys h.1 k)

  pub All-map {κ μ} :
      (P : A → Type κ) (Q : A → Type μ) (xs : List A) → ((x : A) → P x → Q x) → All P xs → All Q xs
  All-map P Q [] f h = tt
  All-map P Q (x ∷ xs) f h = (f x h.0, All-map P Q xs f h.1)

  -- what is appended is found, if nothing before it passes the test
  pub first-append_new :
      (p : A → Bool) (xs : List A) (x : A)
      → any p xs ≡ false
      → p x ≡ true
      → first p (xs ++ x ∷ []) ≡ some x
  unfolding first any
  first-append_new p [] x h e = ground arith
  first-append_new p (y ∷ ys) x h e = ground (arith, first-append_new p ys x)

  pub first-append_found :
      (p : A → Bool) (xs ys : List A) (x : A) → first p xs ≡ some x → first p (xs ++ ys) ≡ some x
  unfolding first
  first-append_found p [] ys x h = absurd (ground arith)
  first-append_found p (y ∷ zs) ys x h = ground (arith, first-append_found p zs ys x)

  -- a weaker test that fails everywhere
  pub any-false :
      (p q : A → Bool) (xs : List A)
      → ((x : A) → p x ≡ true → q x ≡ true)
      → any q xs ≡ false
      → any p xs ≡ false
  unfolding any
  any-false p q [] h e = refl
  any-false p q (x ∷ xs) h e = ground (arith, h x, any-false p q xs h)

  pub All-keep_self : (p : A → Bool) (xs : List A) → All (λ x. p x ≡ true) (keep p xs)
  unfolding keep
  All-keep_self p [] = tt
  All-keep_self p (x ∷ xs) = elim (Bool-cases (p x)) [
    | inl t ↦ rw t (t, All-keep_self p xs)
    | inr f ↦ rw f (All-keep_self p xs)
  ]

  -- an update that does not change whether a row passes `p`
  pub first-update :
      (p q : A → Bool) (f : A → A) (xs : List A) (x : A)
      → ((y : A) → p (f y) ≡ p y)
      → first p xs ≡ some x
      → first p (update q f xs) ≡ some (if q x then f x else x)
  unfolding first update
  first-update p q f [] x h e = ground arith
  first-update p q f (y ∷ ys) x h e = ground (arith, h y, first-update p q f ys x h)

  -- what is found is there
  pub first-any :
      (p q : A → Bool) (xs : List A) (x : A) → first p xs ≡ some x → q x ≡ true → any q xs ≡ true
  unfolding first any
  first-any p q [] x h e = absurd (ground arith)
  first-any p q (y ∷ ys) x h e = ground (arith, first-any p q ys x)
