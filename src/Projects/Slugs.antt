-- ===== src/Projects/Slugs.antt =====
-- backend/core/projects.py: `slugify`, the names of project files.
use mathlib.Core.List.{reverse, reverse-cons, reverse-append}
use pyronites.Base.{
  ℕ, ◌≡◌, ◌⊎◌, refl, ap, ◌∙◌, zero, suc, length-take, arith, ◌==◌, Bool, true, false, ◌&&◌, ◌||◌,
  [], ◌∷◌, ◌++◌, Text, codes, strip, lower, keep, all, take, length, leb, if◌then◌else◌, Bool-cases,
  inl, inr,
}
use pyronites.Db.{Result, ok, err, value_error}

abbrev pub dash : ℕ
dash = b'-'

-- [a-z0-9]
unfoldable pub is_plain : ℕ → Bool
is_plain c = (leb b'a' c && leb c b'z') || (leb b'0' c && leb c b'9')

-- [a-z0-9-]
abbrev pub is_slug_char : ℕ → Bool
is_slug_char c = is_plain c || c == dash

-- `re.sub(r"[^a-z0-9]+", "-", s)`; `dashed`: the last character became a dash
unfoldable pub dashes : Bool → Text → Text
unfolding is_plain
dashes dashed [] = []
dashes dashed (c ∷ s) = elim (is_plain c) [
  | true ↦ c ∷ dashes false s
  | false ↦ elim dashed [ true ↦ dashes true s | false ↦ dash ∷ dashes true s ]
]

-- `.lstrip("-")`
unfoldable pub lstrip_dashes : Text → Text
lstrip_dashes [] = []
lstrip_dashes (c ∷ s) = if c == dash then lstrip_dashes s else c ∷ s

unfoldable pub strip_dashes : Text → Text
unfolding lstrip_dashes
strip_dashes s = reverse (lstrip_dashes (reverse (lstrip_dashes s)))

-- _SLUG_RE, on a text without a newline
unfoldable pub is_slug : Text → Bool
unfolding is_plain
is_slug [] = false
is_slug (c ∷ s) = is_plain c && all is_slug_char s && leb (length s) 62

abbrev pub or_project : Text → Text
or_project [] = codes "project"
or_project (c ∷ s) = c ∷ s

-- slugify
unfoldable pub slugify : Text → Text
unfolding dashes strip_dashes is_slug
slugify name =
    let s = or_project (strip_dashes (dashes false (lower name))) in
    take 63 (if is_slug s then s else or_project (take 63 (keep is_slug_char s)))

-- the first pattern of project_file_path: [a-fA-F0-9-]{36}
unfoldable pub is_uuid_char : ℕ → Bool
is_uuid_char c =
    (leb b'a' c && leb c b'f')
    || (leb b'A' c && leb c b'F')
    || (leb b'0' c && leb c b'9')
    || c == dash

-- project_file_path: the file's name, whose directory is projects_dir()
unfoldable pub project_file_path : Text → Result Text
unfolding is_uuid_char is_slug
project_file_path project_id =
    let safe = strip project_id in
    if (all is_uuid_char safe && length safe == 36) || is_slug safe
    then ok (safe ++ codes ".db")
    else err value_error

-- of the form [a-z0-9][a-z0-9-]*, of any length
abbrev IsPlain : Text → Type 0
IsPlain s = (c : ℕ) × (t : Text) × (s ≡ c ∷ t) × (is_plain c ≡ true) × (all is_slug_char t ≡ true)

dashes-all : (b : Bool) (s : Text) → all is_slug_char (dashes b s) ≡ true
unfolding all dashes
dashes-all b [] = refl
dashes-all true (c ∷ s) = elim (Bool-cases (is_plain c)) [
  | inl t ↦ ground (arith, dashes-all false s)
  | inr f ↦ ground (arith, dashes-all true s)
]
dashes-all false (c ∷ s) = elim (Bool-cases (is_plain c)) [
  | inl t ↦ ground (arith, dashes-all false s)
  | inr f ↦ ground (arith, dashes-all true s)
]

lstrip_dashes-all :
    (s : Text) → all is_slug_char s ≡ true → all is_slug_char (lstrip_dashes s) ≡ true
unfolding all lstrip_dashes
lstrip_dashes-all [] h = h
lstrip_dashes-all (c ∷ s) h = ground (arith, lstrip_dashes-all s)

-- without dashes in front
lstrip_dashes-IsPlain :
    (s : Text) → all is_slug_char s ≡ true → (lstrip_dashes s ≡ []) ⊎ IsPlain (lstrip_dashes s)
unfolding all lstrip_dashes
lstrip_dashes-IsPlain [] h = inl refl
lstrip_dashes-IsPlain (c ∷ s) h = elim (Bool-cases (c == dash)) [
  | inl t ↦ rw t (lstrip_dashes-IsPlain s (ground arith))
  | inr f ↦ rw f (inr (c, s, refl, ground arith, ground arith))
]

all-append : (p : ℕ → Bool) (s t : Text) → all p s ≡ true → all p t ≡ true → all p (s ++ t) ≡ true
unfolding all
all-append p [] t h k = k
all-append p (c ∷ s) t h k = ground (arith, all-append p s t)

all-reverse : (p : ℕ → Bool) (s : Text) → all p s ≡ true → all p (reverse s) ≡ true
unfolding all
all-reverse p [] h = refl
all-reverse p (c ∷ s) h =
    rw (reverse-cons c s)
      (all-append p (reverse s) (c ∷ []) (all-reverse p s (ground arith)) (ground arith))

lstrip_dashes-last :
    (s : Text) (c : ℕ) → is_plain c ≡ true → lstrip_dashes (s ++ c ∷ []) ≡ lstrip_dashes s ++ c ∷ []
unfolding lstrip_dashes is_plain
lstrip_dashes-last [] c h = ground arith
lstrip_dashes-last (d ∷ s) c h = ground (arith, lstrip_dashes-last s c h)

-- a first character that is no dash stays
trimmed :
    (c : ℕ) (t : Text)
    → is_plain c ≡ true
    → reverse (lstrip_dashes (reverse (c ∷ t))) ≡ c ∷ reverse (lstrip_dashes (reverse t))
trimmed c t head =
    ap (λ u. reverse (lstrip_dashes u)) (reverse-cons c t)
    ∙ ap reverse (lstrip_dashes-last (reverse t) c head)
    ∙ reverse-append (lstrip_dashes (reverse t)) (c ∷ [])

strip_dashes-IsPlain :
    (s : Text) → all is_slug_char s ≡ true → IsPlain (or_project (strip_dashes s))
unfolding strip_dashes all is_plain lstrip_dashes
strip_dashes-IsPlain s h = elim (lstrip_dashes-IsPlain s h) [
  | inl e ↦ rw e (b'p', codes "roject", refl, refl, refl)
  | inr (c, t, e, head, tail) ↦ (
    c,
    reverse (lstrip_dashes (reverse t)),
    ap (λ u. or_project (reverse (lstrip_dashes (reverse u)))) e ∙ ap or_project (trimmed c t head),
    head,
    all-reverse is_slug_char (lstrip_dashes (reverse t))
        (lstrip_dashes-all (reverse t) (all-reverse is_slug_char t tail)),
  )
]

all-take : (p : ℕ → Bool) (n : ℕ) (s : Text) → all p s ≡ true → all p (take n s) ≡ true
unfolding all
all-take p zero s h = refl
all-take p (suc n) [] h = refl
all-take p (suc n) (c ∷ s) h = ground (arith, all-take p n s)

keep-all : (p : ℕ → Bool) (s : Text) → all p s ≡ true → keep p s ≡ s
unfolding keep all
keep-all p [] h = refl
keep-all p (c ∷ s) h = ground (arith, keep-all p s)

take-take : (n : ℕ) (s : Text) → take n (take n s) ≡ take n s
take-take zero s = refl
take-take (suc n) [] = refl
take-take (suc n) (c ∷ s) = ap (λ t. c ∷ t) (take-take n s)

short-take : (n : ℕ) (s : Text) → leb (length (take n s)) n ≡ true
short-take n s = ground (arith, length-take n s)

take-IsSlug : (s : Text) → IsPlain s → is_slug (take 63 s) ≡ true
unfolding is_slug
take-IsSlug s (c, t, e, head, tail) =
    rw e (rw head (rw (all-take is_slug_char 62 t tail) (short-take 62 t)))

shortened :
    (s : Text) → IsPlain s → take 63 (or_project (take 63 (keep is_slug_char s))) ≡ take 63 s
unfolding all
shortened s (c, t, e, head, tail) =
    let same : keep is_slug_char s ≡ s = rw e (keep-all is_slug_char (c ∷ t) (ground arith)) in
    rw same (rw e (take-take 63 (c ∷ t)))

-- Whatever the name, `slugify` makes a slug of it: a letter or digit and at most 62 letters, digits
-- and dashes.
pub slugify-IsSlug : (name : Text) → is_slug (slugify name) ≡ true
unfolding slugify
slugify-IsSlug name =
    let s = or_project (strip_dashes (dashes false (lower name))) in
    let plain : IsPlain s = strip_dashes-IsPlain _ (dashes-all false (lower name)) in
    elim (Bool-cases (is_slug s)) [
      | inl t ↦ rw t (take-IsSlug s plain)
      | inr f ↦ rw f (rw (shortened s plain) (take-IsSlug s plain))
    ]
