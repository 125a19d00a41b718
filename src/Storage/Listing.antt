-- ===== src/Storage/Listing.antt =====
-- backend/core/storage.py: `list`, whose prefix is a LIKE pattern.
use pyronites.Base.{
  ℕ, ◌≡◌, refl, ap, ◌∙◌, map, arith, ◌==◌, Bool, true, false, ◌&&◌, ◌||◌, Option, none, some, List,
  [], ◌∷◌, ◌++◌, Text, text_eq, lower, lower_char, starts_with, keep, any, take, drop, leb,
  if◌then◌else◌,
}
use pyronites.Db.{ok, Exec, execute}
use pyronites.Storage.{FileRecord, Store}

abbrev percent : ℕ
percent = b'%'

abbrev backslash : ℕ
backslash = b'\\'

abbrev pub is_special : ℕ → Bool
is_special c = c == backslash || c == percent || c == b'_'

-- the three calls of `replace`: none of them changes what another has added
unfoldable pub escape_prefix : Text → Text
escape_prefix [] = []
escape_prefix (c ∷ s) =
    let rest = escape_prefix s in if is_special c then backslash ∷ c ∷ rest else c ∷ rest

abbrev pub pattern_of : Text → Text
pattern_of prefix = escape_prefix prefix ++ percent ∷ []

-- the ends of a text
unfoldable pub tails : Text → List Text
tails [] = [] ∷ []
tails (c ∷ s) = (c ∷ s) ∷ tails s

-- what a LIKE pattern is made of
pub data Token : Type 0 where
  any_text any_char : Token
  char : ℕ → Token

abbrev token : ℕ → Token
token c = if c == percent then any_text else if c == b'_' then any_char else char c

-- a pattern with ESCAPE '\'; `escaped`: the last character was the backslash
unfoldable pub tokens : Bool → Text → List Token
tokens escaped [] = []
tokens true (c ∷ s) = char c ∷ tokens false s
tokens false (c ∷ s) = elim (c == backslash) [
  | true ↦ tokens true s
  | false ↦ token c ∷ tokens false s
]

-- SQLite's LIKE, which does not tell the case of ASCII letters
unfoldable pub matches : List Token → Text → Bool
unfolding tails lower_char
matches [] [] = true
matches [] (c ∷ s) = false
matches (any_text ∷ ts) s = any (matches ts) (tails s)
matches (any_char ∷ ts) [] = false
matches (any_char ∷ ts) (c ∷ s) = matches ts s
matches (char d ∷ ts) [] = false
matches (char d ∷ ts) (c ∷ s) = lower_char d == lower_char c && matches ts s

unfoldable pub like : Text → Text → Bool
unfolding tokens matches
like pattern text = matches (tokens false pattern) text

-- an empty prefix is none
unfoldable pub has_prefix : Option Text → FileRecord → Bool
unfolding like escape_prefix
has_prefix none r = true
has_prefix (some []) r = true
has_prefix (some (c ∷ s)) r = like (pattern_of (c ∷ s)) r.original_filename

-- ORDER BY uploaded_at DESC
unfoldable pub insert_newest : FileRecord → List FileRecord → List FileRecord
insert_newest r [] = r ∷ []
insert_newest r (q ∷ qs) =
    if leb q.uploaded_at r.uploaded_at then r ∷ q ∷ qs else q ∷ insert_newest r qs

unfoldable pub by_newest : List FileRecord → List FileRecord
unfolding insert_newest
by_newest [] = []
by_newest (r ∷ rs) = insert_newest r (by_newest rs)

-- LIMIT … OFFSET …
abbrev pub window : Option ℕ → ℕ → List FileRecord → List FileRecord
window none offset rs = rs
window (some limit) offset rs = take limit (drop offset rs)

module _ (max_file_size : ℕ) (project_id : Text) where
  -- list
  unfoldable pub list : Option Text → Option ℕ → ℕ → Exec Store (List FileRecord)
  unfolding has_prefix by_newest
  list prefix limit offset = execute (λ s. (
    ok (
        window limit offset
          (by_newest (keep (λ r. text_eq r.project_id project_id && has_prefix prefix r) s.rows))),
    s,
  ))

tokens-escape_prefix :
    (p : Text) → tokens false (escape_prefix p ++ percent ∷ []) ≡ map char p ++ any_text ∷ []
unfolding tokens escape_prefix
tokens-escape_prefix [] = refl
tokens-escape_prefix (c ∷ p) = ground (arith, tokens-escape_prefix p)

any-matches : (s : Text) → any (matches []) (tails s) ≡ true
unfolding matches tails any
any-matches [] = refl
any-matches (c ∷ s) = ground (arith, any-matches s)

matches-char :
    (p s : Text) → matches (map char p ++ any_text ∷ []) s ≡ starts_with (lower p) (lower s)
unfolding matches lower starts_with
matches-char [] s = any-matches s
matches-char (c ∷ p) [] = refl
matches-char (c ∷ p) (d ∷ s) = ap (λ b. lower_char c == lower_char d && b) (matches-char p s)

-- The pattern that `list` makes of a prefix selects the names that begin with the prefix, whatever
-- characters it has, the case of ASCII letters aside.
pub like-escape_prefix :
    (prefix name : Text) → like (pattern_of prefix) name ≡ starts_with (lower prefix) (lower name)
unfolding like
like-escape_prefix prefix name =
    ap (λ ts. matches ts name) (tokens-escape_prefix prefix) ∙ matches-char prefix name
