-- ===== src/SchemaRules/Literal.antt =====
-- Defaults as SQL literals.
use mathlib.Core.List.{append_assoc}
use pyronites.Base.{
  ℕ, ◌≡◌, Bool, true, false, not, ◌&&◌, ◌||◌, Option, none, some, [], ◌∷◌, ◌++◌, Text, all,
  is_digit, is_letter, text_eq_sound, upper, strip, codes, ◌==◌, if◌then◌else◌, arith, refl,
}
use pyronites.SchemaRules.{
  quote, escape, quoted, render_value, render_default_literal, is_numeric, unsigned_number,
  fraction_end, exponent_end, digits_end, signed_end, skip_digits, at_end, is_word,
}

-- How SQL reads a string, behind its first quote: a doubled quote stands for one, a single one
-- ends the string. The value, and the text behind the string.
abbrev prepend : ℕ → Option (Text × Text) → Option (Text × Text)
prepend c none = none
prepend c (some (v, rest)) = some (c ∷ v, rest)

mutual
  read_string : Text → Option (Text × Text)
  read_string [] = none
  read_string (c ∷ s) = if c == quote then after_quote s else prepend c (read_string s)

  after_quote : Text → Option (Text × Text)
  after_quote [] = some ([], [])
  after_quote (c ∷ s) = if c == quote then prepend quote (read_string s) else some ([], c ∷ s)

-- a string literal of SQL
pub read_literal : Text → Option (Text × Text)
unfolding read_string
read_literal [] = none
read_literal (c ∷ s) = if c == quote then read_string s else none

abbrev pub starts_quote : Text → Bool
starts_quote [] = false
starts_quote (c ∷ s) = c == quote

after-quote : (rest : Text) → starts_quote rest ≡ false → after_quote rest ≡ some ([], rest)
unfolding after_quote
after-quote [] h = refl
after-quote (c ∷ s) h = ground arith

read-escape :
    (v rest : Text)
    → starts_quote rest ≡ false
    → read_string (escape v ++ quote ∷ rest) ≡ some (v, rest)
unfolding escape read_string
read-escape [] rest h = after-quote rest h
read-escape (c ∷ s) rest h = ground (arith, read-escape s rest h)

-- A quoted value is read back by SQL as that value, and the string ends where it was closed,
-- whatever the value holds; `rest` does not go on with a quote.
read-quoted :
    (v rest : Text) → starts_quote rest ≡ false → read_literal (quoted v ++ rest) ≡ some (v, rest)
unfolding quoted read_literal
read-quoted v rest h = rw append_assoc (read-escape v rest h)

-- No text is left outside of the quotes that could be read as SQL.
abbrev pub is_plain : (ℕ → Bool) → ℕ → Bool
is_plain digit c = is_word c || digit c || c == b'.' || c == b'+' || c == b'-' || c == 10

module _ (digit : ℕ → Bool) where
  -- reads a text by the quotes in it; `inside`: between quotes
  pub is_closed : Bool → Text → Bool
  is_closed inside [] = not inside
  is_closed inside (c ∷ s) =
      if c == quote
      then is_closed (not inside) s
      else (inside || is_plain digit c) && is_closed inside s

  module _ (no_quote : digit quote ≡ false) where
    plain_closed : (s : Text) → all (is_plain digit) s ≡ true → is_closed false s ≡ true
    unfolding all is_closed is_letter is_digit
    plain_closed [] h = refl
    plain_closed (c ∷ s) h = ground (arith, plain_closed s)

    escape_closed : (v : Text) → is_closed true (escape v ++ quote ∷ []) ≡ true
    unfolding escape is_closed
    escape_closed [] = refl
    escape_closed (c ∷ s) = ground (arith, escape_closed s)

    quoted_closed : (v : Text) → is_closed false (quoted v) ≡ true
    unfolding quoted is_closed
    quoted_closed v = escape_closed v

    skip_plain :
        (s : Text)
        → all (is_plain digit) (skip_digits digit s) ≡ true
        → all (is_plain digit) s ≡ true
    unfolding skip_digits all is_digit is_letter
    skip_plain [] h = refl
    skip_plain (c ∷ s) h = ground (arith, skip_plain s)

    at_end_plain : (s : Text) → at_end s ≡ true → all (is_plain digit) s ≡ true
    unfolding all is_letter is_digit
    at_end_plain [] h = refl
    at_end_plain (c ∷ []) h = ground arith
    at_end_plain (c ∷ d ∷ s) h = absurd (ground arith)

    digits_plain : (s : Text) → digits_end digit s ≡ true → all (is_plain digit) s ≡ true
    unfolding digits_end
    digits_plain s h = skip_plain s (at_end_plain (skip_digits digit s) (ground arith))

    signed_plain : (s : Text) → signed_end digit s ≡ true → all (is_plain digit) s ≡ true
    unfolding all is_letter is_digit
    signed_plain [] h = refl
    signed_plain (c ∷ s) h = ground (arith, digits_plain s, digits_plain (c ∷ s))

    exponent_plain : (s : Text) → exponent_end digit s ≡ true → all (is_plain digit) s ≡ true
    unfolding exponent_end all is_letter is_digit
    exponent_plain [] h = refl
    exponent_plain (c ∷ s) h = ground (arith, signed_plain s, at_end_plain (c ∷ s))

    fraction_plain : (s : Text) → fraction_end digit s ≡ true → all (is_plain digit) s ≡ true
    unfolding fraction_end all is_letter is_digit
    fraction_plain [] h = refl
    fraction_plain (c ∷ s) h =
        ground (arith, exponent_plain (skip_digits digit s), skip_plain s, exponent_plain (c ∷ s))

    unsigned_plain : (s : Text) → unsigned_number digit s ≡ true → all (is_plain digit) s ≡ true
    unfolding unsigned_number
    unsigned_plain s h = skip_plain s (fraction_plain (skip_digits digit s) (ground arith))

    numeric_plain : (s : Text) → is_numeric digit s ≡ true → all (is_plain digit) s ≡ true
    unfolding is_numeric all is_letter is_digit
    numeric_plain [] h = refl
    numeric_plain (c ∷ s) h = ground (arith, unsigned_plain s, unsigned_plain (c ∷ s))

    keyword_closed :
        (is_closed false (codes "NULL") ≡ true)
        × (is_closed false (codes "TRUE") ≡ true)
        × (is_closed false (codes "FALSE") ≡ true)
    unfolding is_closed is_letter is_digit
    keyword_closed = (refl, refl, refl)

    value_closed : (v lit : Text) → render_value digit v ≡ some lit → is_closed false lit ≡ true
    unfolding render_value
    value_closed [] lit h = absurd (ground arith)
    value_closed (c ∷ s) lit h = ground (
      arith,
      plain_closed (c ∷ s),
      numeric_plain (c ∷ s),
      keyword_closed,
      quoted_closed (c ∷ s),
      text_eq_sound (upper (c ∷ s)) (codes "TRUE"),
      text_eq_sound (upper (c ∷ s)) (codes "FALSE"),
    )

    -- Whatever default was asked for, and whatever characters Python's `\d` takes for digits, other
    -- than a quote: in the literal that goes into the DDL every character outside of quotes is an
    -- ASCII letter, such a digit, `_`, `.`, `+`, `-` or a newline, and every quote is closed.
    pub render_default_closed :
        (raw : Option Text) (lit : Text)
        → render_default_literal digit raw ≡ some lit
        → is_closed false lit ≡ true
    unfolding render_default_literal
    render_default_closed none lit h = absurd (ground arith)
    render_default_closed (some raw) lit h = value_closed (strip raw) lit h
