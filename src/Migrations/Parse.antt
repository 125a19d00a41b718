-- ===== src/Migrations/Parse.antt =====
-- What `_parse_statements` makes of a file.
use mathlib.Core.List.{append-nil, append_assoc}
use pyronites.Base.{
  ◌≡◌, true, false, none, some, List, [], ◌∷◌, ◌++◌, Text, codes, strip, starts_with, join, arith,
  refl, ap, map, ◌∙◌, All,
}
use pyronites.Migrations.Scan.{
  start, has_open, after_close, ends_statement, take_line, scan_line, emit, parse_lines, is_blank,
}

-- a line with something on it and no comment in it, the blanks around it aside
pub record IsPlain (line : Text) : Type 0 where
  pub full : is_blank (strip line) ≡ false
  pub no_dashes : starts_with (codes "--") (strip line) ≡ false
  pub no_open : has_open (strip line) ≡ false
  pub no_close : after_close (strip line) ≡ none

scan-plain :
    (line : Text) (current : List Text)
    → IsPlain line
    → scan_line line (record { in_block = false; current = current })
      ≡ take_line (strip line) current
unfolding scan_line
scan-plain line current p = ground arith

-- a statement: its lines before the last do not end in a semicolon, the last one does
pub record Piece : Type 0 where
  pub before : List Text
  pub last : Text

abbrev pub text_of : List Text → Text → Text
text_of before last = strip (join (codes " ") (map strip before ++ strip last ∷ []))

pub record IsPiece (p : Piece) : Type 0 where
  pub plain : All IsPlain p.before
  pub open_ended : All (λ l. ends_statement (strip l) ≡ false) p.before
  pub plain_last : IsPlain p.last
  pub closed : ends_statement (strip p.last) ≡ true
  pub text : is_blank (text_of p.before p.last) ≡ false

parse_before :
    (before rest current : List Text)
    → All IsPlain before
    → All (λ l. ends_statement (strip l) ≡ false) before
    → parse_lines (before ++ rest) (record { in_block = false; current = current })
      ≡ parse_lines rest (record { in_block = false; current = current ++ map strip before })
unfolding parse_lines
parse_before [] rest current p o = rw append-nil
parse_before (l ∷ ls) rest current p o =
    let step : scan_line l (record { in_block = false; current = current })
        ≡ (none, record { in_block = false; current = current ++ strip l ∷ [] }) =
      scan-plain l current p.0 ∙ unfold take_line in rw o.0 in
    let same =
      ap (λ xs. parse_lines rest (record { in_block = false; current = xs }))
        (append_assoc current (strip l ∷ []) (map strip ls)) in
    rw step (parse_before ls rest (current ++ strip l ∷ []) p.1 o.1 ∙ same)

emit-full : (t : Text) (ss : List Text) → is_blank t ≡ false → emit (some t) ss ≡ t ∷ ss
emit-full [] ss h = absurd (ground arith)
emit-full (c ∷ s) ss h = refl

pub lines_of : List Piece → List Text
lines_of [] = []
lines_of (p ∷ ps) = p.before ++ (p.last ∷ lines_of ps)

-- A file whose statements are written on lines without comments, indented or not, none of them
-- blank, each statement ending in the semicolon of its last line and in no other line, is parsed to
-- those statements, in order: the lines of each, less the blanks around them, joined by blanks.
pub parse_lines-pieces :
    (ps : List Piece)
    → All IsPiece ps
    → parse_lines (lines_of ps) start ≡ map (λ p. text_of p.before p.last) ps
unfolding parse_lines lines_of
parse_lines-pieces [] h = refl
parse_lines-pieces (p ∷ ps) h =
    let piece : IsPiece p = h.0 in
    let step : scan_line p.last (record { in_block = false; current = map strip p.before })
        ≡ (some (text_of p.before p.last), start) =
      scan-plain p.last (map strip p.before) piece.plain_last
      ∙ unfold take_line in rw piece.closed in
    parse_before p.before (p.last ∷ lines_of ps) [] piece.plain piece.open_ended
    ∙ rw step
        (emit-full _ _ piece.text ∙ ap (◌∷◌ (text_of p.before p.last)) (parse_lines-pieces ps h.1))
