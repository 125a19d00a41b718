-- ===== src/Migrations/Scan.antt =====
-- `_parse_statements` of backend/core/migrations.py: a file's lines to its statements.
use pyronites.Base.{
  Bool, true, false, ◌||◌, Option, none, some, List, [], ◌∷◌, ◌++◌, Text, codes, strip, starts_with,
  join, ◌==◌, if◌then◌else◌,
}

-- the text behind the first `*/`
unfoldable pub after_close : Text → Option Text
after_close [] = none
after_close (c ∷ []) = none
after_close (c ∷ d ∷ s) =
    if c == b'*' then (if d == b'/' then some s else after_close (d ∷ s)) else after_close (d ∷ s)

unfoldable pub has_open : Text → Bool
has_open [] = false
has_open (c ∷ s) = starts_with (codes "/*") (c ∷ s) || has_open s

unfoldable pub ends_statement : Text → Bool
ends_statement [] = false
ends_statement (c ∷ []) = c == b';'
ends_statement (c ∷ d ∷ s) = ends_statement (d ∷ s)

-- `in_block_comment`, and the lines of the statement so far
pub record Scan : Type 0 where
  pub in_block : Bool
  pub current : List Text

-- the end of the loop's body: the line joins the statement, which may be complete
unfoldable pub take_line : Text → List Text → Option Text × Scan
unfolding ends_statement
take_line line current =
    if ends_statement line
    then (
      some (strip (join (codes " ") (current ++ line ∷ []))),
      record { in_block = false; current = [] },
    )
    else (none, record { in_block = false; current = current ++ line ∷ [] })

abbrev pub is_blank : Text → Bool
is_blank [] = true
is_blank (c ∷ s) = false

-- after the tests for `/*`, which may have set `in_block`, and for `*/`
unfoldable pub scan_close : Text → Scan → Option Text → Option Text × Scan
unfolding take_line
scan_close line st none = if st.in_block then (none, st) else take_line line st.current
scan_close line st (some rest) =
    if is_blank (strip rest)
    then (none, record { in_block = false; current = st.current })
    else take_line (strip rest) st.current

unfoldable pub scan_stripped : Text → Scan → Option Text × Scan
unfolding has_open after_close scan_close
scan_stripped line st =
    if is_blank line || starts_with (codes "--") line
    then (none, st)
    else scan_close line (record st { in_block = has_open line || st.in_block }) (after_close line)

-- the body of the loop over the lines: a complete statement, if any
unfoldable pub scan_line : Text → Scan → Option Text × Scan
unfolding scan_stripped
scan_line line st = scan_stripped (strip line) st

-- `if stmt: statements.append(stmt)`
abbrev pub emit : Option Text → List Text → List Text
emit none ss = ss
emit (some []) ss = ss
emit (some (c ∷ s)) ss = (c ∷ s) ∷ ss

-- _parse_statements, over the lines of the file
unfoldable pub parse_lines : List Text → Scan → List Text
unfolding scan_line
parse_lines [] st = []
parse_lines (l ∷ ls) st = let (stmt, st') = scan_line l st in emit stmt (parse_lines ls st')

abbrev pub start : Scan
start = record { in_block = false; current = [] }
