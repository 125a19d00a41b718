-- ===== src/Api/Sql.antt =====
-- backend/api/sql_editor.py: the splitting of a batch into statements, and `execute_sql`.
pub mod Session
pub mod Batch
pub mod Execute
pub mod Redaction
pub mod Aborts
pub mod Guarded
use pyronites.Base.{
  ℕ, ◌==◌, Bool, true, false, not, ◌&&◌, ◌||◌, Option, none, some, List, [], ◌∷◌, ◌++◌, Text, codes,
  strip, lstrip, upper, is_letter, member, if◌then◌else◌,
}

-- in_line, in_block, in_single, in_double, or none of them
pub data Mode : Type 0 where
  outside line block single double : Mode

-- `skip`: the next character was read already (`i += 2`)
pub record Scan : Type 0 where
  pub mode : Mode
  pub skip : Bool
  pub current : Text
  pub statements : List Text

abbrev pub start : Scan
start = record { mode = outside; skip = false; current = []; statements = [] }

-- `nxt == c`
abbrev pub follows : ℕ → Text → Bool
follows c [] = false
follows c (d ∷ s) = d == c

-- a statement that is not blank
abbrev pub pushed : Text → List Text
pushed current = elim (strip current) [ [] ↦ [] | c ∷ s ↦ (c ∷ s) ∷ [] ]

abbrev pub add : Scan → ℕ → Scan
add st c = record st { current = st.current ++ c ∷ [] }

abbrev in_quotes : Scan → ℕ → ℕ → Text → Scan
in_quotes st q c rest =
    if c == q
    then (if follows q rest
        then record st { current = st.current ++ c ∷ q ∷ []; skip = true }
        else record st { current = st.current ++ c ∷ []; mode = outside })
    else add st c

abbrev in_code : Scan → ℕ → Text → Scan
in_code st c rest =
    if c == b'-' && follows b'-' rest
    then record st { mode = line; skip = true }
    else if c == b'/' && follows b'*' rest
    then record st { mode = block; skip = true }
    else if c == b'\''
    then record (add st c) { mode = single }
    else if c == b'"'
    then record (add st c) { mode = double }
    else if c == b';'
    then record st { statements = st.statements ++ pushed st.current; current = [] }
    else add st c

abbrev by_mode : Mode → Scan → ℕ → Text → Scan
by_mode line st c rest = if c == 10 then record (add st c) { mode = outside } else st
by_mode block st c rest =
    if c == b'*' && follows b'/' rest then record st { mode = outside; skip = true } else st
by_mode single st c rest = in_quotes st b'\'' c rest
by_mode double st c rest = in_quotes st b'"' c rest
by_mode outside st c rest = in_code st c rest

-- one turn of the loop; `rest` is the text behind `c`
unfoldable pub step : Scan → ℕ → Text → Scan
step st c rest = if st.skip then record st { skip = false } else by_mode st.mode st c rest

unfoldable pub scan : Scan → Text → Scan
unfolding step
scan st [] = st
scan st (c ∷ s) = scan (step st c s) s

abbrev pub finish : Scan → List Text
finish st = st.statements ++ pushed st.current

-- _split_statements
unfoldable pub split_statements : Text → List Text
unfolding scan
split_statements sql = finish (scan start sql)

abbrev pub readonly_keywords : List Text
readonly_keywords =
    codes "SELECT" ∷ codes "WITH" ∷ codes "EXPLAIN" ∷ codes "VALUES" ∷ codes "PRAGMA" ∷ []

-- `[A-Za-z]+` at the start
unfoldable pub word : Text → Text
word [] = []
word (c ∷ s) = let rest = word s in if is_letter c then c ∷ rest else []

abbrev pub is_keyword : Text → Bool
is_keyword [] = true
is_keyword (c ∷ s) = member (upper (c ∷ s)) readonly_keywords

-- _is_readonly
unfoldable pub is_readonly : Text → Bool
unfolding word
is_readonly statement = is_keyword (word (lstrip statement))
