-- ===== src/Api/Sql/Batch.antt =====
-- Where a batch is split.
use mathlib.Core.List.{append_assoc, append-nil}
use pyronites.Base.{
  ℕ, ◌≡◌, ap, ◌∙◌, refl, arith, false, List, [], ◌∷◌, ◌++◌, Text, Bool-cases, inl, inr,
}
use pyronites.Api.Sql.{
  Mode, outside, line, block, single, double, Scan, start, by_mode, step, scan, pushed, finish,
  split_statements,
}

-- what was emitted before stays in front
abbrev behind : List Text → Scan → Scan
behind ss st = record st { statements = ss ++ st.statements }

by_mode-behind :
    (ss : List Text) (m : Mode) (st : Scan) (c : ℕ) (rest : Text)
    → by_mode m (behind ss st) c rest ≡ behind ss (by_mode m st c rest)
by_mode-behind ss outside st c rest =
    ground (arith, append_assoc ss st.statements (pushed st.current))
by_mode-behind ss line st c rest = ground arith
by_mode-behind ss block st c rest = ground arith
by_mode-behind ss single st c rest = ground arith
by_mode-behind ss double st c rest = ground arith

step-behind :
    (ss : List Text) (st : Scan) (c : ℕ) (rest : Text)
    → step (behind ss st) c rest ≡ behind ss (step st c rest)
unfolding step
step-behind ss st c rest = elim (Bool-cases st.skip) [
  | inl skips ↦ ground arith
  | inr reads ↦ ground (arith, by_mode-behind ss st.mode st c rest)
]

by_mode-semicolon :
    (m : Mode) (st : Scan) (c : ℕ) (b : Text) → by_mode m st c (b';' ∷ b) ≡ by_mode m st c []
by_mode-semicolon outside st c b = refl
by_mode-semicolon line st c b = refl
by_mode-semicolon block st c b = refl
by_mode-semicolon single st c b = refl
by_mode-semicolon double st c b = refl

-- a semicolon ahead is as the end of the text
step-semicolon : (st : Scan) (c : ℕ) (b : Text) → step st c (b';' ∷ b) ≡ step st c []
unfolding step
step-semicolon st c b = rw (by_mode-semicolon st.mode st c b) refl

abbrev pub IsClosed : Text → Type 0
IsClosed a = ((scan start a).mode ≡ outside) × ((scan start a).skip ≡ false)

scan-behind :
    (ss : List Text) (st : Scan) (s : Text) → scan (behind ss st) s ≡ behind ss (scan st s)
unfolding scan
scan-behind ss st [] = refl
scan-behind ss st (c ∷ s) =
    ap (λ u. scan u s) (step-behind ss st c s) ∙ scan-behind ss (step st c s) s

by_mode-head :
    (m : Mode) (st : Scan) (c d : ℕ) (s t : Text) → by_mode m st c (d ∷ s) ≡ by_mode m st c (d ∷ t)
by_mode-head outside st c d s t = refl
by_mode-head line st c d s t = refl
by_mode-head block st c d s t = refl
by_mode-head single st c d s t = refl
by_mode-head double st c d s t = refl

-- only the next character is looked at
step-head : (st : Scan) (c d : ℕ) (s t : Text) → step st c (d ∷ s) ≡ step st c (d ∷ t)
unfolding step
step-head st c d s t = rw (by_mode-head st.mode st c d s t) refl

scan-semicolon : (st : Scan) (a b : Text) → scan st (a ++ b';' ∷ b) ≡ scan (scan st a) (b';' ∷ b)
unfolding scan
scan-semicolon st [] b = refl
scan-semicolon st (c ∷ []) b = ap (λ u. scan u (b';' ∷ b)) (step-semicolon st c b)
scan-semicolon st (c ∷ d ∷ a) b =
    ap (λ u. scan u (d ∷ a ++ b';' ∷ b)) (step-head st c d (a ++ b';' ∷ b) a)
    ∙ scan-semicolon (step st c (d ∷ a)) (d ∷ a) b

closes :
    (st : Scan) (b : Text)
    → st.mode ≡ outside
    → st.skip ≡ false
    → step st b';' b ≡ behind (finish st) start
unfolding step
closes st b out reads = ground (arith, append-nil (finish st))

finish-behind : (ss : List Text) (st : Scan) → finish (behind ss st) ≡ ss ++ finish st
finish-behind ss st = append_assoc ss st.statements (pushed st.current)

-- A semicolon outside of quotes and comments splits a batch: the statements are those of the text
-- before it, as if it ended there, and then those of the text after it.
pub split_statements-semicolon :
    (a b : Text)
    → IsClosed a
    → split_statements (a ++ b';' ∷ b) ≡ split_statements a ++ split_statements b
unfolding split_statements scan
split_statements-semicolon a b (out, reads) =
    ap finish (
      scan-semicolon start a b
      ∙ ap (λ u. scan u b) (closes (scan start a) b out reads)
      ∙ scan-behind (split_statements a) start b)
    ∙ finish-behind (split_statements a) (scan start b)
