-- ===== src/Db/Transaction.antt =====
-- A transaction is all or nothing; and what can be read back from an action that returned.
use pyronites.Base.{
  ◌≡◌, ◌≢◌, ◌⊎◌, ◌∙◌, ap, sym, inl, inr, refl, arith, none, some, [], ◌∷◌, List, Option,
}
use pyronites.Db.{
  Exc, Result, ok, err, Conn, Exec, execute, attempt, pure, catch, handle, transaction, ◌>>=◌,
}

abbrev rest : List (Option Exc) → List (Option Exc)
rest [] = []
rest (o ∷ fs) = fs

module _ {S A : Type 0} where
  -- A transaction that raises, for whatever reason and at whatever statement, COMMIT included,
  -- leaves the tables as they were.
  pub transaction_aborts :
      (block : Exec S A) (w : Conn S) (e : Exc)
      → (transaction block w).0 ≡ err e
      → (transaction block w).1.tables ≡ w.tables
  unfolding transaction
  transaction_aborts block w e h = ground arith

  attempt_returned :
      (stmt : S → Result A × S) (t : S) (fs : List (Option Exc)) (a : A)
      → (attempt stmt t fs).0 ≡ ok a
      → ((stmt t).0 ≡ ok a) × ((attempt stmt t fs).1.tables ≡ (stmt t).1)
  attempt_returned stmt t [] a h = (h, refl)
  attempt_returned stmt t (none ∷ fs) a h = (h, refl)
  attempt_returned stmt t (some e ∷ fs) a h = absurd (ground arith)

  -- a statement that returned was run
  pub execute_returned :
      (stmt : S → Result A × S) (w : Conn S) (a : A)
      → (execute stmt w).0 ≡ ok a
      → ((stmt w.tables).0 ≡ ok a) × ((execute stmt w).1.tables ≡ (stmt w.tables).1)
  unfolding execute
  execute_returned stmt w a h = attempt_returned stmt w.tables w.faults a h

  -- a transaction that returned has run its block on the tables that it found
  pub transaction_returned :
      (block : Exec S A) (w : Conn S) (a : A)
      → (transaction block w).0 ≡ ok a
      → (faults : List (Option Exc)) × ((block (record { tables = w.tables; faults = faults })).0
          ≡ ok a)
        × ((transaction block w).1.tables
            ≡ (block (record { tables = w.tables; faults = faults })).1.tables)
  unfolding transaction
  transaction_returned block w a h = (rest w.faults, ground arith, ground arith)

pub bind_returned :
    {S A B : Type 0} (m : Exec S A) (f : A → Exec S B) (w : Conn S) (b : B)
    → ((m >>= f) w).0 ≡ ok b
    → (a : A) × ((m w).0 ≡ ok a) × ((f a (m w).1).0 ≡ ok b) × (((m >>= f) w).1 ≡ (f a (m w).1).1)
bind_returned m f w b h = ground arith

-- and forward
pub bind_ok :
    {S A B : Type 0} (m : Exec S A) (f : A → Exec S B) (w : Conn S) (a : A)
    → (m w).0 ≡ ok a
    → (m >>= f) w ≡ f a (m w).1
bind_ok m f w a h = ground arith

pub bind_returns :
    {S A B : Type 0} (m : Exec S A) (f : A → Exec S B) (w : Conn S) (a : A) (b : B)
    → (m w).0 ≡ ok a
    → (f a (m w).1).0 ≡ ok b
    → ((m >>= f) w).0 ≡ ok b
bind_returns m f w a b h k = ap (λ x. x.0) (bind_ok m f w a h) ∙ k

-- an exception of any kind ends in an answer
pub catch_total :
    {S A : Type 0} (m : Exec S A) (a : A) (w : Conn S)
    → (b : A) × ((catch m (λ _. pure a) w).0 ≡ ok b)
catch_total {S = S} {A = A} m a w = go (m w)
  where
    go : (r : Result A × Conn S) → (b : A) × ((handle (λ _. pure a) r).0 ≡ ok b)
    go (ok b, v) = (b, refl)
    go (err e, v) = (a, refl)

-- where every handler raises, what returned was the action itself
pub catch_returned :
    {S A : Type 0} (m : Exec S A) (h : Exc → Exec S A) (w : Conn S) (a : A)
    → ((e : Exc) (v : Conn S) → (h e v).0 ≢ ok a)
    → (catch m h w).0 ≡ ok a
    → ((m w).0 ≡ ok a) × ((catch m h w).1 ≡ (m w).1)
catch_returned {S = S} {A = A} m h w a never k = go (m w) refl k
  where
    go :
        (r : Result A × Conn S)
        → m w ≡ r
        → (handle h r).0 ≡ ok a
        → ((m w).0 ≡ ok a) × ((catch m h w).1 ≡ (m w).1)
    go (ok b, v) e k = (ap (λ x. x.0) e ∙ k, ap (λ x. (handle h x).1) e ∙ ap (λ x. x.1) (sym e))
    go (err x, v) e k = absurd (never x v k)

-- what raised was the first action, or the second, where the first one left it
pub bind_raised :
    {S A B : Type 0} (m : Exec S A) (f : A → Exec S B) (w : Conn S) (e : Exc)
    → ((m >>= f) w).0 ≡ err e
    → (((m w).0 ≡ err e) × (((m >>= f) w).1 ≡ (m w).1))
      ⊎ ((a : A) × ((f a (m w).1).0 ≡ err e) × (((m >>= f) w).1 ≡ (f a (m w).1).1))
bind_raised {S = S} {A = A} {B = B} m f w e h = go (m w).0 (m w).1 refl refl
  where
    go :
        (r : Result A) (v : Conn S)
        → (m w).0 ≡ r
        → (m w).1 ≡ v
        → (((m w).0 ≡ err e) × (((m >>= f) w).1 ≡ (m w).1))
          ⊎ ((a : A) × ((f a (m w).1).0 ≡ err e) × (((m >>= f) w).1 ≡ (f a (m w).1).1))
    go (ok a) v got same = inr (a, ground arith, ground arith)
    go (err x) v got same = inl (ground arith)
