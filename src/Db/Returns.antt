-- ===== src/Db/Returns.antt =====
-- Actions whose answer has a property, whichever statements fail, where they return.
use pyronites.Base.{Bool, true, false, ◌≡◌, refl, subst, arith, if◌then◌else◌}
use pyronites.Db.{Exc, Result, ok, err, Conn, Exec, pure, raise, catch, handle, transaction, ◌>>=◌}
use pyronites.Db.Transaction.{bind_returned, transaction_returned}

pub record Returns {S A : Type 0} (P : A → Type 0) (act : Exec S A) : Type 0 where
  pub holds : (w : Conn S) (a : A) → (act w).0 ≡ ok a → P a

module _ {S A : Type 0} {P : A → Type 0} where
  pub Returns-pure : (a : A) → P a → Returns P (pure {S = S} a)
  Returns-pure a p = record { holds = λ w b e. (let same : a ≡ b = ground arith in subst P same p) }

  pub Returns-raise : (e : Exc) → Returns P (raise {S = S} {A = A} e)
  Returns-raise e = record { holds = λ w a h. absurd (ground arith) }

  pub Returns-if :
      (b : Bool) (one two : Exec S A)
      → Returns P one
      → Returns P two
      → Returns P (if b then one else two)
  Returns-if true one two h k = h
  Returns-if false one two h k = k

  pub Returns-catch :
      (act : Exec S A) (next : Exc → Exec S A)
      → Returns P act
      → ((e : Exc) → Returns P (next e))
      → Returns P (catch act next)
  Returns-catch act next pre post = record { holds = λ w a h. go w (act w).0 (act w).1 refl a h }
    where
      go :
          (w : Conn S) (r : Result A) (v : Conn S)
          → (act w).0 ≡ r
          → (a : A) → (handle next (r, v)).0 ≡ ok a
          → P a
      go w (ok b) v e a h = pre.holds w a (ground arith)
      go w (err x) v e a h = (post x).holds v a h

  pub Returns-transaction : (act : Exec S A) → Returns P act → Returns P (transaction act)
  Returns-transaction act pre = record {
    holds = λ w a h. (let (faults, got, _) = transaction_returned act w a h in pre.holds _ a got);
  }

module _ {S A B : Type 0} {Q : A → Type 0} {P : B → Type 0} where
  pub Returns-bind :
      (act : Exec S A) (next : A → Exec S B)
      → Returns Q act
      → ((a : A) → Q a → Returns P (next a))
      → Returns P (act >>= next)
  Returns-bind act next pre post = record {
    holds = λ w b h.
        (let (a, got, rest, _) = bind_returned act next w b h in
          (post a (pre.holds w a got)).holds _ b rest);
  }

module _ {S A B : Type 0} {P : B → Type 0} where
  -- whatever the first action returns
  pub Returns-after :
      (act : Exec S A) (next : A → Exec S B)
      → ((a : A) → Returns P (next a))
      → Returns P (act >>= next)
  Returns-after act next post =
      Returns-bind act next (record { holds = λ w a h. tt }) (λ a _. post a)
