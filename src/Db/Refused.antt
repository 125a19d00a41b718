-- ===== src/Db/Refused.antt =====
-- Actions that only read, those that moreover raise, and what comes after reading.
use pyronites.Base.{◌≡◌, ◌∙◌, refl, sym, subst, arith, List, [], ◌∷◌, Option, none, some}
use pyronites.Db.{Exc, Result, ok, err, Conn, Exec, continue, lift, execute, attempt, ◌>>=◌}
use pyronites.Db.Transaction.{bind_returned, execute_returned}
use pyronites.Db.Returns.{Returns}

-- the action raises, and leaves the tables as they were
pub record Refused {S A : Type 0} (act : Exec S A) : Type 0 where
  pub raised : (w : Conn S) → (e : Exc) × ((act w).0 ≡ err e)
  pub same : (w : Conn S) → (act w).1.tables ≡ w.tables

-- the action leaves the tables as they were
pub record Reads {S A : Type 0} (act : Exec S A) : Type 0 where
  pub same : (w : Conn S) → (act w).1.tables ≡ w.tables

module _ {S A B : Type 0} where
  -- what an action that only reads returns is what the rest refuses
  pub Refused-bind :
      (Q : A → Type 0) (act : Exec S A) (next : A → Exec S B)
      → Reads act
      → Returns Q act
      → ((a : A) → Q a → Refused (next a))
      → Refused (act >>= next)
  Refused-bind Q act next reads returns post = record {
    raised = λ w. (go (act w) (returns.holds w) (reads.same w)).0;
    same = λ w. (go (act w) (returns.holds w) (reads.same w)).1;
  }
    where
      go :
          {t : S} (r : Result A × Conn S)
          → ((a : A) → r.0 ≡ ok a → Q a)
          → r.1.tables ≡ t
          → ((e : Exc) × ((continue r next).0 ≡ err e)) × ((continue r next).1.tables ≡ t)
      go (ok a, v) q same = let rest = post a (q a refl) in (rest.raised v, rest.same v ∙ same)
      go (err e, v) q same = ((e, refl), same)

  pub Refused-after :
      (act : Exec S A) (next : A → Exec S B)
      → Reads act
      → ((a : A) → Refused (next a))
      → Refused (act >>= next)
  Refused-after act next reads post =
      Refused-bind (λ a. Unit {0}) act next reads (record { holds = λ w a h. tt }) (λ a _. post a)

pub lift-Reads : {S A : Type 0} (r : Result A) → Reads (lift {S = S} r)
lift-Reads r = record { same = λ w. refl }

module _ {S A B : Type 0} where
  pub err-Refused :
      (r : Result A) (e : Exc) (next : A → Exec S B) → r ≡ err e → Refused (lift r >>= next)
  err-Refused r e next h = rw h (record { raised = λ w. (e, refl); same = λ w. refl })

  -- nothing comes after
  pub Refused-then : (act : Exec S A) (next : A → Exec S B) → Refused act → Refused (act >>= next)
  Refused-then act next pre = record {
    raised = λ w. ((pre.raised w).0, ground (arith, (pre.raised w).1));
    same = λ w. ground (arith, (pre.raised w).1, pre.same w);
  }

-- what an action that returned has made of the tables, and what it answered
pub record Makes {S A : Type 0} (R : S → A → S → Type 0) (act : Exec S A) : Type 0 where
  pub made : (w : Conn S) (a : A) → (act w).0 ≡ ok a → R w.tables a (act w).1.tables

module _ {S A : Type 0} {R : S → A → S → Type 0} where
  -- a statement
  pub Makes-execute :
      (stmt : S → Result A × S)
      → ((t : S) (a : A) → (stmt t).0 ≡ ok a → R t a (stmt t).1)
      → Makes R (execute stmt)
  Makes-execute stmt k = record {
    made = λ w a h.
        (let (ran, same) = execute_returned stmt w a h in
          subst (R w.tables a) (sym same) (k w.tables a ran));
  }

module _ {S A B : Type 0} {R : S → B → S → Type 0} where
  -- what comes after an action that only reads
  pub Makes-after :
      (act : Exec S A) (next : A → Exec S B)
      → Reads act
      → ((a : A) → Makes R (next a))
      → Makes R (act >>= next)
  Makes-after act next reads post = record {
    made = λ w b h.
        (let (a, _, rest, same) = bind_returned act next w b h in
          subst (λ v. R w.tables b v.tables) (sym same)
            (subst (λ t. R t b (next a (act w).1).1.tables) (reads.same w)
              ((post a).made (act w).1 b rest)));
  }

  pub Makes-lift :
      (r : Result A) (next : A → Exec S B)
      → ((a : A) → r ≡ ok a → Makes R (next a))
      → Makes R (lift r >>= next)
  Makes-lift (ok a) next post = record { made = (post a refl).made }
  Makes-lift (err e) next post = record { made = λ w b h. absurd (ground arith) }

pub Reads-execute :
    {S A : Type 0} (stmt : S → Result A × S) → ((t : S) → (stmt t).1 ≡ t) → Reads (execute stmt)
unfolding execute
Reads-execute {S = S} {A = A} stmt k = record { same = λ w. go w.tables w.faults }
  where
    go : (t : S) (fs : List (Option Exc)) → (attempt stmt t fs).1.tables ≡ t
    go t [] = k t
    go t (none ∷ fs) = k t
    go t (some e ∷ fs) = refl

module _ {S A B : Type 0} {R : S → B → S → Type 0} where
  -- what comes after a query may use its answer
  pub Makes-query :
      (f : S → Result A) (next : A → Exec S B)
      → ((a : A) → Makes (λ t b u. f t ≡ ok a → R t b u) (next a))
      → Makes R (execute (λ t. (f t, t)) >>= next)
  Makes-query f next post = record {
    made = λ w b h.
        (let (a, got, rest, same) = bind_returned (execute (λ t. (f t, t))) next w b h in
          let (ran, left) = execute_returned (λ t. (f t, t)) w a got in
          subst (λ v. R w.tables b v.tables) (sym same)
            (subst (λ t. R t b (next a (execute (λ t. (f t, t)) w).1).1.tables) left
              ((post a).made (execute (λ t. (f t, t)) w).1 b rest
                (subst (λ t. f t ≡ ok a) (sym left) ran))));
  }

module _ {S B : Type 0} {R : S → B → S → Type 0} where
  -- a relation that follows from another
  pub Makes-weaken :
      {Q : S → B → S → Type 0} (act : Exec S B)
      → ((t : S) (b : B) (u : S) → Q t b u → R t b u)
      → Makes Q act
      → Makes R act
  Makes-weaken act k pre = record { made = λ w b h. k w.tables b (act w).1.tables (pre.made w b h) }

module _ {S A B : Type 0} {Q : S → A → S → Type 0} {R : S → B → S → Type 0} where
  -- what comes after an action may use what that one has made
  pub Makes-bind :
      (act : Exec S A) (next : A → Exec S B)
      → Makes Q act
      → ((s : S) (a : A) → Makes (λ t b u. Q s a t → R s b u) (next a))
      → Makes R (act >>= next)
  Makes-bind act next pre post = record {
    made = λ w b h.
        (let (a, got, rest, same) = bind_returned act next w b h in
          subst (λ v. R w.tables b v.tables) (sym same)
            ((post w.tables a).made (act w).1 b rest (pre.made w a got)));
  }
