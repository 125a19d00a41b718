-- ===== src/Db/Preserves.antt =====
-- Actions that preserve a property of the tables.
use pyronites.Base.{none, some, [], ◌∷◌, List, Option, Bool, true, false, ◌≡◌, refl, if◌then◌else◌}
use pyronites.Db.{
  Exc, Result, ok, err, Conn, Exec, pure, raise, lift, execute, attempt, catch, transaction,
  rollback, mark, within, ◌>>=◌,
}

-- whether the action returns or raises, and whichever statements fail
pub record Preserves {S A : Type 0} (P : S → Type 0) (act : Exec S A) : Type 0 where
  pub kept : (w : Conn S) → P w.tables → P (act w).1.tables

module _ {S A : Type 0} (P : S → Type 0) where
  attempt_keeps :
      (stmt : S → Result A × S) (t : S) (fs : List (Option Exc))
      → P t
      → P (stmt t).1
      → P (attempt stmt t fs).1.tables
  attempt_keeps stmt t [] h k = k
  attempt_keeps stmt t (none ∷ fs) h k = k
  attempt_keeps stmt t (some e ∷ fs) h k = h

  rollback_keeps :
      (before : S) (r : Result A) (w : Conn S)
      → P before
      → P w.tables
      → P (rollback before (r, w)).1.tables
  rollback_keeps before (ok a) w h k = k
  rollback_keeps before (err e) w h k = h

module _ {S A : Type 0} {P : S → Type 0} where
  pub Preserves-pure : (a : A) → Preserves P (pure {S = S} a)
  Preserves-pure a = record { kept = λ w h. h }

  pub Preserves-raise : (e : Exc) → Preserves P (raise {S = S} {A = A} e)
  Preserves-raise e = record { kept = λ w h. h }

  -- a statement keeps what its effect keeps
  pub Preserves-execute :
      (stmt : S → Result A × S) → ((t : S) → P t → P (stmt t).1) → Preserves P (execute stmt)
  unfolding execute
  Preserves-execute stmt k = record {
    kept = λ w h. attempt_keeps P stmt w.tables w.faults h (k w.tables h);
  }

  pub Preserves-catch :
      (act : Exec S A) (next : Exc → Exec S A)
      → Preserves P act
      → ((e : Exc) → Preserves P (next e))
      → Preserves P (catch act next)
  Preserves-catch act next pre post = record { kept = λ w h. go (act w).0 (act w).1 (pre.kept w h) }
    where
      go : (r : Result A) (w : Conn S) → P w.tables → P (catch (λ _. (r, w)) next w).1.tables
      go (ok a) w h = h
      go (err e) w h = (post e).kept w h

module _ {S A B : Type 0} {P : S → Type 0} where
  pub Preserves-bind :
      (act : Exec S A) (next : A → Exec S B)
      → Preserves P act
      → ((a : A) → Preserves P (next a))
      → Preserves P (act >>= next)
  Preserves-bind act next pre post = record { kept = λ w h. go (act w).0 (act w).1 (pre.kept w h) }
    where
      go : (r : Result A) (w : Conn S) → P w.tables → P (◌>>=◌ (λ _. (r, w)) next w).1.tables
      go (ok a) w h = (post a).kept w h
      go (err e) w h = h

module _ {S A : Type 0} {P : S → Type 0} where
  pub Preserves-if :
      (b : Bool) (one two : Exec S A)
      → Preserves P one
      → Preserves P two
      → Preserves P (if b then one else two)
  Preserves-if true one two h k = h
  Preserves-if false one two h k = k

module _ {S A B : Type 0} {P : S → Type 0} where
  -- the rest may use that `r` did not raise
  pub Preserves-bind-lift :
      (r : Result A) (next : A → Exec S B)
      → ((a : A) → r ≡ ok a → Preserves P (next a))
      → Preserves P (lift {S = S} r >>= next)
  Preserves-bind-lift (ok a) next post = record { kept = (post a refl).kept }
  Preserves-bind-lift (err e) next post = record { kept = λ w h. h }

module _ {S : Type 0} {P : S → Type 0} where
  pub Preserves-mark : Preserves {S = S} P mark
  unfolding mark
  Preserves-mark = Preserves-execute _ (λ t h. h)

module _ {S T A : Type 0} {P : S → Type 0} where
  -- an action on a part of the tables keeps what does not depend on that part
  pub Preserves-within :
      (get : S → T) (put : T → S → S) (act : Exec T A)
      → ((t : T) (s : S) → P s → P (put t s))
      → Preserves P (within get put act)
  Preserves-within get put act k = record { kept = λ w h. k _ w.tables h }

module _ {S A : Type 0} {P : S → Type 0} where
  pub Preserves-transaction : (act : Exec S A) → Preserves P act → Preserves P (transaction act)
  unfolding transaction
  Preserves-transaction act pre = record {
    kept = λ w h. rollback_keeps P w.tables _ _ h (
        (Preserves-bind mark _ Preserves-mark (λ _.
            Preserves-bind act _ pre
              (λ a. Preserves-bind mark _ Preserves-mark (λ _. Preserves-pure a)))).kept
          w h);
  }

pub ruleset invariant_rules = (
  Preserves-pure, Preserves-raise, Preserves-execute, Preserves-catch, Preserves-if, Preserves-bind,
  Preserves-transaction,
)
