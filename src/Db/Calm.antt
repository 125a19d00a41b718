-- ===== src/Db/Calm.antt =====
-- Actions that make no statement fail: on a connection that does not fail they leave one that does not.
use pyronites.Base.{◌≡◌, Bool, true, false, [], if◌then◌else◌, arith}
use pyronites.Db.{
  Exc, Result, ok, err, Conn, Exec, pure, raise, lift, execute, handle, continue, catch, within,
  ◌>>=◌, ◌>>◌,
}

pub record Calm {S A : Type 0} (act : Exec S A) : Type 0 where
  pub stays : (w : Conn S) → w.faults ≡ [] → (act w).1.faults ≡ []

module _ {S A : Type 0} where
  pub Calm-pure : (a : A) → Calm (pure {S = S} a)
  Calm-pure a = record { stays = λ w h. h }

  pub Calm-raise : (e : Exc) → Calm (raise {S = S} {A = A} e)
  Calm-raise e = record { stays = λ w h. h }

  pub Calm-lift : (r : Result A) → Calm (lift {S = S} r)
  Calm-lift r = record { stays = λ w h. h }

  pub Calm-execute : (stmt : S → Result A × S) → Calm (execute stmt)
  unfolding execute
  Calm-execute stmt = record { stays = λ w h. ground arith }

  pub Calm-if :
      (b : Bool) (one two : Exec S A) → Calm one → Calm two → Calm (if b then one else two)
  Calm-if true one two h k = h
  Calm-if false one two h k = k

  pub Calm-catch :
      (act : Exec S A) (next : Exc → Exec S A)
      → Calm act
      → ((e : Exc) → Calm (next e))
      → Calm (catch act next)
  Calm-catch act next pre post = record { stays = λ w h. go (act w) (pre.stays w h) }
    where
      go : (r : Result A × Conn S) → r.1.faults ≡ [] → (handle next r).1.faults ≡ []
      go (ok a, w) h = h
      go (err e, w) h = (post e).stays w h

module _ {S A B : Type 0} where
  pub Calm-bind :
      (act : Exec S A) (next : A → Exec S B)
      → Calm act
      → ((a : A) → Calm (next a))
      → Calm (act >>= next)
  Calm-bind act next pre post = record { stays = λ w h. go (act w) (pre.stays w h) }
    where
      go : (r : Result A × Conn S) → r.1.faults ≡ [] → (continue r next).1.faults ≡ []
      go (ok a, w) h = (post a).stays w h
      go (err e, w) h = h

  pub Calm-then : (act : Exec S A) (next : Exec S B) → Calm act → Calm next → Calm (act >> next)
  Calm-then act next pre post = Calm-bind act (λ _. next) pre (λ _. post)

module _ {S T A : Type 0} where
  pub Calm-within :
      (get : S → T) (put : T → S → S) (act : Exec T A) → Calm act → Calm (within get put act)
  Calm-within get put act pre = record {
    stays = λ w h. pre.stays (record { tables = get w.tables; faults = w.faults }) h;
  }

pub ruleset calm_rules = (
  Calm-pure, Calm-raise, Calm-lift, Calm-execute, Calm-if, Calm-catch, Calm-bind, Calm-then,
  Calm-within,
)
