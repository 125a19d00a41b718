-- ===== src/Db/Ensures.antt =====
-- Actions after which a property of the tables holds, where they return.
use pyronites.Base.{◌≡◌, sym, subst}
use pyronites.Db.{ok, Conn, Exec, ◌>>=◌}
use pyronites.Db.Transaction.{bind_returned}
use pyronites.Db.Preserves.{Preserves}

pub record Ensures {S A : Type 0} (P : S → Type 0) (act : Exec S A) : Type 0 where
  pub holds : (w : Conn S) (a : A) → (act w).0 ≡ ok a → P (act w).1.tables

module _ {S A B : Type 0} {P : S → Type 0} where
  -- whatever came before
  pub Ensures-after :
      (act : Exec S A) (next : A → Exec S B)
      → ((a : A) → Ensures P (next a))
      → Ensures P (act >>= next)
  Ensures-after act next post = record {
    holds = λ w b h.
        (let (a, _, rest, same) = bind_returned act next w b h in
          subst (λ v. P v.tables) (sym same) ((post a).holds _ b rest));
  }

  -- where the rest keeps it
  pub Ensures-then :
      (act : Exec S A) (next : A → Exec S B)
      → Ensures P act
      → ((a : A) → Preserves P (next a))
      → Ensures P (act >>= next)
  Ensures-then act next pre post = record {
    holds = λ w b h.
        (let (a, got, _, same) = bind_returned act next w b h in
          subst (λ v. P v.tables) (sym same) ((post a).kept _ (pre.holds w a got)));
  }
