-- ===== src/Tests/Connections.antt =====
-- The pool of connections.
use pyronites.Base.{true, false, [], ◌∷◌, List, codes}
use pyronites.Db.Pool.Exclusive.{
  Call, acquires, releases, shuts, IsExclusive, run, at_start, run-IsExclusive,
}

-- two callers, a release, and the same connection again
abbrev calls : List Call
calls =
    acquires false true (codes "a.db")
    ∷ acquires false true (codes "a.db")
    ∷ releases 0
    ∷ acquires false true (codes "a.db")
    ∷ acquires true true (codes "b.db")
    ∷ releases 2
    ∷ shuts
    ∷ []

run-IsExclusive_example : IsExclusive (run calls at_start)
run-IsExclusive_example = run-IsExclusive calls
