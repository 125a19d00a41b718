-- ===== src/Db/Pool.antt =====
-- backend/core/db.py: the shared connections, `acquire_database` and `release_database`.
--
-- The lists of `_pool` are one list here, the latest connection first: the list of a path is what
-- the list holds for that path. A connection has a number.
pub mod Exclusive
use pyronites.Base.{
  ℕ, zero, suc, ◌+◌, Bool, true, false, Option, none, some, List, [], ◌∷◌, ◌++◌, map, Text, text_eq,
  ltb, length, keep, if◌then◌else◌,
}

pub record Database : Type 0 where
  pub id : ℕ
  pub path : Text
  -- the attribute `_no_pool`
  pub no_pool : Bool

pub record Pool : Type 0 where
  pub idle : List Database
  pub closed : List ℕ
  -- the number of the next connection
  pub next : ℕ

abbrev pub max_per_path : ℕ
max_per_path = 8

abbrev pub has_path : Text → Database → Bool
has_path path d = text_eq d.path path

-- the first connection with the property, and the others
unfoldable pub take_first : (Database → Bool) → List Database → Option (Database × List Database)
take_first p [] = none
take_first p (d ∷ ds) =
    let rest = take_first p ds in
    if p d then some (d, ds) else elim rest [ none ↦ none | some (e, es) ↦ some (e, d ∷ es) ]

-- `Database(db_path)` and `connect()`, which raises if not `connects`
unfoldable pub connect : Bool → Bool → Text → Pool → Option Database × Pool
connect no_pool connects path s =
    if connects
    then (
      some (record { id = s.next; path = path; no_pool = no_pool }),
      record s { next = s.next + 1 },
    )
    else (none, s)

abbrev pub checkout :
    Bool → Text → Pool → Option (Database × List Database) → Option Database × Pool
checkout connects path s none = connect false connects path s
checkout connects path s (some (d, rest)) = (some d, record s { idle = rest })

-- acquire_database; `disabled` is the answer of `_pool_disabled`
unfoldable pub acquire_database : Bool → Bool → Text → Pool → Option Database × Pool
unfolding connect take_first
acquire_database disabled connects path s =
    if disabled
    then connect true connects path s
    else checkout connects path s (take_first (has_path path) s.idle)

unfoldable pub close : Database → Pool → Pool
close d s = record s { closed = d.id ∷ s.closed }

unfoldable pub release_database : Database → Pool → Pool
unfolding close
release_database d s =
    if d.no_pool
    then close d s
    else if ltb (length (keep (has_path d.path) s.idle)) max_per_path
    then record s { idle = d ∷ s.idle }
    else close d s

unfoldable pub close_shared_databases : Pool → Pool
close_shared_databases s = record s { idle = []; closed = map (λ d. d.id) s.idle ++ s.closed }
