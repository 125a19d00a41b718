-- ===== src/Db/Pool/Exclusive.antt =====
-- A connection belongs to one caller at a time.
use pyronites.Base.{
  ℕ, ◌+◌, ◌≤◌, ◌≡◌, ◌==◌, Bool, true, false, Option, none, some, List, [], ◌∷◌, Text, text_eq_iff,
  length, keep, if◌then◌else◌, arith, refl, Option-cases, Bool-cases, inl, inr,
}
use pyronites.Db.Pool.{
  Database, Pool, max_per_path, has_path, take_first, connect, acquire_database, close,
  release_database, close_shared_databases,
}

-- how often a connection stands in a list
unfoldable pub count : ℕ → List Database → ℕ
count id [] = 0
count id (d ∷ ds) = let rest = count id ds in if d.id == id then 1 + rest else rest

-- the pool, and the connections that callers hold
pub record Shared : Type 0 where
  pub pool : Pool
  pub held : List Database

-- what callers do: a caller releases a connection that it holds
pub data Call : Type 0 where
  acquires : Bool → Bool → Text → Call
  releases : ℕ → Call
  shuts : Call

abbrev pub hand_out : Option Database × Pool → List Database → Shared
hand_out (none, s) held = record { pool = s; held = held }
hand_out (some d, s) held = record { pool = s; held = d ∷ held }

abbrev pub hand_back : Option (Database × List Database) → Shared → Shared
hand_back none w = w
hand_back (some (d, rest)) w = record { pool = release_database d w.pool; held = rest }

unfoldable pub step : Call → Shared → Shared
step (acquires disabled connects path) w =
    hand_out (acquire_database disabled connects path w.pool) w.held
step (releases id) w = hand_back (take_first (λ d. d.id == id) w.held) w
step shuts w = record w { pool = close_shared_databases w.pool }

unfoldable pub run : List Call → Shared → Shared
run [] w = w
run (k ∷ ks) w = run ks (step k w)

pub record IsExclusive (w : Shared) : Type 0 where
  -- no connection has two holders, or is held and idle
  pub once : (id : ℕ) → count id w.held + count id w.pool.idle ≤ 1
  pub unborn : (id : ℕ) → w.pool.next ≤ id → count id w.held + count id w.pool.idle ≡ 0
  pub bounded : (path : Text) → length (keep (has_path path) w.pool.idle) ≤ max_per_path

count-take_first :
    (p : Database → Bool) (xs : List Database) (d : Database) (rest : List Database) (id : ℕ)
    → take_first p xs ≡ some (d, rest)
    → count id xs ≡ count id (d ∷ []) + count id rest
unfolding take_first count
count-take_first p [] d rest id h = absurd (ground arith)
count-take_first p (x ∷ xs) d rest id h = elim (Bool-cases (p x)) [
  | inl this ↦ ground arith
  | inr later ↦ elim (Option-cases (take_first p xs)) [
    | inl missing ↦ absurd (ground arith)
    | inr ((e, es), there) ↦ ground (arith, count-take_first p xs e es id there)
  ]
]

keep-take_first :
    (p q : Database → Bool) (xs : List Database) (d : Database) (rest : List Database)
    → take_first p xs ≡ some (d, rest)
    → length (keep q rest) ≤ length (keep q xs)
unfolding take_first keep
keep-take_first p q [] d rest h = absurd (ground arith)
keep-take_first p q (x ∷ xs) d rest h = elim (Bool-cases (p x)) [
  | inl this ↦ ground arith
  | inr later ↦ elim (Option-cases (take_first p xs)) [
    | inl missing ↦ absurd (ground arith)
    | inr ((e, es), there) ↦ ground (arith, keep-take_first p q xs e es there)
  ]
]

module _ (w : Shared) (x : IsExclusive w) where
  opened_IsExclusive :
      (no_pool connects : Bool) (path : Text)
      → IsExclusive (hand_out (connect no_pool connects path w.pool) w.held)
  unfolding connect count
  opened_IsExclusive no_pool false path = record {
    once = x.once;
    unborn = x.unborn;
    bounded = x.bounded;
  }
  opened_IsExclusive no_pool true path = record {
    once = λ id. ground (arith, x.once id, x.unborn id);
    unborn = λ id h. ground (arith, x.unborn id);
    bounded = x.bounded;
  }

  acquire-IsExclusive :
      (disabled connects : Bool) (path : Text)
      → IsExclusive (step (acquires disabled connects path) w)
  unfolding step acquire_database
  acquire-IsExclusive true connects path = opened_IsExclusive true connects path
  acquire-IsExclusive false connects path =
      elim (Option-cases (take_first (has_path path) w.pool.idle)) [
        | inl none_idle ↦ rw none_idle (opened_IsExclusive false connects path)
        | inr ((d, rest), there) ↦ rw there (record {
          once = λ id.
              unfold count in
              ground
                (arith, x.once id, count-take_first (has_path path) w.pool.idle d rest id there);
          unborn = λ id h.
              unfold count in
              ground (
                arith,
                x.unborn id h,
                count-take_first (has_path path) w.pool.idle d rest id there,
              );
          bounded = λ p. omega (
            arith,
            x.bounded p,
            keep-take_first (has_path path) (has_path p) w.pool.idle d rest there,
          );
        })
      ]

  release-IsExclusive : (id : ℕ) → IsExclusive (step (releases id) w)
  unfolding step release_database close
  release-IsExclusive id = elim (Option-cases (take_first (λ d. d.id == id) w.held)) [
    | inl missing ↦ rw missing x
    | inr ((d, rest), there) ↦ rw there (record {
      once = λ i.
          unfold count in
          ground (arith, x.once i, count-take_first (λ d. d.id == id) w.held d rest i there);
      unborn = λ i h.
          unfold count in
          ground (arith, x.unborn i, count-take_first (λ d. d.id == id) w.held d rest i there);
      bounded = λ p. unfold keep in ground (arith, x.bounded p, text_eq_iff d.path p);
    })
  ]

  shut-IsExclusive : IsExclusive (step shuts w)
  unfolding step close_shared_databases count keep
  shut-IsExclusive = record {
    once = λ id. omega (arith, x.once id);
    unborn = λ id h. omega (arith, x.unborn id h);
    bounded = λ path. omega arith;
  }

step-IsExclusive : (k : Call) (w : Shared) → IsExclusive w → IsExclusive (step k w)
step-IsExclusive (acquires disabled connects path) w x =
    acquire-IsExclusive w x disabled connects path
step-IsExclusive (releases id) w x = release-IsExclusive w x id
step-IsExclusive shuts w x = shut-IsExclusive w x

run_from : (ks : List Call) (w : Shared) → IsExclusive w → IsExclusive (run ks w)
unfolding run
run_from [] w x = x
run_from (k ∷ ks) w x = run_from ks (step k w) (step-IsExclusive k w x)

abbrev pub at_start : Shared
at_start = record { pool = record { idle = []; closed = []; next = 0 }; held = [] }

-- Whatever calls of `acquire_database`, `release_database` (of a connection that is held) and
-- `close_shared_databases` were made since the start: no connection is held by two callers or held
-- and idle at once, and no path has more than 8 idle connections.
pub run-IsExclusive : (ks : List Call) → IsExclusive (run ks at_start)
run-IsExclusive ks = run_from ks at_start (record {
  once = λ id. unfold count in omega arith;
  unborn = λ id h. unfold count in refl;
  bounded = λ path. unfold keep in omega arith;
})
