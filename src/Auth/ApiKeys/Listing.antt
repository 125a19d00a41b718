-- ===== src/Auth/ApiKeys/Listing.antt =====
-- `list_api_keys`.
use mathlib.Core.List.{Perm}
use mathlib.Core.List.Perm
use pyronites.Base.{
  ℕ, ◌≡◌, ◌≤◌, not, ◌&&◌, Option, List, [], ◌∷◌, Text, map, keep, All, arith, leb, Bool-cases, inl,
  inr, refl,
}
use pyronites.Db.{ok, healthy, execute}
use pyronites.Auth.ApiKeys.{KeyRow, to_key, in_projects, insert_newest, by_newest, list_api_keys}

insert_newest-perm : (k : KeyRow) (rs : List KeyRow) → Perm (insert_newest k rs) (k ∷ rs)
unfolding insert_newest
insert_newest-perm k [] = Perm.refl (k ∷ [])
insert_newest-perm k (r ∷ rs) = elim (Bool-cases (leb r.created_at k.created_at)) [
  | inl newer ↦ rw newer (Perm.refl (k ∷ r ∷ rs))
  | inr older ↦ rw older (Perm.trans (Perm.cons r (insert_newest-perm k rs)) (Perm.swap k r rs))
]

by_newest-perm : (rs : List KeyRow) → Perm (by_newest rs) rs
unfolding by_newest
by_newest-perm [] = Perm.refl []
by_newest-perm (r ∷ rs) =
    Perm.trans (insert_newest-perm r (by_newest rs)) (Perm.cons r (by_newest-perm rs))

-- `n` is no older than any row of the list
abbrev NotOlder : ℕ → List KeyRow → Type 0
NotOlder n = All (λ r. r.created_at ≤ n)

-- newest first
abbrev pub IsNewestFirst : List KeyRow → Type 0
IsNewestFirst [] = Unit
IsNewestFirst (r ∷ rs) = NotOlder r.created_at rs × IsNewestFirst rs

insert-NotOlder :
    (n : ℕ) (k : KeyRow) (rs : List KeyRow)
    → k.created_at ≤ n
    → NotOlder n rs
    → NotOlder n (insert_newest k rs)
unfolding insert_newest
insert-NotOlder n k [] h a = (h, tt)
insert-NotOlder n k (r ∷ rs) h a = elim (Bool-cases (leb r.created_at k.created_at)) [
  | inl newer ↦ rw newer (h, a)
  | inr older ↦ rw older (a.0, insert-NotOlder n k rs h a.1)
]

weaken : (n m : ℕ) (rs : List KeyRow) → n ≤ m → NotOlder n rs → NotOlder m rs
weaken n m [] h a = tt
weaken n m (r ∷ rs) h a = (omega arith, weaken n m rs h a.1)

insert-IsNewestFirst :
    (k : KeyRow) (rs : List KeyRow) → IsNewestFirst rs → IsNewestFirst (insert_newest k rs)
unfolding insert_newest
insert-IsNewestFirst k [] s = (tt, tt)
insert-IsNewestFirst k (r ∷ rs) s = elim (Bool-cases (leb r.created_at k.created_at)) [
  | inl newer ↦ rw newer ((ground arith, weaken r.created_at k.created_at rs (ground arith) s.0), s)
  | inr older ↦
      rw older (insert-NotOlder r.created_at k rs (ground arith) s.0, insert-IsNewestFirst k rs s.1)
]

by_newest-IsNewestFirst : (rs : List KeyRow) → IsNewestFirst (by_newest rs)
unfolding by_newest
by_newest-IsNewestFirst [] = tt
by_newest-IsNewestFirst (r ∷ rs) =
    insert-IsNewestFirst r (by_newest rs) (by_newest-IsNewestFirst rs)

-- On a database that does not fail, the keys that are listed are exactly the rows that are not
-- revoked and belong to the projects asked for, each as often as it is stored, the newest first.
list_api_keys_lem :
    (project_ids : Option (List Text)) (t : List KeyRow)
    → (rows : List KeyRow) × ((list_api_keys project_ids (healthy t)).0
        ≡ ok (map (λ r. to_key r.is_revoked r) rows))
      × Perm rows (keep (λ r. not r.is_revoked && in_projects project_ids r) t)
      × IsNewestFirst rows
unfolding list_api_keys execute
list_api_keys_lem project_ids t =
    let listed = keep (λ r. not r.is_revoked && in_projects project_ids r) t in
    (by_newest listed, refl, by_newest-perm listed, by_newest-IsNewestFirst listed)
