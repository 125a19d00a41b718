-- ===== src/Api/Tables/Deleted.antt =====
-- backend/api/tables.py: what delete_table_row makes of the tables.
use pyronites.Base.{
  ◌≡◌, ◌∙◌, refl, ap, subst, arith, Bool, false, not, Option, none, some, List, [], ◌∷◌, keep,
  first, update, Text, text_eq, text_eq_sound, Bool-cases, inl, inr, first-keep-none,
}
use pyronites.Db.{Result, ok, err, lift, execute, ◌>>=◌, ◌>>◌}
use pyronites.Db.Refused.{Makes, Makes-after, Makes-lift, Makes-execute, Reads-execute, lift-Reads}
use pyronites.Api.Tables.Hidden.{require_scopes-Reads, get_allowed_tables-Reads}
use pyronites.Auth.ApiKeys.{write_scope}
use pyronites.Api.AuthDeps.{AuthInfo, require_scopes}
use pyronites.Api.Tables.{
  Row, Table, DataDb, Libraries, is_table, find_table, with_rows, writing, where_id, without_id,
  put_rows, with_reaction, on_table,
}
use pyronites.Api.Tables.Routes.{get_allowed_tables, validate_table, or_not_found, select_id}
use pyronites.Api.Tables.Writes.{delete_table_row}

-- a table keeps its name under an update of the rows
find-update :
    (name other : Text) (rows : List Row) (ts : List Table)
    → text_eq name other ≡ false
    → first (is_table other) (update (is_table name) (with_rows rows) ts)
      ≡ first (is_table other) ts
unfolding first update
find-update name other rows [] h = refl
find-update name other rows (t ∷ ts) h = elim (Bool-cases (is_table name t)) [
  | inl e ↦
      (let named : t.name ≡ name = text_eq_sound t.name name e in
        let elsewhere : text_eq t.name other ≡ false = ap (λ x. text_eq x other) named ∙ h in
        rw e (rw elsewhere (find-update name other rows ts h)))
  | inr f ↦ rw f (ground (arith, find-update name other rows ts h))
]

pub find-update_same :
    (name : Text) (rows : List Row) (ts : List Table) (t : Table)
    → first (is_table name) ts ≡ some t
    → first (is_table name) (update (is_table name) (with_rows rows) ts) ≡ some (with_rows rows t)
unfolding first update
find-update_same name rows [] t h = absurd (ground arith)
find-update_same name rows (u ∷ ts) t h = ground (arith, find-update_same name rows ts t)

pub validate_table_sound :
    (table valid : Text) (allowed : List Text)
    → validate_table table allowed ≡ ok valid
    → table ≡ valid
unfolding validate_table
validate_table_sound table valid allowed h = ground arith

module _ (libs : Libraries) where
  module _ (table id : Text) where
    -- no row of the table has the id
    abbrev pub IsGone : DataDb → Type 0
    IsGone d =
        (t : Table) (p : Row → Bool)
        → find_table table d ≡ some t
        → where_id libs id t ≡ ok p
        → first p t.rows ≡ none

    -- what the DELETE found, and what it left
    abbrev pub IsDeleted : DataDb → DataDb → Type 0
    IsDeleted before after =
        (t : Table) × (q : Row → Bool) × (find_table table before ≡ some t)
        × (where_id libs id t ≡ ok q)
        × (find_table table after ≡ some (with_rows (keep (λ r. not (q r)) t.rows) t))

    -- no foreign key acts on what is deleted from the table, and no trigger
    abbrev pub IsQuiet : Type 0
    IsQuiet = (d e : DataDb) → libs.react table d e ≡ ok e

    quiet_rows :
        IsQuiet
        → (d : DataDb) (rows : List Row)
        → put_rows libs table (ok rows) d
          ≡ (ok tt, record d { tables = update (is_table table) (with_rows rows) d.tables })
    quiet_rows quiet d rows = ap (with_reaction libs d) (quiet d _)

    IsDeleted-from :
        IsQuiet
        → (d : DataDb) (t : Table) → find_table table d ≡ some t
        → (r : Result (Row → Bool)) → where_id libs id t ≡ r
        → (put_rows libs table
            (elim r [ err e ↦ err e | ok p ↦ ok (keep (λ x. not (p x)) t.rows) ])
            d).0
          ≡ ok tt
        → IsDeleted d
            (put_rows libs table
              (elim r [ err e ↦ err e | ok p ↦ ok (keep (λ x. not (p x)) t.rows) ])
              d).1
    IsDeleted-from quiet d t found (err e) test h = absurd (ground arith)
    IsDeleted-from quiet d t found (ok q) test h = (
      t,
      q,
      found,
      test,
      rw (quiet_rows quiet d (keep (λ r. not (q r)) t.rows))
          (find-update_same table (keep (λ r. not (q r)) t.rows) d.tables t found),
    )

    without_id-IsDeleted :
        IsQuiet
        → (d : DataDb) → (writing libs (without_id libs id) table d).0 ≡ ok tt
        → IsDeleted d (writing libs (without_id libs id) table d).1
    without_id-IsDeleted quiet d h = go (find_table table d) refl h
      where
        go :
            (o : Option Table)
            → find_table table d ≡ o
            → (put_rows libs table (on_table (without_id libs id) o) d).0 ≡ ok tt
            → IsDeleted d (put_rows libs table (on_table (without_id libs id) o) d).1
        go none e k = absurd (ground arith)
        go (some t) e k = IsDeleted-from quiet d t e (where_id libs id t) refl k

    pub IsDeleted→IsGone : (before after : DataDb) → IsDeleted before after → IsGone after
    IsDeleted→IsGone before after (t, q, there, test, left) u p found again =
        let same : with_rows (keep (λ r. not (q r)) t.rows) t ≡ u = ground arith in
        subst (λ v. where_id libs id v ≡ ok p → first p v.rows ≡ none) same
          (λ e.
            let tests : q ≡ p = ground arith in
            rw (← tests) (first-keep-none q (λ r. not (q r)) t.rows (λ r k. ground arith)))
          again

    -- the tables of other names stay as they were
    abbrev pub IsKept : DataDb → DataDb → Type 0
    IsKept before after =
        (other : Text)
        → text_eq table other ≡ false
        → find_table other after ≡ find_table other before

    without_id-IsKept :
        IsQuiet → (d : DataDb) → IsKept d (writing libs (without_id libs id) table d).1
    without_id-IsKept quiet d other h = go (on_table (without_id libs id) (find_table table d))
      where
        go :
            (r : Result (List Row))
            → find_table other (put_rows libs table r d).1 ≡ find_table other d
        go (err e) = refl
        go (ok rows) = rw (quiet_rows quiet d rows) (find-update table other rows d.tables h)

    abbrev IsRemoved : DataDb → DataDb → Type 0
    IsRemoved before after = IsDeleted before after × IsKept before after

    pub delete_table_row-Makes :
        IsQuiet
        → (auth : Option AuthInfo)
        → Makes (λ d _. IsRemoved d) (delete_table_row libs auth table id)
    unfolding delete_table_row
    delete_table_row-Makes quiet auth =
        Makes-after (require_scopes auth (write_scope ∷ [])) _ (require_scopes-Reads _ _) (λ _.
          Makes-after get_allowed_tables _ get_allowed_tables-Reads (λ allowed.
            Makes-lift (validate_table table allowed) _ (λ valid e.
              subst
                (λ x.
                  Makes (λ d _. IsRemoved d)
                    (do
                      found ← select_id libs x id
                      lift (or_not_found found)
                      execute (writing libs (without_id libs id) x)))
                (validate_table_sound table valid allowed e)
                (Makes-after (select_id libs table id) _ (Reads-execute _ (λ t. refl)) (λ found.
                  Makes-after (lift (or_not_found found))
                    (λ _. execute (writing libs (without_id libs id) table)) (lift-Reads _)
                    (λ _.
                      Makes-execute _
                        (λ d _ h. (without_id-IsDeleted quiet d h, without_id-IsKept quiet d))))))))
