-- ===== src/Api/Tables/Masked.antt =====
-- backend/api/project_scoped.py: what the scoped plane shows of the columns that hold secrets.
use pyronites.Base.{ℕ, ◌≡◌, refl, true, Option, some, List, [], ◌∷◌, map, Text, All}
use pyronites.Db.Returns.{Returns, Returns-pure, Returns-after}
use pyronites.Json.{Fields, end, field}
use pyronites.Api.ProjectDeps.{Context}
use pyronites.Api.Sql.Execute.{redacted, is_sensitive}
use pyronites.Api.Tables.{Libraries}
use pyronites.Api.Tables.Routes
use pyronites.Api.Tables.Planes.{redact_fields, list_table_rows, get_table_row}

-- every value of a sensitive column is `<redacted>`
unfoldable pub IsMasked : Fields → Type 0
IsMasked end = Unit {0}
IsMasked (field k v fs) = (is_sensitive k ≡ true → v ≡ redacted) × IsMasked fs

redact_fields-IsMasked : (fs : Fields) → IsMasked (redact_fields fs)
unfolding redact_fields IsMasked
redact_fields-IsMasked end = tt
redact_fields-IsMasked (field k v fs) = (λ h. rw h refl, redact_fields-IsMasked fs)

redact_rows-IsMasked : (rows : List Fields) → All IsMasked (map redact_fields rows)
redact_rows-IsMasked [] = tt
redact_rows-IsMasked (r ∷ rs) = (redact_fields-IsMasked r, redact_rows-IsMasked rs)

module _ (c : Context) (libs : Libraries) (table : Text) where
  -- The two reading routes of the scoped plane, list_table_rows and get_table_row, answer with
  -- `<redacted>` in every sensitive column of every row, JSON columns included, whichever filter was
  -- asked for and whichever statements fail. The rows that its POST and PATCH answer with are not
  -- redacted, and are not meant here.
  pub scoped_rows-IsMasked :
      (limit offset : ℕ) (filter_column filter_value : Option Text) (id : Text)
      → Returns
          (All IsMasked)
          (list_table_rows c libs table limit offset filter_column filter_value)
        × Returns IsMasked (get_table_row c libs table id)
  unfolding list_table_rows get_table_row
  scoped_rows-IsMasked limit offset filter_column filter_value id = (
    Returns-after
        (Routes.list_table_rows libs (some c.auth) table limit offset filter_column filter_value) _
        (λ rows. Returns-pure (map redact_fields rows) (redact_rows-IsMasked rows)),
    Returns-after (Routes.get_table_row libs (some c.auth) table id) _
        (λ row. Returns-pure (redact_fields row) (redact_fields-IsMasked row)),
  )
