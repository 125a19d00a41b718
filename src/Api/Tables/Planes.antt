-- ===== src/Api/Tables/Planes.antt =====
-- The two planes that serve the tables: backend/api/tables.py, where the key or the cookie of the
-- request is looked up in the meta database, and backend/api/project_scoped.py, where
-- get_project_context did so before.
use pyronites.Base.{ℕ, Option, some, List, map, Text, if◌then◌else◌}
use pyronites.Db.{Exec, pure, within, ◌>>=◌, ◌>>◌}
use pyronites.Json.{Fields, end, field}
use pyronites.SchemaRules.{CreateTable}
use pyronites.Api.{MetaDb}
use pyronites.Api.AuthDeps.{Request, AuthInfo, resolve_auth, enforce_legacy_plane_key}
use pyronites.Api.ProjectDeps.{Context}
use pyronites.Api.Sql.Execute.{redacted, is_sensitive}
use pyronites.Api.Tables.{ColumnInfo, DataDb, Libraries}
use pyronites.Api.Tables.Routes.{TableCount}
use pyronites.Api.Tables.Routes
use pyronites.Api.Tables.Writes

-- The meta database and that of the data: on the unscoped plane one file, whose tables that the
-- platform itself reads stand in `meta`, and the others in `rows`.
pub record Store : Type 0 where
  pub meta : MetaDb
  pub rows : DataDb

module _ {A : Type 0} where
  abbrev pub in_meta : Exec MetaDb A → Exec Store A
  in_meta = within (λ s. s.meta) (λ t s. record s { meta = t })

  abbrev pub in_rows : Exec DataDb A → Exec Store A
  in_rows = within (λ s. s.rows) (λ t s. record s { rows = t })

module _ (sha256 : Text → Text) (now : ℕ) where
  -- _auth
  unfoldable pub legacy_auth : Request → Exec Store (Option AuthInfo)
  unfolding resolve_auth enforce_legacy_plane_key
  legacy_auth request = do
    info ← in_meta (resolve_auth sha256 now request)
    in_meta (enforce_legacy_plane_key info)
    pure info

  module _ {A : Type 0} where
    -- a handler of the unscoped plane
    unfoldable pub legacy : (Option AuthInfo → Exec DataDb A) → Request → Exec Store A
    unfolding legacy_auth
    legacy handler request = do info ← legacy_auth request; in_rows (handler info)

-- `<redacted>` in the columns that hold secrets
unfoldable pub redact_fields : Fields → Fields
redact_fields end = end
redact_fields (field k v fs) = field k (if is_sensitive k then redacted else v) (redact_fields fs)

module _ (c : Context) where
  abbrev pub list_tables : Exec DataDb (List TableCount)
  list_tables = Routes.list_tables (some c.auth)

  abbrev pub table_schema : Text → Exec DataDb (List ColumnInfo)
  table_schema = Routes.table_schema (some c.auth)

  abbrev pub create_table : Libraries → CreateTable → Exec DataDb CreateTable
  create_table libs = Writes.create_table libs (some c.auth)

  abbrev pub drop_table : Libraries → Text → Text → Exec DataDb (Unit {0})
  drop_table libs = Writes.drop_table libs (some c.auth)

  module _ (libs : Libraries) where
    unfoldable pub list_table_rows :
        Text → ℕ → ℕ → Option Text → Option Text → Exec DataDb (List Fields)
    unfolding Routes.list_table_rows redact_fields
    list_table_rows table limit offset filter_column filter_value = do
      rows ← Routes.list_table_rows libs (some c.auth) table limit offset filter_column filter_value
      pure (map redact_fields rows)

    unfoldable pub get_table_row : Text → Text → Exec DataDb Fields
    unfolding Routes.get_table_row redact_fields
    get_table_row table id = do
      row ← Routes.get_table_row libs (some c.auth) table id
      pure (redact_fields row)

    abbrev pub create_table_row : Text → Text → Fields → Exec DataDb Fields
    create_table_row uuid = Writes.create_table_row libs uuid (some c.auth)

    abbrev pub update_table_row : Text → Text → Fields → Exec DataDb Fields
    update_table_row = Writes.update_table_row libs (some c.auth)

    abbrev pub delete_table_row : Text → Text → Exec DataDb (Unit {0})
    delete_table_row = Writes.delete_table_row libs (some c.auth)
