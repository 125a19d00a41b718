-- ===== src/Tests/Sql.antt =====
-- The SQL editor.
use pyronites.Auth.ApiKeys.{scopes_of}
use pyronites.Base.{
  split, strip, is_letter, lower, member, text_eq, upper, ℕ, ◌≡◌, ◌⊎◌, refl, none, some, [], ◌∷◌,
  ◌++◌, Text, codes, starts_with, All, any, first, if◌then◌else◌,
}
use pyronites.Json.{null, str}
use pyronites.Db.{execute, Result, ok, err, value_error, http_exception, healthy}
use pyronites.Db.Returns.{Returns}
use pyronites.Backups.{Disk, is_at}
use pyronites.Backups.Restore.{snapshot}
use pyronites.Api.{MetaDb}
use pyronites.Api.AuthDeps.{Request, AuthInfo, session, bearer_key, cookie, resolve_auth}
use pyronites.Api.AuthDeps.Credentials.{HasKey, HasSession, resolve_auth_sound}
use pyronites.Api.Sql.{scan, split_statements}
use pyronites.Api.Sql.Batch.{split_statements-semicolon}
use pyronites.Api.Sql.Session.{Versions, sql_transaction}
use pyronites.Api.Sql.Execute.{value, Cursor, select, write, Response, redacted, execute_sql}
use pyronites.Api.Sql.Redaction.{IsClean, execute_sql-IsClean}
use pyronites.Api.Sql.Guarded.{
  authorized, MayWrite, IsLegacy, execute_sql_backed_up, execute_sql_aborts, execute_sql_authorized,
}
use pyronites.Tests.Accounts.{digest, bob, logged_in}
use pyronites.Tests.Keys.{key_rows}

abbrev meta : MetaDb
meta = record { auth = logged_in; keys = key_rows }

abbrev disk : Disk MetaDb
disk = record { live = meta; backups = [] }

abbrev decimal : ℕ → Text
decimal n = codes "3"

-- SELECT answers one row, DELETE drops the keys, and anything else is an error
abbrev run : Text → Versions → Result Cursor × Versions
run statement v =
    if starts_with (codes "SELECT") statement
    then (
      ok (record {
        description = some (codes "id" ∷ codes "Token" ∷ []);
        rows = (value (str (codes "s1")) ∷ value (str (codes "secret")) ∷ []) ∷ [];
        rowcount = null;
      }),
      v,
    )
    else if starts_with (codes "DELETE") statement
    then (
      ok (record { description = none; rows = []; rowcount = null }),
      record v { live = record v.live { keys = [] } },
    )
    else (err value_error, v)

abbrev by_key : Request
by_key = record { authorization = some (codes "Bearer k1"); session_token = none }

abbrev by_session : Request
by_session = record { authorization = none; session_token = some bob.id }

abbrev good_sql : Text
good_sql = codes "SELECT ';';DELETE -- ;"

abbrev bad_sql : Text
bad_sql = codes "DELETE; FROM"

abbrev file : Text
file = codes "meta.db"

abbrev answer : Response
answer = record {
  results =
      record {
        statement = codes "SELECT ';'";
        kind = select;
        columns = codes "id" ∷ codes "Token" ∷ [];
        rows = (str (codes "s1") ∷ redacted ∷ []) ∷ [];
        changes = null;
      }
      ∷ record { statement = codes "DELETE"; kind = write; columns = []; rows = []; changes = null }
      ∷ [];
  backup = some file;
}

execute_sql_authorized_example :
    (a : AuthInfo) × ((resolve_auth digest 50 by_key (healthy meta)).0 ≡ ok (some a))
    × MayWrite decimal run a
    × IsLegacy a
unfolding execute_sql starts_with execute first text_eq member scopes_of split strip any is_letter
    upper sql_transaction lower
execute_sql_authorized_example =
    execute_sql_authorized decimal run digest 50 file by_key good_sql (healthy disk) answer refl

execute_sql_backed_up_example :
    first
      (is_at file)
      (execute_sql decimal run digest 50 file by_key good_sql (healthy disk)).1.tables.backups
    ≡ some (snapshot file 50 (authorized decimal run digest 50 file by_key good_sql (healthy disk)))
unfolding execute_sql starts_with execute first text_eq member scopes_of split strip any is_letter
    upper sql_transaction lower
execute_sql_backed_up_example =
    execute_sql_backed_up decimal run digest 50 file by_key good_sql (healthy disk) answer refl refl

execute_sql_aborts_example :
    (execute_sql decimal run digest 50 file by_key bad_sql (healthy disk)).1.tables.live
    ≡ (authorized decimal run digest 50 file by_key bad_sql (healthy disk)).live
unfolding execute_sql starts_with execute first text_eq member scopes_of split strip any is_letter
    upper sql_transaction
execute_sql_aborts_example =
    execute_sql_aborts decimal run digest 50 file by_key bad_sql (healthy disk) (http_exception 400)
      ((λ v. refl), ((λ v. refl), tt)) refl

execute_sql-IsClean_example :
    Returns (λ r. All IsClean r.results) (execute_sql decimal run digest 50 file by_key good_sql)
execute_sql-IsClean_example = execute_sql-IsClean decimal run digest 50 file by_key good_sql

split_statements-semicolon_example :
    split_statements (codes "SELECT ';'" ++ b';' ∷ codes "DELETE")
    ≡ split_statements (codes "SELECT ';'") ++ split_statements (codes "DELETE")
unfolding scan
split_statements-semicolon_example =
    split_statements-semicolon (codes "SELECT ';'") (codes "DELETE") (refl, refl)

resolve_auth_sound_example :
    HasKey digest 50 meta (bearer_key by_session.authorization) (session bob.id)
    ⊎ HasSession digest 50 logged_in (cookie by_session.session_token) (session bob.id)
unfolding resolve_auth execute first text_eq
resolve_auth_sound_example =
    resolve_auth_sound digest 50 by_session (healthy meta) (session bob.id) refl
