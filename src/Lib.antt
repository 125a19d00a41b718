-- ===== src/Lib.antt =====
-- Verification of the backend core and the Python client of Pyronites.
--
-- Pyronites is a backend server over SQLite (backend/) with a Python client (pyronites/pyronites/).
-- A request reaches the backend, is limited by its client's address (rate_limit), is authenticated
-- by a session or an API key (auth), and reads and writes the project's tables, whose names are
-- checked by schema_rules; the schema itself comes from migration files, and events go to a ring
-- buffer. Files, projects and backups are kept beside the databases, and the SQL editor runs batches
-- of statements behind a backup. Requests to a project are confined to its own database and counted
-- in metrics. The client sends requests with retries and keeps some tables in a local store.
--
-- Files and what they model (paths from the repository's root):
--   Db            backend/core/db.py: Database.execute, Database.transaction; Db/Pool:
--                 acquire_database, release_database, close_shared_databases
--   RateLimit     backend/core/rate_limit.py: check_and_record; RateLimit/ClientIp: get_client_ip;
--                 RateLimit/Trusted: _is_trusted
--   Auth          the tables that backend/auth shares
--     Passwords   backend/auth/passwords.py
--     Users       backend/auth/users.py
--     Sessions    backend/auth/sessions.py
--     ResetTokens backend/auth/password_reset.py
--     ApiKeys     backend/auth/api_keys.py
--     Oauth       backend/auth/oauth.py: state tokens; Oauth/Providers: the providers and their
--                 endpoints; Oauth/Profile: fetch_profile; Oauth/Resolve: resolve_oauth_user
--   Backups       backend/core/backup.py
--   Storage       backend/core/storage.py; Storage/Listing: LocalFileStorage.list
--   Projects      backend/core/projects.py: lookups; Projects/Operations: create_project,
--                 update_project, archive_project, hard_delete_project and the others;
--                 Projects/Slugs: slugify, project_file_path
--   Api           the meta database as the handlers see it
--     Accounts    backend/api/auth.py and _session.py; Accounts/Entry: signup, login, logout, me;
--                 Accounts/Recovery: forgot_password, reset_password; Accounts/Deletion: delete_account
--     AuthDeps    backend/api/auth_deps.py
--     ProjectDeps backend/api/project_deps.py: get_project_context
--     Rows        backend/api/tables.py: prepare_row_for_write, deserialize_row
--     Tables      backend/api/tables.py; Tables/Routes: the handlers that read, Tables/Writes: those
--                 that write, Tables/Planes: _auth, and the copies in backend/api/project_scoped.py
--     Keys        backend/api/apikeys.py, and the copies of its routes in project_scoped.py;
--                 Keys/Chosen: current_project_slug of project_deps.py
--     Sql         backend/api/sql_editor.py: _split_statements, _is_readonly; Sql/Execute: execute_sql;
--                 Sql/Session: Database.transaction around its statements
--   Metrics       backend/core/metrics.py; Metrics/Series: query
--   Migrations    backend/core/migrations.py; Migrations/Scan: _parse_statements
--   SchemaRules   backend/core/schema_rules.py
--   LogRing       backend/core/logring.py
--   Client        pyronites/pyronites: Http is http.py and errors.py, Local is local.py, Config is
--                 config.py, Table is TableQuery of table.py and the start of client.py
--   Json          JSON values
--   Base          lists, texts and tests that all of them use
--   Tests         the theorems at concrete inputs
-- Below each component stand the files with its proofs, named for what they prove.
--
-- State. A database connection is a record of its tables and of the outcomes of the coming
-- statements: each runs, or raises an exception and changes nothing. A function of the program is an
-- action on such a connection that returns or raises. A theorem about every connection holds for
-- every pattern of failing statements. SQLite's constraints (primary keys, UNIQUE, foreign keys,
-- cascades) are written out in the INSERT and DELETE statements that are modelled.
--
-- Parameters, for code outside the repository: SHA-256, json, the Argon2 hasher, the ipaddress
-- module, what a statement of a migration file or of the SQL editor does (the latter also to the
-- open transaction), what foreign keys and triggers of a project's tables do after an UPDATE, a
-- DELETE or a DROP, what `\d` of Python's re matches, whether a new project's migrations run, the
-- HTTP server, urllib and the OAuth providers, the mailer, the validator of addresses, the
-- environment, and Python's str and float. Random identifiers, tokens and the clock are arguments.
--
-- Bounds. Times are whole ticks since the epoch. Texts are lists of code points; character classes
-- (but `\d`) and changes of case cover the ASCII letters and digits. The loop over attempts recurses on the
-- attempts that are left, the loop over the points of a series on the points that are left, the loop
-- of _unique_slug on 1000 - n, and all other loops on a list: no fuel is chosen. Slices of lists are
-- taken at the source's limits.
--
-- Not modelled: the other HTTP routers, the command line, the durations of requests with their
-- averages and percentiles, uploads to object storage, email, and the adoption of old databases; the
-- connection's PRAGMAs; the texts of error messages and log lines; foreign keys and triggers that a
-- project's own tables have, where a row is inserted into them.
-- Threads: a transaction holds the connection's lock, and is one step here. The functions outside of
-- a transaction are modelled as one call after the other; only Auth/ResetTokens/Spent also has two
-- calls of which the statements alternate.
pub mod Base
pub mod Json
pub mod Db
pub mod Backups
pub mod RateLimit
pub mod Auth
pub mod Migrations
pub mod SchemaRules
pub mod LogRing
pub mod Client
pub mod Storage
pub mod Projects
pub mod Metrics
pub mod Api
pub mod Tests
