-- ===== src/Api.antt =====
-- backend/api: the modelled parts of the HTTP handlers.
--
-- The meta database holds the tables of Auth and those of ApiKeys.
pub mod Accounts
pub mod AuthDeps
pub mod ProjectDeps
pub mod Rows
pub mod Sql
pub mod Tables
pub mod Keys
use pyronites.Base.{List, Bool, true, false, if◌then◌else◌}
use pyronites.Db.{Exc, http_exception, is_database_error, Result, Conn, Exec, raise}
use pyronites.Auth.{AuthDb}
use pyronites.Auth.ApiKeys.{KeyRow}

pub record MetaDb : Type 0 where
  pub auth : AuthDb
  pub keys : List KeyRow

module _ {A : Type 0} where
  -- an action on the tables of Auth, on the connection to the meta database
  abbrev pub in_auth : Exec AuthDb A → Exec MetaDb A
  in_auth act w =
      let (r, v) = act (record { tables = w.tables.auth; faults = w.faults }) in
      (r, record { tables = record w.tables { auth = v.tables }; faults = v.faults })

  abbrev pub in_keys : Exec (List KeyRow) A → Exec MetaDb A
  in_keys act w =
      let (r, v) = act (record { tables = w.tables.keys; faults = w.faults }) in
      (r, record { tables = record w.tables { keys = v.tables }; faults = v.faults })
