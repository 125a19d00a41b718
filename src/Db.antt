-- ===== src/Db.antt =====
-- backend/core/db.py: statements against SQLite, errors, and transactions.
--
-- SQLite is not in this repository. A statement is given as its effect on the tables, and the
-- environment decides beforehand which of the coming statements fail (`faults`): a failing one
-- raises and changes nothing, also where it is the COMMIT of a single statement that fails. What
-- is proved for every list of faults holds whatever fails.
pub mod Pool
pub mod Preserves
pub mod Returns
pub mod Ensures
pub mod Calm
pub mod Refused
pub mod Transaction
use pyronites.Base.{ℕ, Option, none, some, List, [], ◌∷◌, Bool, true, false, Text}

-- The exceptions that the modelled code raises or catches, without their message texts.
pub data Exc : Type 0 where
  value_error : Exc
  user_exists : Exc
  runtime_error : Exc
  argon2_error : Exc
  -- KeyError, PermissionError, AssertionError, AttributeError; FileNotFoundError, OSError
  key_error permission_error assertion_error attribute_error : Exc
  file_not_found os_error : Exc
  -- OAuthError, OAuthProviderError; InvalidFilenameError, FileTooLargeError
  oauth_error provider_error invalid_filename file_too_large : Exc
  -- HTTPException, with its status code
  http_exception : ℕ → Exc
  -- DatabaseError, and its subclasses
  database_error operational_error integrity_error : Exc
  -- the OperationalError of an ALTER TABLE whose column is there already
  duplicate_column : Exc

-- `except DatabaseError`
abbrev pub is_database_error : Exc → Bool
is_database_error database_error = true
is_database_error operational_error = true
is_database_error integrity_error = true
is_database_error duplicate_column = true
is_database_error _ = false

pub data Result {ℓ} (A : Type ℓ) : Type ℓ where
  ok : A → Result A
  err : Exc → Result A

-- A connection: the tables that it sees, and the outcome of each coming statement.
pub record Conn (S : Type 0) : Type 0 where
  pub tables : S
  pub faults : List (Option Exc)

abbrev pub Exec : Type 0 → Type 0 → Type 0
Exec S A = Conn S → Result A × Conn S

module _ {S : Type 0} where
  -- a connection on which every statement runs
  abbrev pub healthy : S → Conn S
  healthy t = record { tables = t; faults = [] }

module _ {S A : Type 0} where
  abbrev pub pure : A → Exec S A
  pure a w = (ok a, w)

  abbrev pub raise : Exc → Exec S A
  raise e w = (err e, w)

  abbrev pub lift : Result A → Exec S A
  lift r w = (r, w)

  abbrev pub settle : Result A × S → List (Option Exc) → Result A × Conn S
  settle (r, t) fs = (r, record { tables = t; faults = fs })

  abbrev pub attempt : (S → Result A × S) → S → List (Option Exc) → Result A × Conn S
  attempt stmt t [] = settle (stmt t) []
  attempt stmt t (none ∷ fs) = settle (stmt t) fs
  attempt stmt t (some e ∷ fs) = (err e, record { tables = t; faults = fs })

  -- Database.execute
  unfoldable pub execute : (S → Result A × S) → Exec S A
  execute stmt w = attempt stmt w.tables w.faults

  abbrev pub handle : (Exc → Exec S A) → Result A × Conn S → Result A × Conn S
  handle h (ok a, w) = (ok a, w)
  handle h (err e, w) = h e w

  -- `try: m except Exception as e: h e`
  abbrev pub catch : Exec S A → (Exc → Exec S A) → Exec S A
  catch m h w = handle h (m w)

module _ {S A B : Type 0} where
  abbrev pub continue : Result A × Conn S → (A → Exec S B) → Result B × Conn S
  continue (ok a, w) f = f a w
  continue (err e, w) f = (err e, w)

  infixl 10 ◌>>=◌ ◌>>◌
  abbrev pub ◌>>=◌ : Exec S A → (A → Exec S B) → Exec S B
  ◌>>=◌ m f w = continue (m w) f

  abbrev pub ◌>>◌ : Exec S A → Exec S B → Exec S B
  ◌>>◌ m n w = continue (m w) (λ _. n)

module _ {S T A : Type 0} where
  -- an action on a part of the tables, over the same connection
  abbrev pub within : (S → T) → (T → S → S) → Exec T A → Exec S A
  within get put act w =
      let (r, v) = act (record { tables = get w.tables; faults = w.faults }) in
      (r, record { tables = put v.tables w.tables; faults = v.faults })

module _ {S : Type 0} where
  -- BEGIN, COMMIT: statements that leave the tables to the others
  unfoldable pub mark : Exec S (Unit {0})
  unfolding execute
  mark = execute (λ t. (ok tt, t))

module _ {S A : Type 0} where
  abbrev pub rollback : S → Result A × Conn S → Result A × Conn S
  rollback before (ok a, w) = (ok a, w)
  rollback before (err e, w) = (err e, record { tables = before; faults = w.faults })

  -- Database.transaction: BEGIN, the block, COMMIT; any exception rolls back and goes on
  unfoldable pub transaction : Exec S A → Exec S A
  unfolding mark
  transaction block w = rollback w.tables ((do mark; a ← block; mark; pure a) w)
