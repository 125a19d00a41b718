-- ===== src/Api/Tables/Hidden.antt =====
-- backend/api/tables.py: requests about the tables that get_allowed_tables leaves out.
use pyronites.Base.{
  ℕ, ◌≡◌, ◌∙◌, refl, sym, ap, arith, Bool, false, Option, none, some, List, [], ◌∷◌, keep, Text,
  text_eq, text_eq_sound, member, Bool-cases, inl, inr,
}
use pyronites.Db.{ok, Exec, pure, lift, execute, http_exception, ◌>>=◌, ◌>>◌}
use pyronites.Db.Transaction.{execute_returned}
use pyronites.Db.Returns.{Returns}
use pyronites.Db.Refused.{
  Refused, Reads, Refused-bind, Refused-after, Refused-then, lift-Reads, err-Refused,
}
use pyronites.Json.{Fields}
use pyronites.Auth.ApiKeys.{read_scope, write_scope, admin_scope}
use pyronites.Api.AuthDeps.{AuthInfo, require_scopes}
use pyronites.Api.Tables.{DataDb, Libraries}
use pyronites.Api.Tables.Routes.{
  is_listed, names, get_allowed_tables, validate_table, check_limit, table_schema, list_table_rows,
  get_table_row,
}
use pyronites.Api.Tables.Writes.{
  check_body, create_table_row, update_table_row, delete_table_row, drop_table,
}

-- a request about one table that is there
pub data TableRequest : Type 0 where
  on_schema : Text → TableRequest
  -- limit, offset, filter_column, filter_value
  on_page : Text → ℕ → ℕ → Option Text → Option Text → TableRequest
  on_row : Text → Text → TableRequest
  -- the id that is made, the body
  on_insert : Text → Text → Fields → TableRequest
  on_patch : Text → Text → Fields → TableRequest
  on_remove : Text → Text → TableRequest
  -- confirm_name
  on_drop : Text → Text → TableRequest

abbrev pub table_of : TableRequest → Text
table_of (on_schema t) = t
table_of (on_page t limit offset c v) = t
table_of (on_row t id) = t
table_of (on_insert t uuid values) = t
table_of (on_patch t id values) = t
table_of (on_remove t id) = t
table_of (on_drop t confirm_name) = t

pub require_scopes-Reads :
    {S : Type 0} (auth : Option AuthInfo) (required : List Text)
    → Reads (require_scopes {S = S} auth required)
unfolding require_scopes
require_scopes-Reads none required = record { same = λ w. refl }
require_scopes-Reads (some a) required = record { same = λ w. ground arith }

pub get_allowed_tables-Reads : Reads get_allowed_tables
unfolding get_allowed_tables execute
get_allowed_tables-Reads = record { same = λ w. ground arith }

-- a name that fails the test is not among those that pass
member-keep :
    (p : Text → Bool) (x : Text) (xs : List Text) → p x ≡ false → member x (keep p xs) ≡ false
unfolding member keep
member-keep p x [] h = refl
member-keep p x (y ∷ ys) h = elim (Bool-cases (text_eq x y)) [
  | inl t ↦
      (let same : p y ≡ false = ap p (sym (text_eq_sound x y t)) ∙ h in
        rw same (member-keep p x ys h))
  | inr f ↦ ground (arith, member-keep p x ys h)
]

abbrev Hides : Text → List Text → Type 0
Hides table allowed = member table allowed ≡ false

get_allowed_tables-Hides :
    (table : Text) → is_listed table ≡ false → Returns (Hides table) get_allowed_tables
unfolding get_allowed_tables
get_allowed_tables-Hides table h = record {
  holds = λ w allowed got.
      (let (ran, _) = execute_returned (λ d. (ok (keep is_listed (names d)), d)) w allowed got in
        let same : keep is_listed (names w.tables) ≡ allowed = ground arith in
        rw (← same) (member-keep is_listed table (names w.tables) h));
}

module _ {B : Type 0} where
  -- what the handlers do with the name of the table
  unlisted-Refused :
      (table : Text) (next : List Text → Text → Exec DataDb B)
      → is_listed table ≡ false
      → Refused (do
        allowed ← get_allowed_tables
        valid ← lift (validate_table table allowed)
        next allowed valid)
  unfolding validate_table
  unlisted-Refused table next h =
      Refused-bind (Hides table) get_allowed_tables _ get_allowed_tables-Reads
        (get_allowed_tables-Hides table h)
        (λ allowed hid.
          err-Refused (validate_table table allowed) (http_exception 404) (next allowed)
            (rw hid refl))

  asked-Refused :
      (auth : Option AuthInfo) (required : List Text) (act : Exec DataDb B)
      → Refused act
      → Refused (require_scopes auth required >> act)
  asked-Refused auth required act h =
      Refused-after (require_scopes auth required) (λ _. act) (require_scopes-Reads auth required)
        (λ _. h)

module _ (libs : Libraries) (auth : Option AuthInfo) where
  -- the request's handler, without its answer
  unfoldable pub serve : TableRequest → Exec DataDb (Unit {0})
  unfolding table_schema list_table_rows get_table_row create_table_row update_table_row
      delete_table_row drop_table
  serve (on_schema t) = do table_schema auth t; pure tt
  serve (on_page t limit offset c v) = do list_table_rows libs auth t limit offset c v; pure tt
  serve (on_row t id) = do get_table_row libs auth t id; pure tt
  serve (on_insert t uuid values) = do create_table_row libs uuid auth t values; pure tt
  serve (on_patch t id values) = do update_table_row libs auth t id values; pure tt
  serve (on_remove t id) = delete_table_row libs auth t id
  serve (on_drop t confirm_name) = drop_table libs auth t confirm_name

  -- A request to read, write or drop a table that the list of tables leaves out, which are seven
  -- tables of the platform and those of SQLite, is refused and changes nothing: whoever sends it,
  -- whatever else it asks for, and whichever statements fail.
  pub hidden_tables-Refused :
      (q : TableRequest) → is_listed (table_of q) ≡ false → Refused (serve q)
  unfolding serve table_schema list_table_rows get_table_row create_table_row update_table_row
      delete_table_row drop_table
  hidden_tables-Refused (on_schema t) h =
      Refused-then (table_schema auth t) (λ _. pure tt)
        (asked-Refused auth (read_scope ∷ []) _ (unlisted-Refused t _ h))
  hidden_tables-Refused (on_page t limit offset c v) h =
      Refused-then (list_table_rows libs auth t limit offset c v) (λ _. pure tt)
        (Refused-after (lift (check_limit limit)) _ (lift-Reads _)
          (λ _. asked-Refused auth (read_scope ∷ []) _ (unlisted-Refused t _ h)))
  hidden_tables-Refused (on_row t id) h =
      Refused-then (get_table_row libs auth t id) (λ _. pure tt)
        (asked-Refused auth (read_scope ∷ []) _ (unlisted-Refused t _ h))
  hidden_tables-Refused (on_insert t uuid values) h =
      Refused-then (create_table_row libs uuid auth t values) (λ _. pure tt)
        (asked-Refused auth (write_scope ∷ []) _
          (Refused-after (lift (check_body values)) _ (lift-Reads _) (λ _. unlisted-Refused t _ h)))
  hidden_tables-Refused (on_patch t id values) h =
      Refused-then (update_table_row libs auth t id values) (λ _. pure tt)
        (asked-Refused auth (write_scope ∷ []) _
          (Refused-after (lift (check_body values)) _ (lift-Reads _) (λ _. unlisted-Refused t _ h)))
  hidden_tables-Refused (on_remove t id) h =
      asked-Refused auth (write_scope ∷ []) _ (unlisted-Refused t _ h)
  hidden_tables-Refused (on_drop t confirm_name) h =
      asked-Refused auth (admin_scope ∷ []) _ (unlisted-Refused t _ h)
