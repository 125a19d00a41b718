-- ===== src/Auth/Sessions.antt =====
-- backend/auth/sessions.py. `sha256` is hashlib's, in hexadecimal.
pub mod Sound
pub mod Lifecycle
use pyronites.Base.{
  ℕ, ◌+◌, ◌*◌, Bool, true, false, not, Option, none, some, List, Text, text_eq, first, keep, ltb,
  if◌then◌else◌,
}
use pyronites.Db.{Exc, Result, ok, err, Exec, pure, raise, execute, catch, ◌>>=◌, ◌>>◌}
use pyronites.Auth.{User, SessionRow, AuthDb, has_token, insert_session}
use pyronites.Auth.Users.{get_user_by_id}

-- what `create_session` returns: the raw token, this once
pub record Session : Type 0 where
  pub id : Text
  pub user_id : Text
  pub token : Text
  pub expires_at : ℕ
  pub created_at : ℕ

unfoldable pub select_session : Text → Exec AuthDb (Option SessionRow)
select_session hash = execute (λ db. (ok (first (has_token hash) db.sessions), db))

unfoldable pub delete_session : Text → Exec AuthDb (Unit {0})
delete_session id =
    execute (λ db. (ok tt, record db { sessions = keep (λ s. not (text_eq s.id id)) db.sessions }))

-- `expires_at < now`: lazy cleanup, whose own failure is logged; else the user
unfoldable pub resolve : ℕ → Option SessionRow → Exec AuthDb (Option User)
unfolding delete_session get_user_by_id
resolve now none = pure none
resolve now (some s) =
    if ltb s.expires_at now
    then (do catch (delete_session s.id) (λ _. pure tt); pure none)
    else get_user_by_id s.user_id

module _ (sha256 : Text → Text) where
  -- create_session; `day` is the ticks of a day, `id` the new uuid, `raw` the new token
  unfoldable pub create_session : ℕ → Text → Text → ℕ → Text → ℕ → Exec AuthDb Session
  unfolding insert_session
  create_session day id raw now user_id expiry_days = do
    execute (
        insert_session (record {
          id = id;
          user_id = user_id;
          token = sha256 raw;
          expires_at = now + expiry_days * day;
          created_at = now;
        }))
    pure (record {
      id = id;
      user_id = user_id;
      token = raw;
      expires_at = now + expiry_days * day;
      created_at = now;
    })

  unfoldable pub validate_session : ℕ → Text → Exec AuthDb (Option User)
  unfolding select_session resolve
  validate_session now token =
      catch (do row ← select_session (sha256 token); resolve now row) (λ _. pure none)

  unfoldable pub revoke_session : Text → Exec AuthDb (Unit {0})
  revoke_session token = execute (λ db.
      (ok tt, record db { sessions = keep (λ s. not (has_token (sha256 token) s)) db.sessions }))

  unfoldable pub revoke_all_sessions_for_user : Text → Exec AuthDb (Unit {0})
  revoke_all_sessions_for_user user_id = execute (λ db.
      (ok tt, record db { sessions = keep (λ s. not (text_eq s.user_id user_id)) db.sessions }))
