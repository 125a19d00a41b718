-- ===== src/Api/Accounts/Recovery.antt =====
-- backend/api/auth.py: forgot_password and reset_password.
use pyronites.Base.{ℕ, ◌&&◌, Option, none, some, Text, codes, leb, length, if◌then◌else◌}
use pyronites.Db.{
  Exc, Result, ok, err, http_exception, is_database_error, Exec, pure, raise, lift, catch, ◌>>=◌,
  ◌>>◌,
}
use pyronites.Auth.{User}
use pyronites.Auth.Users.{get_user_by_email, set_user_password}
use pyronites.Auth.Sessions.{revoke_all_sessions_for_user}
use pyronites.Auth.ResetTokens.{create_reset_token, consume_reset_token}
use pyronites.Api.Accounts.{
  Platform, Setting, in_users, limited, body_email, ip_key, email_key, forgot_rate_window,
}

-- the limits of _ResetBody; FastAPI answers 422 beyond them
unfoldable pub reset_body : Text → Text → Result (Unit {0})
reset_body token password =
    if leb 10 (length token)
      && leb (length token) 256
      && leb 8 (length password)
      && leb (length password) 256
    then ok tt
    else err (http_exception 422)

abbrev pub or_invalid : Option Text → Exec Platform Text
or_invalid none = raise (http_exception 400)
or_invalid (some user_id) = pure user_id

-- `except DatabaseError`
abbrev pub on_consume_error : Exc → Exec Platform (Option Text)
on_consume_error e = if is_database_error e then raise (http_exception 500) else raise e

-- `except HTTPException: raise`, `except Exception`
abbrev pub on_update_error : Exc → Exec Platform (Unit {0})
on_update_error (http_exception code) = raise (http_exception code)
on_update_error e = raise (http_exception 500)

abbrev pub check_length : Text → Exec Platform (Unit {0})
check_length password = if leb 8 (length password) then pure tt else raise (http_exception 400)

module _ (px : Setting) (now : ℕ) where
  -- `send` is send_password_reset_email
  module _ (send : Text → Text → Result (Unit {0})) where
    unfoldable pub send_if_active : Text → Text → Option User → Exec Platform (Unit {0})
    unfolding create_reset_token
    send_if_active id raw none = pure tt
    send_if_active id raw (some u) =
        if u.is_active
        then (do
          token ← in_users (create_reset_token px.sha256 id raw now u.id px.reset_ttl)
          lift (send u.email token))
        else pure tt

    unfoldable pub mail_token : Text → Text → Text → Exec Platform (Unit {0})
    unfolding get_user_by_email send_if_active
    mail_token id raw address =
        catch (do found ← in_users (get_user_by_email address); send_if_active id raw found)
          (λ _. pure tt)

    -- forgot_password; `id` and `raw` are the new token's
    unfoldable pub forgot_password : Text → Text → Text → Text → Exec Platform (Unit {0})
    unfolding limited body_email mail_token
    forgot_password id raw ip email = do
      address ← lift (body_email px email)
      limited px now (ip_key ip) (codes "auth:forgot") px.forgot_rate_limit forgot_rate_window
      limited px now (email_key address) (codes "auth:forgot") px.forgot_rate_limit
          forgot_rate_window
      mail_token id raw address

  unfoldable pub change_password : Text → Text → Exec Platform (Unit {0})
  unfolding set_user_password revoke_all_sessions_for_user
  change_password user_id password =
      catch
        (do
          updated ← in_users (set_user_password px.ph user_id password)
          if updated
              then in_users (revoke_all_sessions_for_user px.sha256 user_id)
              else raise (http_exception 400))
        on_update_error

  -- reset_password
  unfoldable pub reset_password : Text → Text → Exec Platform (Unit {0})
  unfolding reset_body consume_reset_token change_password
  reset_password token password = do
    lift (reset_body token password)
    check_length password
    owner ← catch (in_users (consume_reset_token px.sha256 now token)) on_consume_error
    user_id ← or_invalid owner
    change_password user_id password
