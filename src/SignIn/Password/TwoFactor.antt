-- ===== src/SignIn/Password/TwoFactor.antt =====
-- The completion of two-factor authentication, AuthService, src/auth/auth.service.ts.
use nfc_payment_api.Prelude.{ℕ, String, true, Option, none, some, List, if◌then◌else◌}
use nfc_payment_api.Schema.{User, TwoFactorType, email_otp, auth_app}
use nfc_payment_api.External.{Env}
use nfc_payment_api.Exec.{
  Exec, http, text, pure, throw, gets, defined, try_catch, rethrow_http, ◌>>=◌, ◌>>◌,
}
use nfc_payment_api.Response.{Response, user_session, refused, succeeded}
use nfc_payment_api.World.{World, update_user}
use nfc_payment_api.Otp.{OtpAnswer, otp_starts, two_factor_auth, verify_otp}
use nfc_payment_api.SignIn.{
  without_secrets, new_access_token, new_refresh_token, update_refresh_token,
}

abbrev pub with_two_factor : TwoFactorType → User → User
with_two_factor t u = record u {
  login = record u.login { two_factor_enabled = true; two_factor_type = some t };
}

abbrev pub with_email_otp : User → User
with_email_otp u = record (with_two_factor email_otp u) { otp = none }

module _ (env : Env) where
  -- The tokens of a user, of which the row keeps the refresh token's hash, and a change of the row.
  pub open_second_session : (User → User) → User → Exec (World env) Response
  open_second_session f user = do
    update_refresh_token env (new_refresh_token env user.id (some user.phone_number)) (some user.id)
        none
    update_user env user.id f
    pure (
        succeeded "You have signed in successfully" (
          user_session (without_secrets user)
            (new_access_token env user.id (some user.phone_number))
            (new_refresh_token env user.id (some user.phone_number)) none))

  abbrev complete_found : String → Option User → Exec (World env) Response
  complete_found token none = throw (http 403 (text "No such user"))
  complete_found token (some user) = do
    secret ← defined user.login.two_factor_secret
    if env.totp_valid secret token
        then open_second_session (with_two_factor auth_app) user
        else pure (refused "Sorry, invalid token")

  -- By the user's identifier and the token alone.
  pub complete_two_factor_authentication_with_app : ℕ → String → Exec (World env) Response
  complete_two_factor_authentication_with_app id token =
      try_catch (do found ← gets (λ w. env.find id w.users); complete_found token found)
        (rethrow_http (text "Failed to complete two factor authentication"))

  abbrev complete_verified : User → OtpAnswer → Exec (World env) Response
  complete_verified user answer =
      if answer.valid
      then open_second_session with_email_otp user
      else throw (http 403 (text answer.msg))

  abbrev complete_otp_found : List ℕ → Option User → Exec (World env) Response
  complete_otp_found otp none = throw (http 403 (text "Invalid otp"))
  complete_otp_found otp (some user) = do
    answer ← verify_otp env otp two_factor_auth none none
    complete_verified user answer

  pub complete_two_factor_authentication_with_otp : List ℕ → Exec (World env) Response
  complete_two_factor_authentication_with_otp otp =
      try_catch
        (do
          found ← gets (λ w. env.find_first (otp_starts otp) w.users)
          complete_otp_found otp found)
        (rethrow_http (text "Failed to complete two factor authentication"))
