-- ===== src/SignIn/Password.antt =====
-- Sign-in by password and two-factor authentication, AuthService, src/auth/auth.service.ts. Mails that
-- are waited for are sent by the mail transport; the others are left out.
pub mod TwoFactor
use nfc_payment_api.Prelude.{
  ℕ, String, Bool, true, false, not, ◌||◌, [], ◌∷◌, Option, none, some, same_text, is_some,
  nonempty, if◌then◌else◌,
}
use nfc_payment_api.Schema.{
  User, Role, TwoFactorType, email_otp, auth_app, super_admin, admin, support, business,
}
use nfc_payment_api.External.{Env}
use nfc_payment_api.Exec.{
  Exec, Error, http, text, pure, throw, gets, defined, throw_if, try_catch, rethrow_http, ◌>>=◌,
  ◌>>◌,
}
use nfc_payment_api.Response.{
  Response, null, safe_user, user_session, user_id, two_factor_setup, refused, succeeded,
}
use nfc_payment_api.World.{World, two_factor_requested, emit, update_user}
use nfc_payment_api.SignIn.{
  includes, without_secrets, admit_attempt, new_access_token, new_refresh_token,
  update_refresh_token, sign_in_user,
}

-- PasswordAuthDto
pub record PasswordAuth : Type 0 where
  pub email : String
  pub password : String

abbrev pub without_two_factor : User → User
without_two_factor u = record u {
  login = record u.login {
    two_factor_enabled = false;
    two_factor_secret = none;
    two_factor_type = none;
  };
}

abbrev pub with_totp_secret : String → User → User
with_totp_secret s u = record u { login = record u.login { two_factor_secret = some s } }

module _ (env : Env) where
  abbrev account_of : String → Exec (World env) User
  account_of email = do
    found ← gets (λ w. env.find_first (λ u. same_text u.email (some email)) w.users)
    defined found

  -- What follows the type that the request names.
  abbrev start_two_factor : User → Option TwoFactorType → Exec (World env) (Option Response)
  start_two_factor user none = pure (some (refused "Authentication type not specified"))
  start_two_factor user (some auth_app) = do
    update_user env user.id (with_totp_secret env.new_totp_secret)
    pure (
        some (
          succeeded "Please scan the QR code or Use the url"
            (two_factor_setup env.new_totp_secret user.id)))
  start_two_factor user (some email_otp) = do
    emit env (two_factor_requested user.id)
    pure (some (succeeded "An OTP has been sent to your email" null))

  -- For a user who has it already, it is switched off.
  pub enable_two_factor_auth : Option TwoFactorType → User → Exec (World env) (Option Response)
  enable_two_factor_auth type user =
      try_catch
        (if user.login.two_factor_enabled
          then (do
            update_user env user.id without_two_factor
            pure (
                some
                  (succeeded "You have successfully deactivated two-factor authentication" null)))
          else start_two_factor user type)
        (rethrow_http (text "Failed to enable two factor authentication"))

  abbrev send_instructions : User → Exec (World env) (Unit {0})
  send_instructions user =
      throw_if (not (env.mail_taken user.email)) (http 503 (text "Error sending mail"))

  -- The set-up that a user without two-factor authentication is sent.
  pub set_up_two_factor : User → String → Exec (World env) Response
  set_up_two_factor user failure = do
    answer ← enable_two_factor_auth (some auth_app) user
    r ← defined answer
    if r.success
        then (do
          send_instructions user
          pure (
              succeeded
                "Please check your email address for Instructions on how to complete your login"
                (user_id user.id)))
        else pure (refused failure)

  abbrev present : Option String → Exec (World env) String
  present none = throw (http 400 (text "Incorrect password"))
  present (some hash) = pure hash

  -- The password, after the limit of attempts.
  pub check_password_hash : Error → User → String → Exec (World env) (Unit {0})
  check_password_hash wrong user password = do
    hash ← present (nonempty user.login.password_hash)
    admit_attempt env user
    throw_if (not (env.verify hash password)) wrong

  -- The test of the roles is `!(user || …)`, and the user is there.
  pub admit_admin : User → Exec (World env) (Unit {0})
  admit_admin user =
      throw_if
        (not (
          is_some (some user)
          || (includes admin user.login.roles
              || (not (includes super_admin user.login.roles)
                  || includes support user.login.roles))))
        (http 403 (text "No such user"))

  abbrev admin_steps : PasswordAuth → Exec (World env) Response
  admin_steps dto = do
    user ← account_of dto.email
    admit_admin user
    check_password_hash (http 403 (text "Incorrect password")) user dto.password
    if user.login.two_factor_enabled
        then pure (succeeded "Enter your token from you 2fa app" (safe_user (without_secrets user)))
        else set_up_two_factor user "An error occured. Please contact tech support"

  pub admin_sign_in : PasswordAuth → Exec (World env) Response
  admin_sign_in dto = try_catch (admin_steps dto) (rethrow_http (text "Failed to sign in"))

  pub open_password_session : User → Exec (World env) Response
  open_password_session user = do
    update_user env user.id (sign_in_user env)
    update_refresh_token env (new_refresh_token env user.id (some user.phone_number)) (some user.id)
        none
    pure (
        succeeded "You have signed in successfully" (
          user_session (without_secrets user)
            (new_access_token env user.id (some user.phone_number))
            (new_refresh_token env user.id (some user.phone_number)) none))

  pub finish_password_sign_in : Role → User → Exec (World env) Response
  finish_password_sign_in role user =
      if user.login.two_factor_enabled
      then pure (succeeded "Enter your token from you 2fa app" (safe_user (without_secrets user)))
      else if includes role (business ∷ [])
      then set_up_two_factor user "An error occurred. Please contact tech support"
      else open_password_session user

  abbrev password_steps : PasswordAuth → Role → Exec (World env) Response
  password_steps dto role = do
    user ← account_of dto.email
    if includes role user.login.roles
        then (do
          check_password_hash (http 400 (text "Incorrect password")) user dto.password
          finish_password_sign_in role user)
        else pure (refused "No such user")

  pub password_sign_in : PasswordAuth → Role → Exec (World env) Response
  password_sign_in dto role =
      try_catch (password_steps dto role) (rethrow_http (text "Failed to sign in"))
