-- ===== src/SignIn/Pin.antt =====
-- `pinSignIn` of AuthService, src/auth/auth.service.ts, with BiometricAuthHelper,
-- src/auth/helpers/biometric-auth.helper.ts. Mails are not waited for, and are left out.
pub mod Limit
pub mod Laws
pub mod Session
mod Tests
use nfc_payment_api.Prelude.{
  ℕ, String, Bool, true, false, not, Option, none, some, str_eq, ◌&&◌, same_text, is_some, nonempty,
  ltb, if◌then◌else◌,
}
use nfc_payment_api.Schema.{User, Role, TwoFactorType, email_otp, auth_app}
use nfc_payment_api.External.{Env}
use nfc_payment_api.Exec.{
  Exec, http, text, validation_error, pure, throw, gets, defined, throw_if, try_catch, rethrow_http,
  ◌>>=◌, ◌>>◌,
}
use nfc_payment_api.Response.{Response, safe_user, user_session, refused, succeeded}
use nfc_payment_api.World.{World, two_factor_requested, emit, update_user}
use nfc_payment_api.SignIn.{
  without_secrets, check_roles, login_guard, admit_attempt, new_access_token, new_refresh_token,
  update_refresh_token, sign_in_user,
}

-- AuthDto
pub record Auth : Type 0 where
  pub email : Option String
  pub phone_number : Option String
  pub pin : Option String
  pub device_id : Option String
  pub first_login : Bool

abbrev pub with_biometric_secret : String → User → User
with_biometric_secret s u = record u { login = record u.login { biometric_secret = some s } }

module _ (env : Env) where
  -- By the email, or else by the phone number.
  pub find_account : Auth → Exec (World env) (Option User)
  find_account dto = elim (nonempty dto.email) [
    | some email ↦ gets (λ w. env.find_first (λ u. same_text u.email (some email)) w.users)
    | none ↦ elim dto.phone_number [
      | none ↦ throw validation_error
      | some phone ↦ gets (λ w. env.find_first (λ u. str_eq u.phone_number phone) w.users)
    ]
  ]

  -- A wrong PIN is counted a second time.
  pub check_pin : User → String → Exec (World env) (Unit {0})
  check_pin user pin = do
    hash ← defined user.hash
    if env.verify hash pin then pure tt else (do
      left ← login_guard env user
      throw (
          http 403 (
            text (
              if ltb 0 left
              then "Too many failed login attempts, please try again in 10 minutes."
              else "Incorrect pin"))))

  abbrev check_device : User → String → Exec (World env) (Unit {0})
  check_device user device = do
    secret ← defined user.login.biometric_secret
    throw_if (not (env.verify secret device)) (http 403 (text "Invalid Device ID"))

  abbrev check_secret : User → Auth → Exec (World env) (Unit {0})
  check_secret user dto = elim (nonempty dto.pin) [
    | some pin ↦ check_pin user pin
    | none ↦ elim (nonempty dto.device_id) [
      | some device ↦ check_device user device
      | none ↦ pure tt
    ]
  ]

  -- A first sign-in makes a device identifier.
  abbrev new_device : User → Bool → Exec (World env) (Option String)
  new_device user false = pure none
  new_device user true = do
    update_user env user.id (with_biometric_secret (env.hash env.new_device_id))
    pure (some env.new_device_id)

  pub open_session : User → Bool → Exec (World env) Response
  open_session user first = do
    update_user env user.id (sign_in_user env)
    device ← new_device user first
    update_refresh_token env (new_refresh_token env user.id (some user.phone_number)) (some user.id)
        none
    pure (
        succeeded "You have signed in successfully" (
          user_session (without_secrets user)
            (new_access_token env user.id (some user.phone_number))
            (new_refresh_token env user.id (some user.phone_number)) device))

  -- A user with two-factor authentication has no session yet.
  pub finish : User → Bool → Exec (World env) Response
  finish user first =
      if user.login.two_factor_enabled
      then elim user.login.two_factor_type [
        | none ↦ open_session user first
        | some email_otp ↦ do
          emit env (two_factor_requested user.id)
          pure (succeeded "An OTP has been sent to your email" (safe_user (without_secrets user)))
        | some auth_app ↦ pure (succeeded "Enter your token" (safe_user (without_secrets user)))
      ]
      else open_session user first

  pub sign_in_account : Auth → Role → User → Exec (World env) Response
  sign_in_account dto role user = do
    valid ← check_roles env user role
    throw_if (not valid) (http 403 (text "No such user"))
    admit_attempt env user
    check_secret user dto
    finish user dto.first_login

  abbrev sign_in_found : Auth → Role → Option User → Exec (World env) Response
  sign_in_found dto role none = throw (http 403 (text "No such user"))
  sign_in_found dto role (some user) =
      if user.active
      then sign_in_account dto role user
      else pure (refused "Your account has been deactivated")

  abbrev sign_in_by : Auth → Role → Exec (World env) Response
  sign_in_by dto role = do
    throw_if (not (is_some (nonempty dto.pin)) && not (is_some (nonempty dto.device_id)))
        (http 403 (text "Please enter your email address and pin"))
    user ← find_account dto
    sign_in_found dto role user

  pub pin_sign_in : Auth → Role → Exec (World env) Response
  pin_sign_in dto role = try_catch (sign_in_by dto role) (rethrow_http (text "Failed to sign in"))
