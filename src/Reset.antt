-- ===== src/Reset.antt =====
-- One-time passwords at work: new ones, the verification of numbers and addresses, and the reset of
-- PINs and passwords, AuthService, src/auth/auth.service.ts. Mails that are not waited for are left out.
pub mod Laws
pub mod Unique
mod Tests
use nfc_payment_api.Prelude.{
  ℕ, String, ◌≡◌, refl, Bool, true, false, not, Option, none, some, List, nonempty, str_eq,
  same_text, if◌then◌else◌, is_some,
}
use nfc_payment_api.Schema.{User}
use nfc_payment_api.External.{Env, NumberAnswer}
use nfc_payment_api.Exec.{
  Exec, Error, http, text, validation_error, unique_violation, foreign_key_violation,
  record_not_found, type_error, pure, throw, gets, defined, throw_if, try_catch, ◌>>=◌, ◌>>◌,
}
use nfc_payment_api.Response.{Response, null, empty_object, refused, succeeded}
use nfc_payment_api.World.{World, two_factor_requested, emit, update_user}
use nfc_payment_api.Otp.{
  OtpAnswer, OtpUse, initial_phone_verification, email_verification, password_reset, generate_otp,
  verify_otp,
}

-- ResendOtpDto, InitPasswordResetDto
pub record Contact : Type 0 where
  pub email : Option String
  pub phone_number : Option String

abbrev pub with_hash : String → User → User
with_hash h u = record u { hash = some h }

abbrev pub with_password_hash : String → User → User
with_password_hash h u = record u { login = record u.login { password_hash = some h } }

abbrev pub with_verified_number : User → User
with_verified_number u = record u { phone_number_verified = true }

abbrev pub with_verified_email : User → User
with_verified_email u = record u { email_verified = true }

-- `if ((error.status = 403)) throw error;`
abbrev pub assign_403 : Error → Error
assign_403 (http status m) = http 403 m
assign_403 e = e

-- An HTTP exception is rethrown, and another error forbidden.
abbrev pub rethrow_or_forbid : {S A : Type 0} → Error → Exec S A
rethrow_or_forbid (http status m) = throw (http status m)
rethrow_or_forbid e =
    throw (http 403 (text "There was an error resending an otp. Please try again."))

module _ (env : Env) where
  -- `searchPhoneNumber` catches what its request throws, and the read of a missing number.
  abbrev search_phone_number : Option String → Option NumberAnswer
  search_phone_number none = none
  search_phone_number (some number) = env.search_number number

  -- Whether `phoneNumberDetails.data.status` can be read, where there are details.
  abbrev has_status : Option NumberAnswer → Bool
  has_status none = true
  has_status (some answer) = is_some answer.data_status

  abbrev pub sms_taken : Option String → Bool
  sms_taken number = has_status (search_phone_number number)

  -- `sendSMSPlusDND`: nothing is sent if the search fails, and otherwise the gateways answer whether they
  -- took the message, which no caller reads. Only an answer on the number without data makes it throw.
  abbrev pub send_sms : Option String → Exec (World env) (Unit {0})
  send_sms number = throw_if (not (sms_taken number)) type_error

  abbrev pub send_email : Option String → Exec (World env) (Unit {0})
  send_email address =
      throw_if (not (env.mail_taken address)) (http 503 (text "Error sending mail"))

  abbrev pub by_email : String → Exec (World env) (Option User)
  by_email email = gets (λ w. env.find_first (λ u. same_text u.email (some email)) w.users)

  abbrev pub by_phone : String → Exec (World env) (Option User)
  by_phone phone = gets (λ w. env.find_first (λ u. str_eq u.phone_number phone) w.users)

  abbrev found_or : String → Option User → Exec (World env) User
  found_or m none = throw (http 403 (text m))
  found_or m (some user) = pure user

  abbrev resend_by_phone : String → Exec (World env) (Option Response)
  resend_by_phone phone = do
    found ← by_phone phone
    user ← found_or "Invalid phone number" found
    code ← generate_otp env user.id initial_phone_verification user.email
    send_sms (some user.phone_number)
    send_email user.email
    pure (some (succeeded "An OTP has been sent to your phone number" null))

  abbrev resend_by_email : String → Exec (World env) (Option Response)
  resend_by_email email = do
    found ← by_email email
    user ← found_or "Invalid email address" found
    code ← generate_otp env user.id email_verification user.email
    send_email user.email
    pure (some (succeeded "An OTP has been sent to your email" null))

  -- Nothing is returned if neither is given.
  pub resend_otp : Contact → Exec (World env) (Option Response)
  resend_otp dto =
      try_catch
        (elim (nonempty dto.phone_number) [
          | some phone ↦ resend_by_phone phone
          | none ↦ elim (nonempty dto.email) [
            | some email ↦ resend_by_email email
            | none ↦ pure none
          ]
        ])
        rethrow_or_forbid

  pub resend_token : User → Exec (World env) Response
  resend_token user = do
    emit env (two_factor_requested user.id)
    pure (succeeded "An OTP has been sent to your email" null)

  -- Even a wrong one-time password is answered with 503.
  pub verify_phone_number : List ℕ → Exec (World env) Response
  verify_phone_number otp =
      try_catch
        (do
          verified ← verify_otp env otp initial_phone_verification none none
          throw_if (not verified.valid) (http 400 (text verified.msg))
          user ← defined verified.user
          update_user env user.id with_verified_number
          pure (succeeded "Phone number Verified" empty_object))
        (λ e. throw (http 503 (text "Failed to verify phone number")))

  -- A change that a one-time password permits.
  abbrev pub change_verified : OtpAnswer → (User → User) → Response → Exec (World env) Response
  change_verified verified f done =
      if verified.valid
      then (do user ← defined verified.user; update_user env user.id f; pure done)
      else pure (refused verified.msg)

  pub verify_email : List ℕ → Exec (World env) Response
  verify_email otp =
      try_catch
        (do
          verified ← verify_otp env otp email_verification none none
          change_verified verified with_verified_email (succeeded "Email Verified" empty_object))
        (λ e. throw (http 503 (text "Failed to verify email")))

  -- By the email, or else by the phone number.
  abbrev find_contact : Contact → Exec (World env) (Option User)
  find_contact dto = elim (nonempty dto.email) [
    | some email ↦ by_email email
    | none ↦ elim dto.phone_number [ none ↦ throw validation_error | some phone ↦ by_phone phone ]
  ]

  abbrev send_code : Contact → User → String → String → Exec (World env) Response
  send_code dto user by_mail by_sms = do
    code ← generate_otp env user.id password_reset user.email
    if is_some (nonempty dto.email)
        then pure (succeeded by_mail null)
        else (do send_sms dto.phone_number; pure (succeeded by_sms null))

  abbrev init_pin_found : Contact → Option User → Exec (World env) Response
  init_pin_found dto none = pure (refused "Invalid phone number or email address")
  init_pin_found dto (some user) = send_code dto user "Pin reset email sent" "Pin reset sms sent"

  pub init_pin_reset : Contact → Exec (World env) Response
  init_pin_reset dto =
      try_catch (do found ← find_contact dto; init_pin_found dto found) (λ e. throw (assign_403 e))

  pub reset_pin : List ℕ → String → Exec (World env) Response
  reset_pin otp pin =
      try_catch
        (do
          verified ← verify_otp env otp password_reset none none
          change_verified verified (with_hash (env.hash pin)) (succeeded "Pin reset" null))
        (λ e. pure (refused "Failed to reset pin"))

  pub init_password_reset : Contact → Exec (World env) Response
  init_password_reset dto =
      try_catch
        (do
          found ← find_contact dto
          user ← found_or "Invalid phone number or email address" found
          send_code dto user "Password reset email sent" "Password reset sms sent")
        (λ e. throw (assign_403 e))

  -- Even a wrong one-time password is answered with 503.
  pub reset_password : List ℕ → String → Exec (World env) Response
  reset_password otp password =
      try_catch
        (do
          verified ← verify_otp env otp password_reset none none
          throw_if (not verified.valid) (http 400 (text verified.msg))
          user ← defined verified.user
          update_user env user.id (with_password_hash (env.hash password))
          pure (succeeded "Password reset successfully" null))
        (λ e. throw (http 503 (text "Failed to reset password")))
