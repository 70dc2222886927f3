-- ===== src/Profile.antt =====
-- The changes of a user's own data, UserService, src/user/user.service.ts.
pub mod Update
pub mod Deletion
pub mod Laws
pub mod Unique
use nfc_payment_api.Prelude.{
  ℕ, String, Bool, true, false, not, ◌&&◌, Option, none, some, List, nonempty, str_eq, ◌==◌,
  is_some, same_text, if◌then◌else◌,
}
use nfc_payment_api.Schema.{User}
use nfc_payment_api.External.{Env}
use nfc_payment_api.Exec.{
  Exec, Error, err, http, text, unique_violation, pure, throw, gets, defined, throw_if, try_catch,
  ◌>>=◌, ◌>>◌,
}
use nfc_payment_api.Regex.{codes}
use nfc_payment_api.Response.{Response, null, safe_user, refused, succeeded}
use nfc_payment_api.World.{World, update_user}
use nfc_payment_api.Otp.{email_verification, edit_phone_verification, generate_otp, verify_otp}
use nfc_payment_api.SignIn.{without_secrets}
use nfc_payment_api.Reset.{with_hash, with_password_hash, with_verified_email, send_sms, send_email}

abbrev pub with_email : String → User → User
with_email e u = record u { email = some e }

-- `===` of two values that may be undefined
abbrev pub is_text : Option String → Option String → Bool
is_text (some a) (some b) = str_eq a b
is_text _ _ = false

abbrev pub codes_of : Option String → Option (List ℕ)
codes_of none = none
codes_of (some s) = some (codes s)

-- The errors of 400 and 403 are rethrown.
abbrev pub rethrow_refusal : String → {S A : Type 0} → Error → Exec S A
rethrow_refusal m (http status n) =
    if status == 400
    then throw (http 400 n)
    else if status == 403
    then throw (http 403 n)
    else throw (http 503 (text m))
rethrow_refusal m _ = throw (http 503 (text m))

-- Only an error of 403 is.
abbrev rethrow_403 : String → {S A : Type 0} → Error → Exec S A
rethrow_403 m (http status n) =
    if status == 403 then throw (http 403 n) else throw (http 503 (text m))
rethrow_403 m _ = throw (http 503 (text m))

module _ (env : Env) where
  -- The column is unique; undefined leaves it as it is.
  pub set_email : ℕ → Option String → Exec (World env) (Unit {0})
  set_email k none w = update_user env k (λ u. u) w
  set_email k (some e) w =
      if is_some (env.find_first (λ u. same_text u.email (some e) && not (u.id == k)) w.users)
      then (err unique_violation, w)
      else update_user env k (with_email e) w

  abbrev updated : String → ℕ → Exec (World env) Response
  updated m k = do
    found ← gets (λ w. env.find k w.users)
    user ← defined found
    pure (succeeded m (safe_user (without_secrets user)))

  pub verify_own_email : List ℕ → Exec (World env) Response
  verify_own_email otp =
      try_catch
        (do
          verified ← verify_otp env otp email_verification none none
          throw_if (not verified.valid) (http 400 (text verified.msg))
          user ← defined verified.user
          update_user env user.id with_verified_email
          updated "Email Verified" user.id)
        (λ e. throw (http 503 (text "Failed to verify email")))

  abbrev send_by_mail : User → Exec (World env) Response
  send_by_mail user = do
    code ← generate_otp env user.id email_verification user.email
    send_email env user.email
    pure (succeeded "OTP has been sent successfully" null)

  abbrev send_by_sms : User → String → Exec (World env) Response
  send_by_sms user number = do
    code ← generate_otp env user.id edit_phone_verification (some user.phone_number)
    send_sms env (some number)
    pure (succeeded "OTP has been sent successfully" null)

  -- To the user's own email, or to the number of the request.
  pub send_otp : User → (email phone_number : Option String) → Exec (World env) Response
  send_otp user email phone_number =
      try_catch
        (elim (nonempty email) [
          | some e ↦ elim (nonempty phone_number) [
            | some p ↦ throw (http 403 (text "Please provide only one of email or phoneNumber"))
            | none ↦ send_by_mail user
          ]
          | none ↦ elim (nonempty phone_number) [
            | some p ↦ send_by_sms user p
            | none ↦ throw (http 403 (text "Please provide at least one of email or phoneNumber"))
          ]
        ])
        (rethrow_403 "An while trying to send OTP")

  -- The one-time password must name the new email.
  pub edit_email : User → Option String → List ℕ → Exec (World env) Response
  edit_email user email otp =
      try_catch
        (do
          throw_if (is_text email user.email)
              (http 403 (text "You cannot update to the same email address"))
          verified ← verify_otp env otp email_verification (codes_of email) none
          throw_if (not verified.valid) (http 400 (text verified.msg))
          set_email user.id email
          updated "Email updated successfully" user.id)
        (rethrow_refusal "An error occured when updating email")

  -- The number is compared with the email and written to the email.
  pub edit_phone_number : User → String → List ℕ → Exec (World env) Response
  edit_phone_number user number otp =
      try_catch
        (do
          throw_if (is_text (some number) user.email)
              (http 403 (text "You cannot update to the same phone number"))
          verified ← verify_otp env otp edit_phone_verification (some (codes number)) none
          throw_if (not verified.valid) (http 400 (text verified.msg))
          set_email user.id (some number)
          updated "Phone number updated successfully" user.id)
        (rethrow_refusal "An error occured when updating phone number")

  abbrev change_secret :
      Option String → String → String → (User → User) → ℕ → String → Exec (World env) Response
  change_secret none old wrong f k done = pure (refused wrong)
  change_secret (some hash) old wrong f k done =
      if env.verify hash old
      then (do update_user env k f; pure (succeeded done null))
      else pure (refused wrong)

  pub change_pin : String → String → ℕ → Exec (World env) Response
  change_pin old new k =
      try_catch
        (do
          found ← gets (λ w. env.find k w.users)
          user ← defined found
          change_secret (nonempty user.hash) old "incorrect pin" (with_hash (env.hash new)) user.id
              "Pin changed successfully")
        (λ e. pure (refused "Failed to change pin"))

  pub change_password : String → String → ℕ → Exec (World env) Response
  change_password old new k =
      try_catch
        (do
          found ← gets (λ w. env.find k w.users)
          user ← defined found
          change_secret (nonempty user.login.password_hash) old "incorrect password"
              (with_password_hash (env.hash new)) user.id "Password changed successfully")
        (λ e. pure (refused "Failed to change password"))
