-- ===== src/Profile/Update.antt =====
-- A user's change of the email and the username, `updateUser` of src/user/user.service.ts. The mail is
-- not waited for and left out.
pub mod Unique
use Prim.Native.String.{◌++◌ as append}
use nfc_payment_api.Prelude.{
  ℕ, String, Bool, true, false, not, ◌&&◌, ◌||◌, Option, none, some, nonempty, same_text, is_some,
  ◌==◌, if◌then◌else◌,
}
use nfc_payment_api.Schema.{User}
use nfc_payment_api.External.{Env}
use nfc_payment_api.Exec.{
  Exec, Error, Result, ok, err, http, text, column_taken, record_not_found, pure, throw, try_catch,
  ◌>>=◌, ◌>>◌,
}
use nfc_payment_api.Response.{Response, updated_user, succeeded}
use nfc_payment_api.World.{World}
use nfc_payment_api.Otp.{email_verification, generate_otp}
use nfc_payment_api.SignIn.{without_secrets}

-- UpdateUserDto
pub record UpdateUser : Type 0 where
  pub email : Option String
  pub username : Option String

abbrev or_kept : Option String → Option String → Option String
or_kept none s = s
or_kept (some t) s = some t

abbrev pub with_username : Option String → User → User
with_username name u = record u { username = or_kept name u.username }

abbrev pub with_unverified : UpdateUser → User → User
with_unverified dto u = record u {
  username = or_kept dto.username u.username;
  email = or_kept dto.email u.email;
  email_verified = false;
}

abbrev forbid_taken : {S A : Type 0} → Error → Exec S A
forbid_taken (column_taken column) =
    throw (http 403 (text (append "This " (append column " is already taken"))))
forbid_taken e = throw (http 503 (text "An error occured when updating user"))

module _ (env : Env) where
  abbrev pub other_has : (User → Option String) → ℕ → Option String → World env → Bool
  other_has key k none w = false
  other_has key k (some s) w =
      is_some (env.find_first (λ u. same_text (key u) (some s) && not (u.id == k)) w.users)

  abbrev lower : Option String → Option String
  lower none = none
  lower (some s) = some (env.lower_case s)

  -- The columns in the order of the migrations.
  abbrev pub clash : (username email : Option String) → ℕ → World env → Option String
  clash username email k w =
      if other_has (λ u. u.username) k username w
      then some "Username"
      else if other_has (λ u. u.email) k email w
      then some "Email"
      else none

  abbrev write_found : ℕ → (User → User) → Option User → Exec (World env) User
  write_found k f none w = (err record_not_found, w)
  write_found k f (some u) w = (ok (f u), record w { users = env.write k (f u) w.users })

  abbrev write_unless : Option String → ℕ → (User → User) → Exec (World env) User
  write_unless (some column) k f w = (err (column_taken column), w)
  write_unless none k f w = write_found k f (env.find k w.users) w

  -- `user.update` of unique columns
  pub change_user : UpdateUser → ℕ → (User → User) → Exec (World env) User
  change_user dto k f w = write_unless (clash dto.username dto.email k w) k f w

  -- `updateUserDto.email && updateUserDto.email !== user.email`
  abbrev pub is_new_email : Option String → User → Bool
  is_new_email email user = is_some (nonempty email) && not (same_text email user.email)

  -- A user who has not verified the email, or gives another, is unverified afterwards; one who has
  -- changes the username alone.
  pub update_user_data : User → UpdateUser → Exec (World env) Response
  update_user_data user dto =
      try_catch
        (if is_new_email dto.email user || not user.email_verified
          then (do
            updated ← change_user dto user.id (with_unverified dto)
            code ← generate_otp env user.id email_verification user.email
            pure (
                succeeded "User updated successfully"
                  (updated_user (without_secrets updated) true)))
          else (do
            updated ←
                change_user (record { email = none; username = lower dto.username }) user.id
                  (with_username (lower dto.username))
            pure (
                succeeded "User updated successfully"
                  (updated_user (without_secrets updated) false))))
        forbid_taken
