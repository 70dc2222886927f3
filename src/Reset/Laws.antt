-- ===== src/Reset/Laws.antt =====
-- What a reset of a PIN leaves: `resetPin` of src/auth/auth.service.ts.
use nfc_payment_api.Prelude.{
  ℕ, ◌≤◌, String, ◌≡◌, refl, ◌∙◌, true, false, none, some, List, nonempty, str_eq, ◌==◌, arith,
  Bool-cases, inl, inr,
}
use nfc_payment_api.Schema.{User, Role}
use nfc_payment_api.External.{Env, IsLawful}
use nfc_payment_api.External.Rows.{IsSoleRow, IsSoleRow-write}
use nfc_payment_api.Exec.{ok, ◌>>=◌}
use nfc_payment_api.Response.{null, refused, succeeded, user_session}
use nfc_payment_api.World.{World}
use nfc_payment_api.World.References.{str_eq_refl}
use nfc_payment_api.Otp.{otp_starts, with_otp, password_reset}
use nfc_payment_api.Otp.Text.{IsClock}
use nfc_payment_api.Otp.RoundTrip.{IsPending, cleared, verifies, none_starts, unknown_code}
use nfc_payment_api.SignIn.{without_secrets, new_access_token, new_refresh_token}
use nfc_payment_api.SignIn.Pin.{Auth, pin_sign_in}
use nfc_payment_api.SignIn.Pin.Limit.{has_email, is_locked, IsAccount}
use nfc_payment_api.SignIn.Pin.Session.{right_pin_signs_in}
use nfc_payment_api.Reset.{with_hash, reset_pin}

-- The row of a user who reset the PIN.
abbrev pub renewed : Env → String → User → User
renewed env pin u = with_hash (env.hash pin) (with_otp none u)

module _ (env : Env) (law : IsLawful env) (clock : IsClock env) (code : List ℕ) (w : World env)
    (u : User) (otp : List ℕ) (p : IsPending env password_reset code w u otp)
    (long : 1 ≤ env.otp_minutes) (pin : String) where
  abbrev before : World env
  before = cleared env law clock password_reset code w u otp p

  abbrev pub pin_reset : World env
  pin_reset = record w { users = env.write u.id (renewed env pin u) before.users }

  pub reset_pin-pending : reset_pin env code pin w ≡ (ok (succeeded "Pin reset" null), pin_reset)
  unfolding reset_pin ◌>>=◌
  reset_pin-pending =
      let checked = verifies env law clock password_reset code w u otp p long in
      ground (arith, law.find-write u.id (with_otp none u) w.users u.id)

  spent : (j : ℕ) (r : User) → env.find j pin_reset.users ≡ some r → otp_starts code r ≡ false
  spent j r listed = elim (Bool-cases (u.id == j)) [
    | inl same ↦
        let now : r ≡ (renewed env pin u) =
          ground (arith, law.find-write u.id (renewed env pin u) before.users j) in
        rw now refl
    | inr apart ↦
        none_starts env law clock password_reset code w u otp p j r
          (ground (arith, law.find-write u.id (renewed env pin u) before.users j))
  ]

  second_reset :
      (pin' : String)
      → reset_pin env code pin' pin_reset ≡ (ok (refused "This OTP is invalid."), pin_reset)
  unfolding reset_pin ◌>>=◌
  second_reset pin' =
      let checked = unknown_code env law password_reset code none pin_reset spent in ground (arith)

  -- A reset of the PIN with the code of a pending password of that use stores the hash of the new PIN,
  -- which verifies the new PIN alone; a second reset with the code is refused and changes nothing. A
  -- password lasts a minute at least.
  pub reset_pin_replaces :
      (pin' other : String)
      → ((reset_pin env code pin w).0 ≡ ok (succeeded "Pin reset" null))
        × ((env.find u.id (reset_pin env code pin w).1.users ≡ some (renewed env pin u))
            × ((env.verify (env.hash pin) other ≡ str_eq pin other)
                × (reset_pin env code pin' (reset_pin env code pin w).1
                    ≡ (ok (refused "This OTP is invalid."), (reset_pin env code pin w).1))))
  reset_pin_replaces pin' other = rw reset_pin-pending (
    refl,
    (
      ground (arith, law.find-write u.id (renewed env pin u) before.users u.id),
      (law.verify-hash pin other, second_reset pin'),
    ),
  )

  -- A user who resets the PIN with the code of a pending password signs in by email with the new PIN:
  -- one who is alone with the email, had a PIN, is active, a member of the role, not locked and without
  -- two-factor authentication, and for whom it is no first sign-in. A password lasts a minute at least.
  pub reset_pin_signs_in :
      (email hash : String) (role : Role) (dto : Auth)
      → nonempty dto.email ≡ some email
      → dto.pin ≡ some pin
      → nonempty (some pin) ≡ some pin
      → dto.first_login ≡ false
      → IsAccount env email hash role w u
      → is_locked env u ≡ false
      → u.login.two_factor_enabled ≡ false
      → (pin_sign_in env dto role (reset_pin env code pin w).1).0
        ≡ ok (
            succeeded "You have signed in successfully" (
              user_session
                (without_secrets (renewed env pin u))
                (new_access_token env u.id (some u.phone_number))
                (new_refresh_token env u.id (some u.phone_number))
                none))
  reset_pin_signs_in email hash role dto named given plain again a open_ simple =
      let once : IsSoleRow env (has_email email) before.users u.id (with_otp none u) =
        IsSoleRow-write env law (has_email email) w.users u.id u (with_otp none u) a.row
          a.row.meets in
      let account : IsAccount env email (env.hash pin) role pin_reset (renewed env pin u) = record {
        row =
            IsSoleRow-write env law (has_email email) before.users u.id (with_otp none u)
              (renewed env pin u) once once.meets;
        active = a.active;
        hashed = refl;
        member = a.member;
      } in
      let right : env.verify (env.hash pin) pin ≡ true =
        law.verify-hash pin pin ∙ str_eq_refl pin in
      rw reset_pin-pending (
        (right_pin_signs_in env law email (env.hash pin) role dto named pin_reset
          (renewed env pin u) account pin (rw given plain) right open_ simple again).0)
