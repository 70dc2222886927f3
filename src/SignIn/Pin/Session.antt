-- ===== src/SignIn/Pin/Session.antt =====
-- A sign-in with the right PIN, `pinSignIn` of src/auth/auth.service.ts.
use nfc_payment_api.Prelude.{String, ◌≡◌, refl, true, false, none, some, nonempty, arith}
use nfc_payment_api.Schema.{User, Role}
use nfc_payment_api.External.{Env, IsLawful}
use nfc_payment_api.External.Rows.{IsSoleRow}
use nfc_payment_api.Exec.{ok, ◌>>=◌}
use nfc_payment_api.Response.{user_session, succeeded}
use nfc_payment_api.World.{World, update_user}
use nfc_payment_api.SignIn.{
  without_secrets, with_refresh_token, new_access_token, new_refresh_token, update_refresh_token,
  sign_in_user, admit_attempt,
}
use nfc_payment_api.SignIn.Pin.{Auth, check_pin, finish, open_session, sign_in_account, pin_sign_in}
use nfc_payment_api.SignIn.Pin.Limit.{
  has_email, is_locked, admitted, IsAccount, update_user-IsSoleRow, admit_attempt-IsSoleRow,
}
use nfc_payment_api.SignIn.Pin.Laws.{signing_in, role_admitted}

module _ (env : Env) where
  -- The row of a user who has just signed in.
  abbrev pub signed_in : User → User
  signed_in u =
      with_refresh_token (env.hash (new_refresh_token env u.id (some u.phone_number)))
        (sign_in_user env (admitted env u))

  module _ (law : IsLawful env) (email : String) (u r : User) (w : World env)
      (s : IsSoleRow env (has_email email) w.users u.id r) where
    session_opened :
        ((open_session env u false w).0
          ≡ ok (
              succeeded "You have signed in successfully" (
                user_session
                  (without_secrets u)
                  (new_access_token env u.id (some u.phone_number))
                  (new_refresh_token env u.id (some u.phone_number))
                  none)))
        × (env.find u.id (open_session env u false w).1.users
            ≡ some (
                with_refresh_token
                  (env.hash (new_refresh_token env u.id (some u.phone_number)))
                  (sign_in_user env r)))
    unfolding open_session update_refresh_token ◌>>=◌
    session_opened =
        let (once, row) =
          update_user-IsSoleRow env law (has_email email) u.id (sign_in_user env) r w s s.meets in
        let (twice, row') =
          update_user-IsSoleRow env law (has_email email) u.id
            (with_refresh_token (env.hash (new_refresh_token env u.id (some u.phone_number))))
            (sign_in_user env r) (update_user env u.id (sign_in_user env) w).1 row row.meets in
        (ground (arith, once, twice), ground (arith, once, twice, row'.listed))

  module _ (law : IsLawful env) (email hash : String) (role : Role) (dto : Auth)
      (named : nonempty dto.email ≡ some email) (w : World env) (u : User)
      (a : IsAccount env email hash role w u) where
    right_pin_account :
        (pin : String)
        → nonempty dto.pin ≡ some pin
        → env.verify hash pin ≡ true
        → is_locked env u ≡ false
        → u.login.two_factor_enabled ≡ false
        → sign_in_account env dto role u w
          ≡ open_session env u dto.first_login (admit_attempt env u w).1
    unfolding sign_in_account check_pin finish ◌>>=◌
    right_pin_account pin given right open_ simple =
        let (passed, _) = admit_attempt-IsSoleRow env law email u w open_ a.row in
        ground (arith, role_admitted env law email hash role dto named w u a, a.hashed)

    -- A user with no two-factor authentication who is not locked signs in with the email and the right
    -- PIN. The row then has no counted attempts and the hash of the new refresh token.
    pub right_pin_signs_in :
        (pin : String)
        → nonempty dto.pin ≡ some pin
        → env.verify hash pin ≡ true
        → is_locked env u ≡ false
        → u.login.two_factor_enabled ≡ false
        → dto.first_login ≡ false
        → ((pin_sign_in env dto role w).0
            ≡ ok (
                succeeded "You have signed in successfully" (
                  user_session
                    (without_secrets u)
                    (new_access_token env u.id (some u.phone_number))
                    (new_refresh_token env u.id (some u.phone_number))
                    none)))
          × ((env.find u.id (pin_sign_in env dto role w).1.users ≡ some (signed_in u))
              × ((signed_in u).login.attempts ≡ 0))
    right_pin_signs_in pin given right open_ simple again =
        let (passed, row) = admit_attempt-IsSoleRow env law email u w open_ a.row in
        let (answer, stored) =
          session_opened law email u (admitted env u) (admit_attempt env u w).1 row in
        let began = signing_in env law email hash role dto named w u a pin given in
        let steps = right_pin_account pin given right open_ simple in
        (
          rw began (rw steps (rw again (rw answer refl))),
          (rw began (rw steps (rw again (rw answer stored))), refl),
        )
