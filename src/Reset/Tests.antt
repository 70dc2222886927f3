-- ===== src/Reset/Tests.antt =====
-- A reset of a PIN on the database of `Samples`, src/auth/auth.service.ts.
use nfc_payment_api.Prelude.{ℕ, zero, suc, ◌≡◌, refl, true, false, some, none, arith}
use nfc_payment_api.Schema.{User, Role}
use nfc_payment_api.External.Memory.{memory, memory-IsLawful}
use nfc_payment_api.Exec.{ok}
use nfc_payment_api.Response.{user_session, succeeded}
use nfc_payment_api.Otp.{password_reset}
use nfc_payment_api.Otp.Sample.{clock, code, waiting_text, waiting, waiting_start, pending}
use nfc_payment_api.SignIn.{without_secrets}
use nfc_payment_api.SignIn.Pin.{Auth, pin_sign_in}
use nfc_payment_api.SignIn.Pin.Limit.{has_email, IsAccount}
use nfc_payment_api.Reset.{reset_pin}
use nfc_payment_api.Reset.Laws.{renewed, reset_pin_signs_in}

abbrev request : Auth
request = record {
  email = some "ada@stark.pay";
  phone_number = none;
  pin = some "9876";
  device_id = none;
  first_login = false;
}

first_has_email :
    (j : ℕ) (a : User)
    → memory.find j (waiting_start password_reset).users ≡ some a
    → has_email "ada@stark.pay" a ≡ true
    → j ≡ 0
first_has_email zero a listed named = refl
first_has_email (suc zero) a listed named = absurd (ground arith)
first_has_email (suc (suc j)) a listed named = absurd (ground arith)

abbrev account :
    IsAccount memory "ada@stark.pay" "1234" Role.customer
      (waiting_start password_reset)
      (waiting password_reset)
account = record {
  row = record { listed = refl; meets = refl; sole = first_has_email };
  active = refl;
  hashed = refl;
  member = refl;
}

reset_pin_signs_in_example :
    (pin_sign_in memory request Role.customer
      (reset_pin memory code "9876" (waiting_start password_reset)).1).0
    ≡ ok (
        succeeded "You have signed in successfully" (
          user_session
            (without_secrets (renewed memory "9876" (waiting password_reset)))
            "access"
            "refresh"
            none))
reset_pin_signs_in_example =
    reset_pin_signs_in memory memory-IsLawful clock code (waiting_start password_reset)
      (waiting password_reset) (waiting_text password_reset) (pending password_reset) (ground arith)
      "9876" "ada@stark.pay" "1234" Role.customer request refl refl refl refl account refl refl
