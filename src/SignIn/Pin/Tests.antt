-- ===== src/SignIn/Pin/Tests.antt =====
-- Sign-ins with a PIN on the database of `Samples`, `pinSignIn` of src/auth/auth.service.ts.
use nfc_payment_api.Prelude.{ℕ, zero, suc, ◌≡◌, refl, true, false, some, none, [], ◌∷◌, arith}
use nfc_payment_api.Schema.{User, Role}
use nfc_payment_api.External.Memory.{memory, memory-IsLawful}
use nfc_payment_api.Exec.{err, http, wait_minutes}
use nfc_payment_api.SignIn.Pin.{Auth, pin_sign_in}
use nfc_payment_api.SignIn.Pin.Limit.{has_email, with_pin, IsAccount}
use nfc_payment_api.SignIn.Pin.Laws.{try_pins, wrong_pins_lock}
use nfc_payment_api.Samples.{start, customer}

abbrev request : Auth
request = record {
  email = some "ada@stark.pay";
  phone_number = none;
  pin = some "1234";
  device_id = none;
  first_login = false;
}

first_has_email :
    (j : ℕ) (a : User)
    → memory.find j start.users ≡ some a
    → has_email "ada@stark.pay" a ≡ true
    → j ≡ 0
first_has_email zero a listed named = refl
first_has_email (suc zero) a listed named = absurd (ground arith)
first_has_email (suc (suc j)) a listed named = absurd (ground arith)

abbrev account : IsAccount memory "ada@stark.pay" "1234" Role.customer start customer
account = record {
  row = record { listed = refl; meets = refl; sole = first_has_email };
  active = refl;
  hashed = refl;
  member = refl;
}

wrong_pins_lock_example :
    pin_sign_in memory
      (with_pin "1234" request)
      Role.customer
      (try_pins memory Role.customer request ("0" ∷ "1" ∷ "2" ∷ []) start)
    ≡ (
      err (http 403 (wait_minutes 10)),
      try_pins memory Role.customer request ("0" ∷ "1" ∷ "2" ∷ []) start,
    )
wrong_pins_lock_example =
    wrong_pins_lock memory Role.customer request memory-IsLawful "ada@stark.pay" "1234" refl "0" "1"
      "2" [] "1234" start customer account refl refl
