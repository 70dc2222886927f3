-- ===== src/Business/Tests.antt =====
-- Businesses on the database of `Samples`, src/business/business.service.ts.
use nfc_payment_api.Prelude.{
  ℕ, zero, suc, ◌≡◌, refl, true, false, Option, none, some, List, [], ◌∷◌, arith,
}
use nfc_payment_api.Schema.{User, Business}
use nfc_payment_api.External.Memory.{memory, memory-IsLawful}
use nfc_payment_api.Exec.{ok}
use nfc_payment_api.Response.{business_row, refused, succeeded}
use nfc_payment_api.World.{World}
use nfc_payment_api.Otp.{otp_text, otp_starts, split, identifier_text, with_otp, email_verification}
use nfc_payment_api.Otp.Text.{starts_with-append, split-otp_text}
use nfc_payment_api.Otp.RoundTrip.{IsPending}
use nfc_payment_api.Otp.Sample.{clock, code}
use nfc_payment_api.Business.{
  RegisterBusiness, owning, with_confirmed_email, register_business, verify_business_email,
}
use nfc_payment_api.Business.Laws.{as_business, business, wallet, register_business_creates}
use nfc_payment_api.Business.Emails.{own_code_verifies_business}
use nfc_payment_api.Samples.{start, customer, merchant, line}

abbrev ferry : RegisterBusiness
ferry = record { name = "Ferry"; email = "ferry@stark.pay"; phone_number = "+2348012345672" }

abbrev copy : RegisterBusiness
copy = record ferry { email = "line@stark.pay" }

abbrev new_row : Business
new_row = business memory memory-IsLawful ferry start customer refl refl refl

register_business_creates_example :
    let r = register_business memory ferry 0 start in
    (r.0 ≡ ok (succeeded "Successfully created business" (business_row new_row)))
    × (memory.find 1 r.1.businesses ≡ some new_row)
    × (memory.find 3 r.1.wallets
        ≡ some (wallet memory memory-IsLawful ferry start customer refl refl refl))
    × ((text : Option (List ℕ)) × (memory.find 0 r.1.users
          ≡ some (owning 1 (with_otp text (as_business customer)))))
    × ((j : ℕ) (b : Business)
        → memory.find j start.businesses ≡ some b
        → memory.find j r.1.businesses ≡ some b)
    × (register_business memory copy 0 r.1
        ≡ (ok (refused "You have already registered a business"), r.1))
register_business_creates_example =
    register_business_creates memory memory-IsLawful ferry start customer refl refl refl copy

-- The owner of the line, with a one-time password for the own email.
abbrev owner : User
owner = record customer {
  business_id = some 0;
  otp = some (otp_text memory email_verification customer.email code);
}

abbrev unverified : Business
unverified = record line { email = "other@stark.pay"; email_verified = false }

abbrev owned : World memory
owned = record start { users = some owner ∷ some merchant ∷ []; businesses = some unverified ∷ [] }

first_starts :
    (k : ℕ) (r : User) → memory.find k owned.users ≡ some r → otp_starts code r ≡ true → k ≡ 0
first_starts zero r listed starts = refl
first_starts (suc zero) r listed starts = absurd (ground arith)
first_starts (suc (suc k)) r listed starts = absurd (ground arith)

owner-IsPending :
    IsPending memory email_verification code owned owner
      (otp_text memory email_verification customer.email code)
owner-IsPending = record {
  row = record { listed = refl; meets = starts_with-append code _; sole = first_starts };
  stored = refl;
  rest = split (identifier_text customer.email);
  parts = split-otp_text memory clock email_verification customer.email code refl;
}

own_code_verifies_business_example :
    let r = verify_business_email memory code owned in
    (r.0 ≡ ok (succeeded "Email verified" (business_row (with_confirmed_email unverified))))
    × (memory.find 0 r.1.businesses ≡ some (with_confirmed_email unverified))
    × (memory.find 0 r.1.users ≡ some (with_otp none owner))
own_code_verifies_business_example =
    own_code_verifies_business memory memory-IsLawful owned owner 0 unverified refl refl clock code
      (otp_text memory email_verification customer.email code) owner-IsPending (ground arith) refl
