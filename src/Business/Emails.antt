-- ===== src/Business/Emails.antt =====
-- The verification of a business's email, src/business/business.service.ts.
use nfc_payment_api.Prelude.{
  ℕ, ◌≤◌, String, ◌≡◌, false, not, none, some, List, nonempty, ◌==◌, arith,
}
use nfc_payment_api.Schema.{User, Business}
use nfc_payment_api.External.{Env, IsLawful}
use nfc_payment_api.Exec.{ok, ◌>>=◌}
use nfc_payment_api.Response.{business_row, succeeded}
use nfc_payment_api.World.{World}
use nfc_payment_api.Otp.{email_verification, with_otp}
use nfc_payment_api.Otp.Text.{IsClock}
use nfc_payment_api.Otp.RoundTrip.{IsPending, verifies}
use nfc_payment_api.Otp.Stored.{generate_otp-IsCoded}
use nfc_payment_api.Business.{
  UpdateBusiness, with_changes, with_confirmed_email, taken_business_column, change_business,
  update_business, verify_business_email,
}

module _ (env : Env) (law : IsLawful env) (w : World env) (u : User) (k : ℕ) (b : Business)
    (owned : u.business_id ≡ some k) (there : env.find k w.businesses ≡ some b) where
  -- The code of a pending password for the verification of an email verifies the email of the user's
  -- business, whichever email the password was made for and the business has; the code is spent. A
  -- password lasts a minute at least, and the business has the identifier that it is found by.
  pub own_code_verifies_business :
      (clock : IsClock env) (code text : List ℕ)
      (p : IsPending env email_verification code w u text)
      → 1 ≤ env.otp_minutes
      → b.id ≡ k
      → let r = verify_business_email env code w in
        (r.0 ≡ ok (succeeded "Email verified" (business_row (with_confirmed_email b))))
        × (env.find k r.1.businesses ≡ some (with_confirmed_email b))
        × (env.find u.id r.1.users ≡ some (with_otp none u))
  unfolding verify_business_email ◌>>=◌
  own_code_verifies_business clock code text p long same =
      let checked = verifies env law clock email_verification code w u text p long in
      let spent = law.find-write u.id (with_otp none u) w.users u.id in
      let row = law.find-write k (with_confirmed_email b) w.businesses k in
      (ground (arith), ground (arith), ground (arith))

  -- A business whose email is changed has to verify the new one: an update with an email that no other
  -- business has, and no other's number, stores it as unverified.
  pub changed_email_is_unverified :
      (dto : UpdateBusiness) (email : String)
      → nonempty dto.email ≡ some email
      → env.find u.id w.users ≡ some u
      → b.id ≡ k
      → taken_business_column env (λ c. not (c.id == k)) dto.email dto.phone_number w ≡ none
      → let r = update_business env dto u w in
        (r.0 ≡ ok (succeeded "" (business_row (with_changes dto b))))
        × (env.find k r.1.businesses ≡ some (with_changes dto b))
        × ((with_changes dto b).email_verified ≡ false)
  unfolding update_business change_business ◌>>=◌
  changed_email_is_unverified dto email given listed same free =
      let c = generate_otp-IsCoded env law u.id u email_verification (some email) w listed in
      let row = law.find-write k (with_changes dto b) w.businesses k in
      (ground (arith, c.generated), ground (arith, c.generated), ground arith)
