-- ===== src/Reset/Unique.antt =====
-- The reset of a PIN keeps the unique columns of users, src/auth/auth.service.ts.
use nfc_payment_api.Prelude.{ℕ, String, refl, none, List}
use nfc_payment_api.Schema.{User}
use nfc_payment_api.External.{Env, IsLawful}
use nfc_payment_api.Response.{Response}
use nfc_payment_api.Unique.{
  IsAside, Keeps, reads-Keeps, bind-Keeps, try_catch-Keeps, if-Keeps, update_user-Keeps,
}
use nfc_payment_api.Otp.{OtpAnswer, password_reset}
use nfc_payment_api.Otp.Unique.{verify_otp-Keeps}
use nfc_payment_api.Reset.{with_hash, change_verified, reset_pin}

with_hash-IsAside : (hash : String) → IsAside (with_hash hash)
with_hash-IsAside hash = record {
  id = λ u. refl;
  username = λ u. refl;
  email = λ u. refl;
  phone_number = λ u. refl;
}

module _ (env : Env) (law : IsLawful env) where
  change_verified-Keeps :
      (verified : OtpAnswer) (f : User → User) (done : Response)
      → IsAside f
      → Keeps env (change_verified env verified f done)
  change_verified-Keeps verified f done aside =
      if-Keeps env verified.valid
        (bind-Keeps env (reads-Keeps env _) (λ user.
          bind-Keeps env (update_user-Keeps env law user.id f aside) (λ t. reads-Keeps env _)))
        (reads-Keeps env _)

  pub reset_pin-Keeps : (otp : List ℕ) (pin : String) → Keeps env (reset_pin env otp pin)
  unfolding reset_pin
  reset_pin-Keeps otp pin =
      try_catch-Keeps env
        (bind-Keeps env (verify_otp-Keeps env law otp password_reset none none) (λ verified.
          change_verified-Keeps verified (with_hash (env.hash pin)) _
            (with_hash-IsAside (env.hash pin))))
        (λ e. reads-Keeps env _)
