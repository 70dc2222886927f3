-- ===== src/Otp/Unique.antt =====
-- One-time passwords change no unique column but their own, src/common/helpers/otp.helper.ts.
use nfc_payment_api.Prelude.{ℕ, String, refl, not, ◌||◌, Option, none, some, List, [], is_some}
use nfc_payment_api.Schema.{User}
use nfc_payment_api.External.{Env, IsLawful}
use nfc_payment_api.Exec.{unique_violation}
use nfc_payment_api.World.{update_user}
use nfc_payment_api.Unique.{
  IsAside, Keeps, reads-Keeps, bind-Keeps, try_catch-Keeps, if-Keeps, update_user-Keeps,
  refuses-Keeps,
}
use nfc_payment_api.Otp.{
  OtpUse, with_otp, set_otp, generate_otp, verify_of, verify_found, verify_otp, has_otp, is_part,
  use_text, is_other, is_past, expires,
}

with_otp-IsAside : (otp : Option (List ℕ)) → IsAside (with_otp otp)
with_otp-IsAside otp = record {
  id = λ u. refl;
  username = λ u. refl;
  email = λ u. refl;
  phone_number = λ u. refl;
}

module _ (env : Env) (law : IsLawful env) where
  abbrev updates : (k : ℕ) (otp : Option (List ℕ)) → Keeps env (update_user env k (with_otp otp))
  updates k otp = update_user-Keeps env law k (with_otp otp) (with_otp-IsAside otp)

  set_otp-Keeps : (k : ℕ) (otp : Option (List ℕ)) → Keeps env (set_otp env k otp)
  unfolding set_otp
  set_otp-Keeps k none = updates k none
  set_otp-Keeps k (some text) =
      refuses-Keeps env (λ w. is_some (env.find_first (has_otp text k) w.users)) unique_violation
        (updates k (some text))

  pub generate_otp-Keeps :
      (k : ℕ) (use_ : OtpUse) (identifier : Option String)
      → Keeps env (generate_otp env k use_ identifier)
  unfolding generate_otp
  generate_otp-Keeps k use_ identifier = bind-Keeps env (reads-Keeps env _) (λ text.
      try_catch-Keeps env (bind-Keeps env (set_otp-Keeps k (some text)) (λ t. reads-Keeps env _))
        (λ e. reads-Keeps env _))

  verify_of-Keeps :
      (code : List ℕ) (use_ : OtpUse) (identifier : Option (List ℕ)) (user : User) (otp : List ℕ)
      → Keeps env (verify_of env code use_ identifier user otp)
  unfolding verify_of
  verify_of-Keeps code use_ identifier user otp =
      if-Keeps env (not (is_part 2 (use_text use_) otp) || is_other env identifier otp)
        (reads-Keeps env _)
        (if-Keeps env (is_past env (expires env otp))
          (bind-Keeps env (set_otp-Keeps user.id (some [])) (λ t. reads-Keeps env _))
          (if-Keeps env (is_part 0 code otp)
            (bind-Keeps env (set_otp-Keeps user.id none) (λ t. reads-Keeps env _))
            (reads-Keeps env _)))

  verify_found-Keeps :
      (code : List ℕ) (use_ : OtpUse) (identifier : Option (List ℕ)) (found : Option User)
      → Keeps env (verify_found env code use_ identifier found)
  verify_found-Keeps code use_ identifier none = reads-Keeps env _
  verify_found-Keeps code use_ identifier (some user) =
      bind-Keeps env (reads-Keeps env _) (λ otp. verify_of-Keeps code use_ identifier user otp)

  pub verify_otp-Keeps :
      (code : List ℕ) (use_ : OtpUse) (identifier : Option (List ℕ)) (user : Option User)
      → Keeps env (verify_otp env code use_ identifier user)
  unfolding verify_otp
  verify_otp-Keeps code use_ identifier none =
      bind-Keeps env (reads-Keeps env _) (λ found. verify_found-Keeps code use_ identifier found)
  verify_otp-Keeps code use_ identifier (some user) =
      verify_found-Keeps code use_ identifier (some user)
