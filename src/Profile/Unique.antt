-- ===== src/Profile/Unique.antt =====
-- The changes of a user's own data keep the unique columns, src/user/user.service.ts.
use nfc_payment_api.Prelude.{
  ℕ, String, ◌≡◌, refl, Bool, true, false, Option, none, some, List, ◌==◌, if◌then◌else◌,
}
use nfc_payment_api.Schema.{User}
use nfc_payment_api.External.{Env, IsLawful}
use nfc_payment_api.Exec.{Error, unique_violation, throw, http}
use nfc_payment_api.Regex.{codes}
use nfc_payment_api.World.{World, put_users, update_row}
use nfc_payment_api.Unique.{
  IsUnique, Keeps, reads-Keeps, bind-Keeps, try_catch-Keeps, if-Keeps, update_user-Keeps,
}
use nfc_payment_api.Otp.{email_verification, edit_phone_verification}
use nfc_payment_api.Otp.Unique.{verify_otp-Keeps}
use nfc_payment_api.Profile.{
  with_email, codes_of, rethrow_refusal, set_email, updated, edit_email, edit_phone_number,
}
use nfc_payment_api.Profile.Update.{UpdateUser, other_has}
use nfc_payment_api.Profile.Update.Unique.{changed-IsUnique}

module _ (env : Env) (law : IsLawful env) where
  abbrev email_request : String → UpdateUser
  email_request e = record { email = some e; username = none }

  emailed-IsUnique :
      (k : ℕ) (e : String) (w : World env) (b : Bool) (o : Option User)
      → other_has env (λ x. x.email) k (some e) w ≡ b
      → env.find k w.users ≡ o
      → IsUnique env w.users
      → IsUnique env
          (if b
            then throw {A = Unit {0}} unique_violation w
            else put_users env (update_row env k (with_email e) w.users o) w).1.users
  emailed-IsUnique k e w true o taken found unique = unique
  emailed-IsUnique k e w false none free found unique = unique
  emailed-IsUnique k e w false (some u) free found unique =
      changed-IsUnique env law (email_request e) k (with_email e) w u
        (record {
          id = λ x. refl;
          username = λ x. refl;
          email = λ x. refl;
          phone_number = λ x. refl;
        })
        found refl free unique

  set_email-Keeps : (k : ℕ) (e : Option String) → Keeps env (set_email env k e)
  unfolding set_email
  set_email-Keeps k none =
      update_user-Keeps env law k (λ u. u)
        (record {
          id = λ x. refl;
          username = λ x. refl;
          email = λ x. refl;
          phone_number = λ x. refl;
        })
  set_email-Keeps k (some e) = record {
    kept = λ w unique.
        emailed-IsUnique k e w (other_has env (λ x. x.email) k (some e) w) (env.find k w.users) refl
          refl unique;
  }

  rethrow_refusal-Keeps :
      (m : String) {A : Type 0} (e : Error)
      → Keeps env (rethrow_refusal m {S = World env} {A = A} e)
  rethrow_refusal-Keeps m (http status n) =
      if-Keeps env (status == 400) (reads-Keeps env _)
        (if-Keeps env (status == 403) (reads-Keeps env _) (reads-Keeps env _))
  rethrow_refusal-Keeps m _ = reads-Keeps env _

  updated-Keeps : (m : String) (k : ℕ) → Keeps env (updated env m k)
  updated-Keeps m k =
      bind-Keeps env (reads-Keeps env _)
        (λ found. bind-Keeps env (reads-Keeps env _) (λ user. reads-Keeps env _))

  pub edit_email-Keeps :
      (user : User) (email : Option String) (otp : List ℕ)
      → Keeps env (edit_email env user email otp)
  unfolding edit_email
  edit_email-Keeps user email otp =
      try_catch-Keeps env
        (bind-Keeps env (reads-Keeps env _) (λ t.
          bind-Keeps env (verify_otp-Keeps env law otp email_verification (codes_of email) none)
            (λ verified. bind-Keeps env (reads-Keeps env _) (λ t.
              bind-Keeps env (set_email-Keeps user.id email)
                (λ t. updated-Keeps "Email updated successfully" user.id)))))
        (rethrow_refusal-Keeps "An error occured when updating email")

  pub edit_phone_number-Keeps :
      (user : User) (number : String) (otp : List ℕ)
      → Keeps env (edit_phone_number env user number otp)
  unfolding edit_phone_number
  edit_phone_number-Keeps user number otp =
      try_catch-Keeps env
        (bind-Keeps env (reads-Keeps env _) (λ t.
          bind-Keeps env
            (verify_otp-Keeps env law otp edit_phone_verification (some (codes number)) none)
            (λ verified. bind-Keeps env (reads-Keeps env _) (λ t.
              bind-Keeps env (set_email-Keeps user.id (some number))
                (λ t. updated-Keeps "Phone number updated successfully" user.id)))))
        (rethrow_refusal-Keeps "An error occured when updating phone number")
