-- ===== src/Profile/Update/Unique.antt =====
-- `updateUser` of src/user/user.service.ts keeps the unique columns.
use nfc_payment_api.Prelude.{
  ℕ, String, ◌≡◌, refl, sym, ap, ◌∙◌, true, false, not, ◌&&◌, ◌||◌, Option, none, some, same_text,
  ◌==◌, arith, Bool-cases, inl, inr,
}
use nfc_payment_api.Schema.{User}
use nfc_payment_api.External.{Env, IsLawful}
use nfc_payment_api.External.Rows.{find_first_listed}
use nfc_payment_api.Exec.{Error, column_taken}
use nfc_payment_api.World.{World}
use nfc_payment_api.World.References.{str_eq_refl}
use nfc_payment_api.Unique.{
  Distinct, number_of, IsUnique, Keeps, write-Distinct, write-keyed, reads-Keeps, bind-Keeps,
  try_catch-Keeps, if-Keeps,
}
use nfc_payment_api.Otp.{email_verification}
use nfc_payment_api.Otp.Unique.{generate_otp-Keeps}
use nfc_payment_api.Profile.Update.{
  UpdateUser, or_kept, with_username, with_unverified, lower, other_has, clash, write_unless,
  write_found, is_new_email, forbid_taken, change_user, update_user_data,
}

-- A change of the username and the email to those of a request, and of nothing else that is unique.
pub record IsChange (dto : UpdateUser) (f : User → User) : Type 0 where
  pub id : (u : User) → (f u).id ≡ u.id
  pub username : (u : User) → (f u).username ≡ or_kept dto.username u.username
  pub email : (u : User) → (f u).email ≡ or_kept dto.email u.email
  pub phone_number : (u : User) → (f u).phone_number ≡ u.phone_number

module _ (env : Env) (law : IsLawful env) where
  -- A value that no other row has, as the column's index finds, stays alone.
  stays_alone :
      (key : User → Option String) (k : ℕ) (new : Option String) (w : World env) (u : User)
      → IsUnique env w.users
      → Distinct env key w.users
      → env.find k w.users ≡ some u
      → other_has env key k new w ≡ false
      → (j : ℕ) (a : User) (s : String) → env.find j w.users ≡ some a
      → key a ≡ some s
      → or_kept new (key u) ≡ some s
      → j ≡ k
  stays_alone key k none w u unique distinct listed free j a s there has mine =
      distinct j k a u s there listed has mine
  stays_alone key k (some new) w u unique distinct listed free j a s there has mine =
      let alike : key a ≡ some new = has ∙ sym mine in
      let same : same_text (key a) (some new) ≡ true = rw alike (str_eq_refl new) in
      elim (Bool-cases (a.id == k)) [
        | inl own ↦ ground (arith, unique.keyed j a there)
        | inr other ↦ absurd (
            ground (
              arith,
              find_first_listed env law (λ x. same_text (key x) (some new) && not (x.id == k))
                  w.users j a there,
            ))
      ]

  pub changed-IsUnique :
      (dto : UpdateUser) (k : ℕ) (f : User → User) (w : World env) (u : User)
      → IsChange dto f
      → env.find k w.users ≡ some u
      → other_has env (λ x. x.username) k dto.username w ≡ false
      → other_has env (λ x. x.email) k dto.email w ≡ false
      → IsUnique env w.users
      → IsUnique env (env.write k (f u) w.users)
  changed-IsUnique dto k f w u change listed name_free email_free unique =
      let id = change.id u in
      let username = change.username u in
      let email = change.email u in
      let number = change.phone_number u in
      record {
        keyed = write-keyed env law w.users k (f u) unique.keyed (id ∙ unique.keyed k u listed);
        usernames =
            write-Distinct env law (λ x. x.username) w.users k (f u) unique.usernames
              (λ j a s there has mine.
                stays_alone (λ x. x.username) k dto.username w u unique unique.usernames listed
                  name_free j a s there has (sym username ∙ mine));
        emails =
            write-Distinct env law (λ x. x.email) w.users k (f u) unique.emails
              (λ j a s there has mine.
                stays_alone (λ x. x.email) k dto.email w u unique unique.emails listed email_free j
                  a s there has (sym email ∙ mine));
        numbers =
            write-Distinct env law number_of w.users k (f u) unique.numbers (λ j a s there has mine.
              unique.numbers j k a u s there listed has (sym (ap some number) ∙ mine));
      }

  found-IsUnique :
      (dto : UpdateUser) (k : ℕ) (f : User → User) (w : World env) (o : Option User)
      → IsChange dto f
      → env.find k w.users ≡ o
      → clash env dto.username dto.email k w ≡ none
      → IsUnique env w.users
      → IsUnique env (write_found env k f o w).1.users
  found-IsUnique dto k f w none change found free unique = unique
  found-IsUnique dto k f w (some u) change found free unique =
      changed-IsUnique dto k f w u change found (ground arith) (ground arith) unique

  unless-IsUnique :
      (dto : UpdateUser) (k : ℕ) (f : User → User) (w : World env) (o : Option String)
      → IsChange dto f
      → clash env dto.username dto.email k w ≡ o
      → IsUnique env w.users
      → IsUnique env (write_unless env o k f w).1.users
  unless-IsUnique dto k f w (some column) change taken unique = unique
  unless-IsUnique dto k f w none change free unique =
      found-IsUnique dto k f w (env.find k w.users) change refl free unique

  change_user-Keeps :
      (dto : UpdateUser) (k : ℕ) (f : User → User)
      → IsChange dto f
      → Keeps env (change_user env dto k f)
  unfolding change_user
  change_user-Keeps dto k f change = record {
    kept = λ w unique.
        unless-IsUnique dto k f w (clash env dto.username dto.email k w) change refl unique;
  }

  forbid_taken-Keeps : {A : Type 0} (e : Error) → Keeps env (forbid_taken {S = World env} {A = A} e)
  forbid_taken-Keeps (column_taken column) = reads-Keeps env _
  forbid_taken-Keeps _ = reads-Keeps env _

  pub update_user_data-Keeps :
      (user : User) (dto : UpdateUser) → Keeps env (update_user_data env user dto)
  unfolding update_user_data
  update_user_data-Keeps user dto =
      try_catch-Keeps env
        (if-Keeps env (is_new_email env dto.email user || not user.email_verified)
          (bind-Keeps env
            (change_user-Keeps dto user.id (with_unverified dto) (record {
              id = λ u. refl;
              username = λ u. refl;
              email = λ u. refl;
              phone_number = λ u. refl;
            }))
            (λ u.
              bind-Keeps env (generate_otp-Keeps env law user.id email_verification user.email)
                (λ code. reads-Keeps env _)))
          (bind-Keeps env
            (change_user-Keeps (record { email = none; username = lower env dto.username }) user.id
              (with_username (lower env dto.username))
              (record {
                id = λ u. refl;
                username = λ u. refl;
                email = λ u. refl;
                phone_number = λ u. refl;
              }))
            (λ u. reads-Keeps env _)))
        forbid_taken-Keeps
