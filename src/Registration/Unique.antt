-- ===== src/Registration/Unique.antt =====
-- Signing up keeps the unique columns of users, src/auth/auth.service.ts.
use nfc_payment_api.Prelude.{
  ℕ, String, ◌≡◌, refl, Bool, true, false, Option, none, some, nonempty, is_some, arith, same_text,
}
use nfc_payment_api.Schema.{User, Wallet}
use nfc_payment_api.External.{Env, IsLawful}
use nfc_payment_api.External.Rows.{find_first_listed}
use nfc_payment_api.Exec.{Error, column_taken, ◌>>=◌}
use nfc_payment_api.World.{World}
use nfc_payment_api.World.References.{str_eq_refl}
use nfc_payment_api.Unique.{
  number_of, IsUnique, Keeps, write-Distinct, write-keyed, reads-Keeps, same-Keeps, bind-Keeps,
  try_catch-Keeps, if-Keeps,
}
use nfc_payment_api.Otp.{email_verification}
use nfc_payment_api.Otp.Unique.{generate_otp-Keeps}
use nfc_payment_api.Response.{Response}
use nfc_payment_api.Card.Unique.{add_nfc_card-Keeps}
use nfc_payment_api.Registration.{
  SignUp, new_user, taken_column, insert_unless, insert_user, create_wallet, insert_wallet,
  is_customer, add_first_card, validate_referral, refuse_taken_user, record_creation, sign_up,
  register_user,
}

module _ (env : Env) (law : IsLawful env) where
  -- Where no row has the value of a new one, none has.
  fresh_value :
      (key : User → Option String) (u : User) (t : env.Table User) (k : ℕ)
      → is_some (env.find_first (λ a. same_text (key a) (key u)) t) ≡ false
      → (j : ℕ) (a : User) (s : String) → env.find j t ≡ some a
      → key a ≡ some s
      → key u ≡ some s
      → j ≡ k
  fresh_value key u t k absent j a s there has mine =
      let alike : same_text (key a) (key u) ≡ true = rw (has, mine) (str_eq_refl s) in
      absurd (
        ground
          (arith, find_first_listed env law (λ b. same_text (key b) (key u)) t j a there alike))

  inserted-IsUnique :
      (u : User) (w : World env) (o : Option String)
      → taken_column env u w ≡ o
      → IsUnique env w.users
      → IsUnique env (insert_unless env o u w).1.users
  inserted-IsUnique u w (some column) taken unique = unique
  inserted-IsUnique u w none free unique =
      let k = env.new_id w.users in
      let row : User = record u { id = k } in
      record {
        keyed = write-keyed env law w.users k row unique.keyed refl;
        usernames =
            write-Distinct env law (λ x. x.username) w.users k row unique.usernames
              (fresh_value (λ x. x.username) row w.users k (ground arith));
        emails =
            write-Distinct env law (λ x. x.email) w.users k row unique.emails
              (fresh_value (λ x. x.email) row w.users k (ground arith));
        numbers =
            write-Distinct env law number_of w.users k row unique.numbers
              (fresh_value number_of row w.users k (ground arith));
      }

  insert_user-Keeps : (u : User) → Keeps env (insert_user env u)
  unfolding insert_user
  insert_user-Keeps u = record {
    kept = λ w unique. inserted-IsUnique u w (taken_column env u w) refl unique;
  }

  create_wallet-Keeps : (k : ℕ) → Keeps env (create_wallet env k)
  unfolding create_wallet insert_wallet ◌>>=◌
  create_wallet-Keeps k = same-Keeps env _ (λ w. ground arith)

  add_first_card-Keeps :
      (user : User) (wallet : Option Wallet) (name : String) (number : Option String)
      → Keeps env (add_first_card env user wallet name number)
  unfolding add_first_card
  add_first_card-Keeps user wallet name none = reads-Keeps env _
  add_first_card-Keeps user wallet name (some number) =
      bind-Keeps env (reads-Keeps env _)
        (λ own. bind-Keeps env (add_nfc_card-Keeps env _ _ _) (λ answer. reads-Keeps env _))

  referral-Keeps : (code : Option String) (k : ℕ) → Keeps env (validate_referral env code k)
  referral-Keeps none k = reads-Keeps env _
  referral-Keeps (some code) k = same-Keeps env _ (λ w. refl)

  refused-Keeps : (m : String) (e : Error) → Keeps env (refuse_taken_user m {S = World env} e)
  refused-Keeps m (column_taken column) = reads-Keeps env _
  refused-Keeps m _ = reads-Keeps env _

  pub sign_up-Keeps : (dto : SignUp) (by_sms : Bool) → Keeps env (sign_up env dto by_sms)
  unfolding sign_up
  sign_up-Keeps dto by_sms =
      try_catch-Keeps env
        (bind-Keeps env (reads-Keeps env _) (λ name.
          bind-Keeps env (insert_user-Keeps (new_user env dto name)) (λ user.
            bind-Keeps env (create_wallet-Keeps user.id) (λ wallet.
              bind-Keeps env (add_first_card-Keeps user wallet name (nonempty dto.nfc_card_number))
                (λ t.
                  bind-Keeps env (generate_otp-Keeps env law user.id email_verification user.email)
                    (λ code.
                      bind-Keeps env (referral-Keeps (nonempty dto.referral_code) user.id) (λ t.
                        bind-Keeps env (if-Keeps env by_sms (reads-Keeps env _) (reads-Keeps env _))
                          (λ t. reads-Keeps env _))))))))
        (refused-Keeps "An error occurred while creating the user")

  record_creation-Keeps : (r : Response) (agent : ℕ) → Keeps env (record_creation env r agent)
  unfolding ◌>>=◌
  record_creation-Keeps r agent = same-Keeps env _ (λ w. ground arith)

  pub register_user-Keeps : (dto : SignUp) (agent : ℕ) → Keeps env (register_user env dto agent)
  unfolding register_user
  register_user-Keeps dto agent =
      if-Keeps env (is_customer dto.role)
        (try_catch-Keeps env
          (bind-Keeps env (sign_up-Keeps dto true)
            (λ r. bind-Keeps env (record_creation-Keeps r agent) (λ t. reads-Keeps env _)))
          (λ e. reads-Keeps env _))
        (reads-Keeps env _)
