-- ===== src/Business/Unique.antt =====
-- The registration of a business keeps the unique columns of users, src/business/business.service.ts.
use nfc_payment_api.Prelude.{ℕ, refl, none, some, Option, arith, is_some}
use nfc_payment_api.Schema.{User}
use nfc_payment_api.External.{Env, IsLawful}
use nfc_payment_api.Exec.{Error, column_taken}
use nfc_payment_api.World.{World}
use nfc_payment_api.Unique.{
  IsAside, Keeps, reads-Keeps, same-Keeps, bind-Keeps, try_catch-Keeps, if-Keeps, update_user-Keeps,
}
use nfc_payment_api.Otp.{email_verification}
use nfc_payment_api.Otp.Unique.{generate_otp-Keeps}
use nfc_payment_api.Business.{
  RegisterBusiness, push_business, is_business_user, owning, insert_business,
  insert_business_wallet, create_business, register_for, refuse_taken_column, register_business,
}

push_business-IsAside : IsAside push_business
push_business-IsAside = record {
  id = λ u. refl;
  username = λ u. refl;
  email = λ u. refl;
  phone_number = λ u. refl;
}

owning-IsAside : (k : ℕ) → IsAside (owning k)
owning-IsAside k = record {
  id = λ u. refl;
  username = λ u. refl;
  email = λ u. refl;
  phone_number = λ u. refl;
}

module _ (env : Env) (law : IsLawful env) where
  insert_business-Keeps : (dto : RegisterBusiness) → Keeps env (insert_business env dto)
  unfolding insert_business
  insert_business-Keeps dto = same-Keeps env _ (λ w. ground arith)

  insert_business_wallet-Keeps : (k : ℕ) → Keeps env (insert_business_wallet env k)
  unfolding insert_business_wallet
  insert_business_wallet-Keeps k = same-Keeps env _ (λ w. refl)

  create_business-Keeps :
      (dto : RegisterBusiness) (user : User) → Keeps env (create_business env dto user)
  create_business-Keeps dto user =
      bind-Keeps env
        (if-Keeps env (is_business_user user.login.roles) (reads-Keeps env _)
          (update_user-Keeps env law user.id push_business push_business-IsAside))
        (λ t. bind-Keeps env (insert_business-Keeps dto) (λ business.
          bind-Keeps env (insert_business_wallet-Keeps business.id) (λ t.
            bind-Keeps env (generate_otp-Keeps env law user.id email_verification (some dto.email))
              (λ code.
                bind-Keeps env
                  (update_user-Keeps env law user.id (owning business.id)
                    (owning-IsAside business.id))
                  (λ t. reads-Keeps env _)))))

  register_for-Keeps :
      (dto : RegisterBusiness) (found : Option User) → Keeps env (register_for env dto found)
  register_for-Keeps dto none = reads-Keeps env _
  register_for-Keeps dto (some user) =
      if-Keeps env (is_some user.business_id) (reads-Keeps env _) (create_business-Keeps dto user)

  refused-Keeps : (e : Error) → Keeps env (refuse_taken_column {S = World env} e)
  refused-Keeps (column_taken column) = reads-Keeps env _
  refused-Keeps _ = reads-Keeps env _

  pub register_business-Keeps :
      (dto : RegisterBusiness) (k : ℕ) → Keeps env (register_business env dto k)
  unfolding register_business
  register_business-Keeps dto k =
      try_catch-Keeps env
        (bind-Keeps env (reads-Keeps env _) (λ found. register_for-Keeps dto found)) refused-Keeps
