-- ===== src/Business.antt =====
-- The registration of businesses and the verification of their emails, BusinessService,
-- src/business/business.service.ts. The mails are not waited for and left out.
pub mod Laws
pub mod Unique
pub mod Emails
mod Tests
use Prim.Native.String.{◌++◌ as append}
use nfc_payment_api.Prelude.{
  ℕ, String, Bool, true, false, not, ◌&&◌, Option, none, some, List, [], ◌∷◌, ◌++◌, nonempty,
  str_eq, is_some, ◌==◌, if◌then◌else◌,
}
use nfc_payment_api.Schema.{User, Business, Wallet, Role, RoleInBusiness}
use nfc_payment_api.External.{Env}
use nfc_payment_api.Exec.{
  Exec, Error, ok, err, text, column_taken, validation_error, record_not_found, pure, throw, gets,
  defined, try_catch, ◌>>=◌, ◌>>◌,
}
use nfc_payment_api.Response.{Response, null, empty_object, business_row, refused, succeeded}
use nfc_payment_api.World.{World, update_user}
use nfc_payment_api.Otp.{OtpAnswer, email_verification, generate_otp, verify_otp}
use nfc_payment_api.Registration.{new_wallet}

-- RegisterBusinessDto
pub record RegisterBusiness : Type 0 where
  pub name : String
  pub email : String
  pub phone_number : String

-- UpdateBusinessDto
pub record UpdateBusiness : Type 0 where
  pub name : Option String
  pub email : Option String
  pub phone_number : Option String

abbrev or_same : Option String → String → String
or_same none s = s
or_same (some t) s = t

-- `roles: { push: Role.BUSINESS }`
abbrev pub push_business : User → User
push_business u = record u {
  login = record u.login { roles = u.login.roles ++ Role.business ∷ [] };
}

abbrev pub is_business_user : List Role → Bool
is_business_user [] = false
is_business_user (Role.business ∷ l) = true
is_business_user (_ ∷ l) = is_business_user l

abbrev pub owning : ℕ → User → User
owning k u = record u { business_id = some k; role_in_business = some RoleInBusiness.admin }

abbrev pub with_changes : UpdateBusiness → Business → Business
with_changes dto b = record b {
  name = or_same dto.name b.name;
  email = or_same dto.email b.email;
  phone_number = or_same dto.phone_number b.phone_number;
  email_verified = if is_some (nonempty dto.email) then false else b.email_verified;
}

abbrev pub with_confirmed_email : Business → Business
with_confirmed_email b = record b { email_verified = true }

-- An answer without a message.
abbrev pub unexplained : Response
unexplained = record { success = false; msg = text ""; payload = empty_object }

abbrev refuse_taken_column : {S : Type 0} → Error → Exec S Response
refuse_taken_column (column_taken column) =
    pure (refused (append "This " (append column " is already taken")))
refuse_taken_column e = pure (refused "Failed to register business")

module _ (env : Env) where
  -- The values of unique columns that another business has, in the order of the migrations.
  abbrev pub email_taken : (Business → Bool) → Option String → World env → Bool
  email_taken other none w = false
  email_taken other (some e) w =
      is_some (env.find_first (λ b. other b && str_eq b.email e) w.businesses)

  abbrev pub number_taken : (Business → Bool) → Option String → World env → Bool
  number_taken other none w = false
  number_taken other (some n) w =
      is_some (env.find_first (λ b. other b && str_eq b.phone_number n) w.businesses)

  abbrev pub taken_business_column :
      (Business → Bool) → (email phone_number : Option String) → World env → Option String
  taken_business_column other email number w =
      if email_taken other email w
      then some "Email"
      else if number_taken other number w
      then some "Phone Number"
      else none

  abbrev pub new_business : RegisterBusiness → ℕ → Business
  new_business dto k = record {
    id = k;
    name = dto.name;
    email = dto.email;
    phone_number = dto.phone_number;
    email_verified = false;
    service_fee_percentage = 5;
  }

  abbrev insert_business_unless : Option String → RegisterBusiness → Exec (World env) Business
  insert_business_unless (some column) dto w = (err (column_taken column), w)
  insert_business_unless none dto w =
      let row = new_business dto (env.new_id w.businesses) in
      (ok row, record w { businesses = env.write row.id row w.businesses })

  -- `business.create`
  pub insert_business : RegisterBusiness → Exec (World env) Business
  insert_business dto w =
      insert_business_unless
        (taken_business_column (λ b. true) (some dto.email) (some dto.phone_number) w) dto w

  -- `wallet.create` for a business that was just created
  insert_business_wallet : ℕ → Exec (World env) (Unit {0})
  insert_business_wallet k w =
      let row = new_wallet env (env.new_id w.wallets) none (some k) in
      (ok tt, record w { wallets = env.write row.id row w.wallets })

  abbrev create_business : RegisterBusiness → User → Exec (World env) Response
  create_business dto user = do
    if is_business_user user.login.roles then pure tt else update_user env user.id push_business
    business ← insert_business dto
    insert_business_wallet business.id
    code ← generate_otp env user.id email_verification (some dto.email)
    update_user env user.id (owning business.id)
    pure (succeeded "Successfully created business" (business_row business))

  abbrev register_for : RegisterBusiness → Option User → Exec (World env) Response
  register_for dto none = pure (refused "User not found")
  register_for dto (some user) =
      if is_some user.business_id
      then pure (refused "You have already registered a business")
      else create_business dto user

  pub register_business : RegisterBusiness → (user : ℕ) → Exec (World env) Response
  register_business dto k =
      try_catch (do found ← gets (λ w. env.find k w.users); register_for dto found)
        refuse_taken_column

  -- `findUnique` by the user's business; null is no identifier.
  abbrev find_business : Option ℕ → Exec (World env) (Option Business)
  find_business none = throw validation_error
  find_business (some k) = gets (λ w. env.find k w.businesses)

  pub resend_business_otp : User → Exec (World env) Response
  resend_business_otp user =
      try_catch
        (do
          found ← find_business user.business_id
          business ← defined found
          code ← generate_otp env user.id email_verification (some business.email)
          pure (succeeded "OTP sent" empty_object))
        (λ e. pure unexplained)

  abbrev write_business : (Business → Business) → Option Business → Exec (World env) Business
  write_business f none w = (err record_not_found, w)
  write_business f (some b) w =
      (ok (f b), record w { businesses = env.write b.id (f b) w.businesses })

  abbrev change_unless : Option String → (Business → Business) → ℕ → Exec (World env) Business
  change_unless (some column) f k w = (err (column_taken column), w)
  change_unless none f k w = write_business f (env.find k w.businesses) w

  -- `business.update`
  pub change_business : UpdateBusiness → ℕ → Exec (World env) Business
  change_business dto k w =
      change_unless (taken_business_column (λ b. not (b.id == k)) dto.email dto.phone_number w)
        (with_changes dto) k w

  abbrev send_new_code : User → Option String → Exec (World env) (Unit {0})
  send_new_code user none = pure tt
  send_new_code user (some email) = do
    code ← generate_otp env user.id email_verification (some email)
    pure tt

  abbrev update_existing : UpdateBusiness → User → Option ℕ → Exec (World env) Response
  update_existing dto user none = pure (record {
    success = false;
    msg = text "Please create a business first";
    payload = empty_object;
  })
  update_existing dto user (some k) = do
    send_new_code user (nonempty dto.email)
    business ← change_business dto k
    pure (succeeded "" (business_row business))

  pub update_business : UpdateBusiness → User → Exec (World env) Response
  update_business dto user =
      try_catch (update_existing dto user user.business_id) (λ e. pure unexplained)

  -- `business.update` of the verified user's business
  abbrev verify_owned : Option ℕ → Exec (World env) Business
  verify_owned none = throw validation_error
  verify_owned (some k) = λ w. write_business with_confirmed_email (env.find k w.businesses) w

  -- Whose email the one-time password names is not asked. The wallets in the answer are left out.
  pub verify_business_email : List ℕ → Exec (World env) Response
  verify_business_email otp =
      try_catch
        (do
          verified ← verify_otp env otp email_verification none none
          if verified.valid
              then (do
                user ← defined verified.user
                business ← verify_owned user.business_id
                pure (succeeded "Email verified" (business_row business)))
              else pure (refused verified.msg))
        (λ e. pure (refused "Failed to verify email"))

  pub get_my_business : User → Exec (World env) Response
  get_my_business user =
      try_catch
        (do
          found ← find_business user.business_id
          pure (
              succeeded "Retrieved business successfully"
                (elim found [ none ↦ null | some b ↦ business_row b ])))
        (λ e. pure (refused "Failed to get a business"))
