-- ===== src/Registration.antt =====
-- Signing up: `signUp` and `registerUser` of src/auth/auth.service.ts, and `createWallet` of
-- src/wallet/wallet.service.ts. The country is left out, and the mails that are not waited for.
pub mod Username
pub mod Referral
pub mod Laws
pub mod Unique
mod Tests
use Prim.Native.String.{◌++◌ as append}
use nfc_payment_api.Prelude.{
  ℕ, String, Bool, true, false, Option, none, some, List, [], ◌∷◌, ◌++◌, nonempty, same_text,
  str_eq, is_some, if◌then◌else◌,
}
use nfc_payment_api.Prelude.Int.{pos}
use nfc_payment_api.Schema.{User, UserHistory, UserAction, Wallet, Role, Login}
use nfc_payment_api.External.{Env}
use nfc_payment_api.Exec.{
  Exec, Error, ok, err, column_taken, foreign_key_violation, pure, throw, gets, defined, try_catch,
  ◌>>=◌, ◌>>◌,
}
use nfc_payment_api.Response.{
  Response, Payload, UserWithWallet, found_user, signed_up, refused, succeeded,
}
use nfc_payment_api.World.{World, emit, referral_validated}
use nfc_payment_api.Otp.{email_verification, generate_otp}
use nfc_payment_api.SignIn.{new_access_token}
use nfc_payment_api.Card.{AddNfcCard, add_nfc_card}
use nfc_payment_api.Card.Agents.{bare}
use nfc_payment_api.Reset.{send_sms}
use nfc_payment_api.Registration.Username.{generate_username}

-- SignUpDto
pub record SignUp : Type 0 where
  pub role : Role
  pub first_name : String
  pub last_name : Option String
  pub username : Option String
  pub phone_number : String
  pub referral_code : Option String
  pub email : String
  pub nfc_card_number : Option String
  pub pin : Option String
  pub password : Option String

abbrev is_business : Role → Bool
is_business Role.business = true
is_business _ = false

abbrev is_customer : Role → Bool
is_customer Role.customer = true
is_customer _ = false

-- `data.user`
abbrev user_in : Payload → Option UserWithWallet
user_in (found_user u) = some u
user_in _ = none

-- The column that a violation names is the first in the order of the migrations.
abbrev refuse_taken_user : String → {S : Type 0} → Error → Exec S Response
refuse_taken_user m (column_taken column) =
    pure (refused (append "This " (append column " is already taken")))
refuse_taken_user m _ = pure (refused m)

module _ (env : Env) where
  abbrev hash_of : Option String → Option String
  hash_of none = none
  hash_of (some plain) = some (env.hash plain)

  abbrev pub new_user : SignUp → String → User
  new_user dto name = record {
    id = 0;
    first_name = some dto.first_name;
    last_name = dto.last_name;
    username = some name;
    phone_number = dto.phone_number;
    email = some dto.email;
    hash = hash_of (nonempty dto.pin);
    business_id = none;
    role_in_business = none;
    bank_account_id = none;
    active = true;
    otp = none;
    email_verified = false;
    phone_number_verified = false;
    login = record {
      roles = dto.role ∷ [];
      attempts = 0;
      last_attempt = env.now;
      last_login = env.now;
      password_hash = if is_business dto.role then hash_of (nonempty dto.password) else none;
      biometric_secret = none;
      refresh_token = "";
      two_factor_enabled = false;
      two_factor_type = none;
      two_factor_secret = none;
    };
  }

  abbrev pub taken_column : User → World env → Option String
  taken_column u w =
      if is_some (env.find_first (λ a. same_text a.username u.username) w.users)
      then some "Username"
      else if is_some (env.find_first (λ a. str_eq a.phone_number u.phone_number) w.users)
      then some "Phone Number"
      else if is_some (env.find_first (λ a. same_text a.email u.email) w.users)
      then some "Email"
      else none

  abbrev insert_unless : Option String → User → Exec (World env) User
  insert_unless (some column) u w = (err (column_taken column), w)
  insert_unless none u w =
      let row : User = record u { id = env.new_id w.users } in
      (ok row, record w { users = env.write row.id row w.users })

  -- `user.create`
  pub insert_user : User → Exec (World env) User
  insert_user u w = insert_unless (taken_column u w) u w

  abbrev pub new_wallet : ℕ → Option ℕ → Option ℕ → Wallet
  new_wallet k user business = record {
    id = k;
    balance = pos 0;
    user_id = user;
    business_id = business;
    latest_transaction_timestamp = none;
    total_transaction_amount_today = pos 0;
  }

  insert_wallet : ℕ → Exec (World env) Wallet
  insert_wallet user w =
      if is_some (env.find user w.users)
      then (let row = new_wallet (env.new_id w.wallets) (some user) none in
          (ok row, record w { wallets = env.write row.id row w.wallets }))
      else (err foreign_key_violation, w)

  -- An error is logged, and the wallet is undefined.
  pub create_wallet : ℕ → Exec (World env) (Option Wallet)
  create_wallet user =
      try_catch (do wallet ← insert_wallet user; pure (some wallet)) (λ e. pure none)

  -- Whether the card could be added is not asked.
  pub add_first_card : User → Option Wallet → String → Option String → Exec (World env) (Unit {0})
  add_first_card user wallet name none = pure tt
  add_first_card user wallet name (some number) = do
    own ← defined wallet
    answer ←
        add_nfc_card env user.id (bare (record { user = user; wallet = some own })) (record {
          nfc_card_number = number;
          pin = none;
          wallet_id = some own.id;
          name = some name;
        })
    pure tt

  abbrev validate_referral : Option String → ℕ → Exec (World env) (Unit {0})
  validate_referral none k = pure tt
  validate_referral (some code) k = emit env (referral_validated code k)

  abbrev username_for : SignUp → World env → String
  username_for dto w = elim (nonempty dto.username) [
    | none ↦ generate_username env dto.first_name w
    | some name ↦ name
  ]

  abbrev create_user : SignUp → (by_sms : Bool) → Exec (World env) Response
  create_user dto by_sms = do
    name ← gets (username_for dto)
    user ← insert_user (new_user dto name)
    wallet ← create_wallet user.id
    add_first_card user wallet name (nonempty dto.nfc_card_number)
    code ← generate_otp env user.id email_verification user.email
    validate_referral (nonempty dto.referral_code) user.id
    if by_sms then send_sms env (some dto.phone_number) else pure tt
    pure (
        succeeded "Sign up successful, check your email for verification email"
          (signed_up user.id (new_access_token env user.id (some user.phone_number))))

  pub sign_up : SignUp → (by_sms : Bool) → Exec (World env) Response
  sign_up dto by_sms =
      try_catch (create_user dto by_sms)
        (refuse_taken_user "An error occurred while creating the user")

  abbrev create_user_history : UserHistory → Exec (World env) (Unit {0})
  create_user_history h w =
      if is_some (env.find h.created_by_id w.users)
      then if is_some (env.find h.user_id w.users)
        then (ok tt, record w { user_histories = w.user_histories ++ h ∷ [] })
        else (err foreign_key_violation, w)
      else (err foreign_key_violation, w)

  -- The history reads `data.user.id` of an answer that has `userId`.
  abbrev record_creation : Response → (agent : ℕ) → Exec (World env) (Unit {0})
  record_creation r agent =
      if r.success
      then (do
        u ← defined (user_in r.payload)
        create_user_history
            (record { created_by_id = agent; user_id = u.user.id; action = UserAction.create }))
      else pure tt

  -- By an agent.
  pub register_user : SignUp → (agent : ℕ) → Exec (World env) Response
  register_user dto agent =
      if is_customer dto.role
      then try_catch (do r ← sign_up dto true; record_creation r agent; pure r)
          (λ e. pure (refused "Failed to register user"))
      else pure (refused "Invalid role option")
