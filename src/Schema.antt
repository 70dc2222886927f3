-- ===== src/Schema.antt =====
-- The tables of prisma/schema.prisma: the columns that the modelled services read or write.
-- Identifiers are only compared, so they are numbers.
-- The text of `otp` is the list of its code points.
-- Amounts are in thousandths of a naira, times in milliseconds since 1970.
use nfc_payment_api.Prelude.{ℕ, String, Bool, Option, List}
use nfc_payment_api.Prelude.Int.{ℤ}

pub data TransactionStatus : Type 0 where
  successful failed pending : TransactionStatus

pub data TransactionType : Type 0 where
  fund_wallet fund_card withdrawal payment transfer referral_bonus : TransactionType

pub data PaymentProcessor : Type 0 where
  flutterwave paystack : PaymentProcessor

pub data CardAction : Type 0 where
  attach dettach disable enable delete : CardAction

pub data Role : Type 0 where
  admin super_admin support agent merchant customer business : Role

pub data RoleInBusiness : Type 0 where
  admin viewer : RoleInBusiness

pub data UserAction : Type 0 where
  create update suspend delete : UserAction

-- `TwoFactoAuthType`
pub data TwoFactorType : Type 0 where
  email_otp auth_app : TwoFactorType

-- The columns of `User` that signing in reads or writes.
pub record Login : Type 0 where
  pub roles : List Role
  pub attempts : ℕ
  pub last_attempt : ℕ
  pub last_login : ℕ
  pub password_hash : Option String
  pub biometric_secret : Option String
  pub refresh_token : String
  pub two_factor_enabled : Bool
  pub two_factor_type : Option TwoFactorType
  pub two_factor_secret : Option String

pub record User : Type 0 where
  pub id : ℕ
  pub first_name : Option String
  pub last_name : Option String
  pub username : Option String
  pub phone_number : String
  pub email : Option String
  pub hash : Option String
  pub business_id : Option ℕ
  pub role_in_business : Option RoleInBusiness
  pub bank_account_id : Option ℕ
  pub active : Bool
  pub otp : Option (List ℕ)
  pub email_verified : Bool
  pub phone_number_verified : Bool
  pub login : Login

pub record Station : Type 0 where
  pub id : ℕ
  pub name : String
  pub active : Bool
  pub last_login : ℕ
  pub pin_hash : String
  pub refresh_token : String
  pub daily_balance : ℤ
  pub amount_is_fixed : Bool
  pub amount : ℤ
  pub business_id : ℕ

pub record Business : Type 0 where
  pub id : ℕ
  pub name : String
  pub email : String
  pub phone_number : String
  pub email_verified : Bool
  pub service_fee_percentage : ℕ

pub record Bank : Type 0 where
  pub slug : String
  pub code : String

-- An account with the bank that its `bankSlug` names, which the queries include.
pub record BankAccount : Type 0 where
  pub id : ℕ
  pub bank : Bank
  pub number : String
  pub account_name : String
  pub business_id : Option ℕ
  pub user_id : Option ℕ

pub record Wallet : Type 0 where
  pub id : ℕ
  pub balance : ℤ
  pub user_id : Option ℕ
  pub business_id : Option ℕ
  pub latest_transaction_timestamp : Option ℕ
  pub total_transaction_amount_today : ℤ

pub record Card : Type 0 where
  pub id : ℕ
  pub nfc_card_number : String
  pub hash : String
  pub name : Option String
  pub active : Bool
  pub wallet_id : Option ℕ
  pub balance : Option ℤ
  pub user_id : Option ℕ
  pub created_by_id : ℕ

pub record CardHistory : Type 0 where
  pub created_by_id : ℕ
  pub card_id : ℕ
  pub action : CardAction

pub record UserHistory : Type 0 where
  pub created_by_id : ℕ
  pub user_id : ℕ
  pub action : UserAction

-- The keys of a report and of a chat, which restrict the deletion of the users that they name.
pub record Report : Type 0 where
  pub created_by_id : ℕ
  pub user_id : ℕ

pub record Chat : Type 0 where
  pub from_id : ℕ
  pub to_id : ℕ

pub record Transaction : Type 0 where
  pub id : ℕ
  pub transaction_reference : String
  pub status : TransactionStatus
  pub wallet_id : Option ℕ
  pub card_id : Option ℕ
  pub type : TransactionType
  pub amount : ℤ
  pub recipient_id : Option ℕ
  pub created_by_id : Option ℕ
  pub narration : Option String
  pub processor_status : String
  pub processor_trx_id : Option ℕ
  pub processor : PaymentProcessor
  pub fee : ℤ
  pub business_id : Option ℕ
  pub station_id : Option ℕ
