-- ===== src/Response.antt =====
-- `CustomResponse` of src/common/types/response.type.ts, with the payloads that the services return.
use nfc_payment_api.Prelude.{ℕ, String, Bool, true, false, Option, List}
use nfc_payment_api.Schema.{BankAccount, Business, Card, Station, Transaction, User, Wallet}
use nfc_payment_api.Exec.{Message, text}

-- A user with `wallets[0]`, which is undefined if there is none.
pub record UserWithWallet : Type 0 where
  pub user : User
  pub wallet : Option Wallet

-- A row of the ledger with `createdBy` and `recipient`, which the queries include.
pub record TransactionWithUsers : Type 0 where
  pub transaction : Transaction
  pub created_by : Option User
  pub recipient : Option User

pub data Payload : Type 0 where
  null : Payload
  -- `{}`
  empty_object : Payload
  transaction : Transaction → Payload
  transactions : List Transaction → Payload
  -- the rows, and the total that is reported with them
  transaction_page : List TransactionWithUsers → ℕ → Payload
  found_user : UserWithWallet → Payload
  -- a user less the fields that `safeUser` removes
  safe_user : User → Payload
  -- and whether the email was updated
  updated_user : User → Bool → Payload
  station_row : Station → Payload
  -- who signed in, with the access token, the refresh token and, at a first sign-in, the device
  user_session : User → String → String → Option String → Payload
  station_session : Station → String → String → Payload
  tokens : String → String → Payload
  user_id : ℕ → Payload
  -- a new user, with the access token
  signed_up : ℕ → String → Payload
  business_row : Business → Payload
  bank_account : BankAccount → Payload
  two_factor_setup : (secret : String) → ℕ → Payload
  -- bank and number of an account
  account : Option String → Option String → Payload
  -- a card, with its hash or without it
  whole_card : Card → Payload
  card_less_hash : Card → Payload

pub record Response : Type 0 where
  pub success : Bool
  pub msg : Message
  pub payload : Payload

abbrev pub refused : String → Response
refused m = record { success = false; msg = text m; payload = null }

abbrev pub succeeded : String → Payload → Response
succeeded m p = record { success = true; msg = text m; payload = p }
