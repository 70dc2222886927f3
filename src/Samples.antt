-- ===== src/Samples.antt =====
-- A database of two customers, a merchant, a business with one station, and three cards.
use nfc_payment_api.Prelude.{true, false, none, some, [], ◌∷◌}
use nfc_payment_api.Prelude.Int.{pos, naira}
use nfc_payment_api.Schema.{Role, User, Station, Business, BankAccount, Wallet, Card}
use nfc_payment_api.External.Memory.{memory}
use nfc_payment_api.Response.{UserWithWallet}
use nfc_payment_api.World.{World}

abbrev pub customer : User
customer = record {
  id = 0;
  first_name = none;
  last_name = none;
  username = some "ada";
  phone_number = "+2348012345678";
  email = some "ada@stark.pay";
  hash = some "1234";
  business_id = none;
  role_in_business = none;
  bank_account_id = none;
  active = true;
  otp = none;
  email_verified = true;
  phone_number_verified = true;
  login = record {
    roles = Role.customer ∷ [];
    attempts = 0;
    last_attempt = 0;
    last_login = 0;
    password_hash = some "Secret1";
    biometric_secret = none;
    refresh_token = "";
    two_factor_enabled = false;
    two_factor_type = none;
    two_factor_secret = none;
  };
}

abbrev pub merchant : User
merchant = record customer {
  id = 1;
  username = some "bola";
  phone_number = "+2348012345679";
  email = some "bola@stark.pay";
}

abbrev pub bus : Station
bus = record {
  id = 0;
  name = "Bus 1";
  active = true;
  last_login = 0;
  pin_hash = "5678";
  refresh_token = "";
  daily_balance = pos 0;
  amount_is_fixed = false;
  amount = pos 0;
  business_id = 0;
}

-- A station that charges 20,000 naira.
abbrev pub boat : Station
boat = record bus { id = 2; name = "Boat 1"; amount_is_fixed = true; amount = naira 20000 }

abbrev pub line : Business
line = record {
  id = 0;
  name = "Line";
  email = "line@stark.pay";
  phone_number = "+2348012345670";
  email_verified = true;
  service_fee_percentage = 5;
}

abbrev pub customer_wallet : Wallet
customer_wallet = record {
  id = 0;
  balance = naira 30000;
  user_id = some 0;
  business_id = none;
  latest_transaction_timestamp = none;
  total_transaction_amount_today = pos 0;
}

abbrev pub merchant_wallet : Wallet
merchant_wallet = record customer_wallet { id = 1; balance = naira 700; user_id = some 1 }

abbrev pub line_wallet : Wallet
line_wallet = record customer_wallet {
  id = 2;
  balance = pos 0;
  user_id = none;
  business_id = some 0;
}

abbrev pub wallet_card : Card
wallet_card = record {
  id = 0;
  nfc_card_number = "1804837821";
  hash = "secret 0";
  name = none;
  active = true;
  wallet_id = some 0;
  balance = none;
  user_id = some 0;
  created_by_id = 1;
}

abbrev pub prepaid_card : Card
prepaid_card = record wallet_card {
  id = 1;
  nfc_card_number = "1804837822";
  hash = "secret 1";
  balance = some (naira 25000);
}

abbrev pub account : BankAccount
account = record {
  id = 0;
  bank = record { slug = "zenith"; code = "057" };
  number = "0123456789";
  account_name = "Ada";
  business_id = none;
  user_id = some 0;
}

abbrev pub start : World memory
start = record {
  users = some customer ∷ some merchant ∷ [];
  stations = some bus ∷ none ∷ some boat ∷ [];
  businesses = some line ∷ [];
  bank_accounts = some account ∷ [];
  wallets = some customer_wallet ∷ some merchant_wallet ∷ some line_wallet ∷ [];
  cards = some wallet_card ∷ some prepaid_card ∷ [];
  transactions = [];
  card_histories = [];
  user_histories = [];
  reports = [];
  chats = [];
  webhooks = [];
  payouts = [];
  events = [];
}

-- The customer with a bank account.
abbrev pub saver : UserWithWallet
saver = record {
  user = record customer { bank_account_id = some 0 };
  wallet = some customer_wallet;
}

abbrev pub ada : UserWithWallet
ada = record { user = customer; wallet = some customer_wallet }
