-- ===== src/Registration/Tests.antt =====
-- Signing up on the database of `Samples`, src/auth/auth.service.ts.
use nfc_payment_api.Prelude.{ℕ, ◌≡◌, refl, true, false, Option, none, some, List, []}
use nfc_payment_api.Prelude.Int.{naira}
use nfc_payment_api.Schema.{User, Wallet, Card, Role}
use nfc_payment_api.External.{Env, IsLawful}
use nfc_payment_api.External.Memory.{memory, memory-IsLawful}
use nfc_payment_api.Exec.{ok}
use nfc_payment_api.Response.{refused}
use nfc_payment_api.World.{World}
use nfc_payment_api.Otp.{with_otp}
use nfc_payment_api.Registration.{SignUp, sign_up}
use nfc_payment_api.Registration.Laws.{
  row, wallet, welcome, taken_over, sign_up_creates, failed_sms_keeps_user, sign_up_takes_card,
}
use nfc_payment_api.Samples.{start, prepaid_card}

abbrev eve : SignUp
eve = record {
  role = Role.customer;
  first_name = "Eve";
  last_name = none;
  username = some "eve";
  phone_number = "+2348012345671";
  referral_code = none;
  email = "eve@stark.pay";
  nfc_card_number = none;
  pin = some "123456";
  password = none;
}

abbrev new_row : User
new_row = row memory memory-IsLawful eve "eve" start refl refl

abbrev own_wallet : Wallet
own_wallet = wallet memory memory-IsLawful eve "eve" start refl refl

sign_up_creates_example :
    let r = sign_up memory eve false start in
    (r.0 ≡ ok (welcome memory new_row))
    × ((text : Option (List ℕ)) × (memory.find 2 r.1.users ≡ some (with_otp text new_row)))
    × (memory.find 3 r.1.wallets ≡ some own_wallet)
    × ((j : ℕ) (a : User) → memory.find j start.users ≡ some a → memory.find j r.1.users ≡ some a)
    × ((j : ℕ) (a : Wallet)
        → memory.find j start.wallets ≡ some a
        → memory.find j r.1.wallets ≡ some a)
sign_up_creates_example = sign_up_creates memory memory-IsLawful eve "eve" start refl refl refl

-- Eve signs up with the card of the first customer, which has 25,000 naira on it.
abbrev thief : SignUp
thief = record eve { nfc_card_number = some "1804837822" }

abbrev stolen : Card
stolen =
    taken_over memory memory-IsLawful thief "eve" start refl refl "1804837822" prepaid_card refl
      refl refl

sign_up_takes_card_example :
    let r = sign_up memory thief false start in
    (memory.find 1 r.1.cards ≡ some stolen)
    × (stolen.balance ≡ some (naira 25000))
    × (stolen.user_id ≡ some 2)
sign_up_takes_card_example =
    sign_up_takes_card memory memory-IsLawful thief "eve" start refl refl "1804837822" prepaid_card
      refl refl refl false

-- The search of a number is answered without data.
abbrev mute : Env
mute = record memory { search_number = λ number. some (record { data_status = none }) }

abbrev mute_start : World mute
mute_start = record {
  users = start.users;
  stations = [];
  businesses = [];
  bank_accounts = [];
  wallets = start.wallets;
  cards = [];
  transactions = [];
  card_histories = [];
  user_histories = [];
  reports = [];
  chats = [];
  webhooks = [];
  payouts = [];
  events = [];
}

mute-IsLawful : IsLawful mute
mute-IsLawful = record {
  verify-hash = memory-IsLawful.verify-hash;
  find-write = memory-IsLawful.find-write;
  find-remove = memory-IsLawful.find-remove;
  find-remove_rows = memory-IsLawful.find-remove_rows;
  find-map_rows = memory-IsLawful.find-map_rows;
  find-new_id = memory-IsLawful.find-new_id;
  find_first_sound = memory-IsLawful.find_first_sound;
  find_first_complete = memory-IsLawful.find_first_complete;
  listed_complete = memory-IsLawful.listed_complete;
  ordered-listed = memory-IsLawful.ordered-listed;
}

failed_sms_keeps_user_example :
    let r = sign_up mute eve true mute_start in
    (r.0 ≡ ok (refused "An error occurred while creating the user"))
    × ((text : Option (List ℕ)) × (mute.find 2 r.1.users ≡ some (with_otp text new_row)))
    × (sign_up mute eve false r.1 ≡ (ok (refused "This Username is already taken"), r.1))
failed_sms_keeps_user_example =
    failed_sms_keeps_user mute mute-IsLawful eve "eve" mute_start refl refl refl refl
      (record { data_status = none }) refl refl false
