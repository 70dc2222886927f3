-- ===== src/BankAccounts/Tests.antt =====
-- Bank accounts on the database of `Samples`, src/user/user.service.ts.
use nfc_payment_api.Prelude.{String, ◌≡◌, refl, true, false, none, some, [], ◌∷◌, arith}
use nfc_payment_api.Schema.{User, Bank, BankAccount}
use nfc_payment_api.External.{ResolvedAccount}
use nfc_payment_api.External.Memory.{memory, memory-IsLawful}
use nfc_payment_api.Exec.{ok, ◌>>=◌}
use nfc_payment_api.Otp.{starts_with}
use nfc_payment_api.Response.{Response, UserWithWallet, bank_account, succeeded}
use nfc_payment_api.World.{World}
use nfc_payment_api.BankAccounts.{
  AddBankAccount, FullName, contains, includes_text, create_bank_account, add_bank_account,
}
use nfc_payment_api.BankAccounts.Laws.{unchecked, unchecked_account_is_added, added_account_is_own}
use nfc_payment_api.Prelude.Int.{naira}
use nfc_payment_api.Payment.Inactive.{is_success}
use nfc_payment_api.Withdrawal.{WithdrawIntoBankAccount, user_withdraw}
use nfc_payment_api.BankAccounts.Withdrawals.{added_users, added_account_withdraws_nothing}
use nfc_payment_api.Samples.{start, merchant, ada}

abbrev obi : User
obi = record merchant { first_name = some "ADA"; last_name = some "OBI" }

abbrev names : FullName
names = record { first = "ADA"; last = "OBI" }

abbrev access_bank : Bank
access_bank = record { slug = "access-bank"; code = "057" }

abbrev anything : AddBankAccount
anything = record { bank_slug = "access-bank"; number = "42" }

abbrev stored : BankAccount
stored = unchecked memory memory-IsLawful anything obi names start refl access_bank

unchecked_account_is_added_example :
    let r = add_bank_account memory anything obi false start in
    (r.0 ≡ ok (succeeded "The bank account has been added successfully" (bank_account stored)))
    × (memory.find 1 r.1.bank_accounts ≡ some stored)
    × (stored.number ≡ "42")
unchecked_account_is_added_example =
    unchecked_account_is_added memory memory-IsLawful anything obi names start refl access_bank refl
      refl refl

abbrev own : AddBankAccount
own = record { bank_slug = "zenith"; number = "0123456780" }

abbrev own_account : BankAccount
own_account = record stored {
  bank = record { slug = "zenith"; code = "057" };
  number = "0123456780";
  account_name = "ADA OBI";
}

abbrev after_own : World memory
after_own = (add_bank_account memory own obi false start).1

abbrev own_answer : Response
own_answer = succeeded "The bank account has been added successfully" (bank_account own_account)

own_added : add_bank_account memory own obi false start ≡ (ok own_answer, after_own)
unfolding add_bank_account create_bank_account contains starts_with ◌>>=◌
own_added = refl

added_account_is_own_example :
    (bank : Bank) × (answer : ResolvedAccount) × (account : String) × (memory.find_bank "zenith"
      ≡ some bank)
    × (memory.resolve_account "0123456780" bank.code ≡ some answer)
    × (answer.account_name ≡ some account)
    × (includes_text (memory.lower_case account) (memory.lower_case "ADA") ≡ true)
    × (includes_text (memory.lower_case account) (memory.lower_case "OBI") ≡ true)
    × (memory.banks_cached ≡ false)
added_account_is_own_example =
    added_account_is_own memory memory-IsLawful own obi names start refl false own_answer after_own
      refl own_added refl

-- A user without a bank account adds one and withdraws.
abbrev penniless : UserWithWallet
penniless = record ada { user = record ada.user { bank_account_id = none } }

abbrev resident : World memory
resident = record start { users = some penniless.user ∷ [] }

abbrev banked : World memory
banked = (add_bank_account memory own penniless.user false resident).1

abbrev payday : WithdrawIntoBankAccount
payday = record { requested_amount = naira 40000; password = "1234"; narration = none }

added_account_withdraws_nothing_example :
    (is_success (user_withdraw memory penniless payday banked).0 ≡ false)
    × ((user_withdraw memory penniless payday banked).1 ≡ banked)
added_account_withdraws_nothing_example =
    added_account_withdraws_nothing memory own penniless.user false resident 0 penniless payday refl
      refl (ground (arith, added_users memory own penniless.user false resident))
