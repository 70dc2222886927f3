-- ===== src/Withdrawal.antt =====
-- `withdrawToBank` and `userWithdraw` of WalletService, src/wallet/wallet.service.ts, and
-- BankTranferHelper, src/wallet/helpers/bank-transfer.helper.ts.
pub mod Needs
pub mod Posting
pub mod Laws
pub mod Business
mod Tests
use nfc_payment_api.Prelude.{
  ℕ, String, Bool, true, false, not, Option, none, some, List, [], ◌∷◌, ◌++◌, is_some,
  if◌then◌else◌,
}
use nfc_payment_api.Prelude.Int.{ℤ, pos, ltb_ℤ, eq_ℤ, naira}
use nfc_payment_api.Schema.{BankAccount, Wallet, Transaction, TransactionType, pending, flutterwave}
use nfc_payment_api.External.{Env, Payout, TransferAnswer, no_data, threw, answered}
use nfc_payment_api.Exec.{
  Exec, Error, ok, http, text, validation_error, type_error, pure, throw, gets, defined, throw_if,
  try_catch, all_or_nothing, ◌>>=◌, ◌>>◌,
}
use nfc_payment_api.Response.{Response, UserWithWallet, transaction, refused, succeeded}
use nfc_payment_api.World.{World, update_wallet, create_transaction}
use nfc_payment_api.World.Balances.{take_balance}
use nfc_payment_api.Reference.{generate}

-- WithdrawIntoBankAccountDto: the narration is validated as a number.
pub record WithdrawIntoBankAccount : Type 0 where
  pub requested_amount : ℤ
  pub password : String
  pub narration : Option ℕ

-- `response.data` of the processor: the reference and the amount of the transfer.
pub record TransferData : Type 0 where
  pub reference : String
  pub amount : ℤ

-- What `withdrawToBank` returns: a success with reference and amount, or a failure with a message.
pub data WithdrawAnswer : Type 0 where
  requested : TransferData → WithdrawAnswer
  not_requested : String → WithdrawAnswer
  -- a success whose amount is undefined
  requested_reference : String → WithdrawAnswer

-- What `flutterwaveTransfer` returns as data: that of the answer, the reference alone, or undefined.
pub data TransferReply : Type 0 where
  with_data : TransferData → TransferReply
  with_reference : String → TransferReply
  without_data : TransferReply

-- The data of an answer, whatever its status says.
abbrev pub data_of : TransferAnswer → Option TransferData
data_of no_data = none
data_of threw = none
data_of (answered success reference amount) =
    some (record { reference = reference; amount = amount })

abbrev is_thrown : TransferAnswer → Bool
is_thrown threw = true
is_thrown _ = false

abbrev fails_with : {S : Type 0} → String → Error → Exec S Response
fails_with m (http status n) = throw (http status n)
fails_with m _ = pure (refused m)

module _ (env : Env) where
  abbrev pub payout : ℤ → BankAccount → Payout
  payout amount account = record {
    amount = amount;
    bank_code = account.bank.code;
    number = account.number;
    reference = generate env TransactionType.withdrawal;
  }

  -- A call that throws is caught, and its data is the reference that was generated.
  abbrev pub reply_of : Payout → TransferReply
  reply_of p = elim (data_of (env.initiate_transfer p)) [
    | some d ↦ with_data d
    | none ↦
        if is_thrown (env.initiate_transfer p) then with_reference p.reference else without_data
  ]

  pub flutterwave_transfer : ℤ → BankAccount → Exec (World env) TransferReply
  flutterwave_transfer amount account w = (
    ok (reply_of (payout amount account)),
    record w { payouts = w.payouts ++ payout amount account ∷ [] },
  )

  -- `if (withdrawalAmount) { … }`, where 0 is no limit
  abbrev exceeds : Option ℤ → ℤ → Option Wallet → Exec (World env) Bool
  exceeds none amount wallet = pure false
  exceeds (some limit) amount wallet =
      if eq_ℤ limit (pos 0)
      then pure false
      else if ltb_ℤ limit amount
      then pure true
      else (do w ← defined wallet; pure (ltb_ℤ w.balance amount))

  -- `const { reference, amount } = response.data;`
  abbrev answer_of : TransferReply → Exec (World env) WithdrawAnswer
  answer_of (with_data d) = pure (requested d)
  answer_of (with_reference r) = pure (requested_reference r)
  answer_of without_data = throw type_error

  pub request_transfer : ℤ → BankAccount → Exec (World env) WithdrawAnswer
  request_transfer amount account = do reply ← flutterwave_transfer amount account; answer_of reply

  pub check_account :
      Option ℤ → ℤ → Option BankAccount → Option Wallet → Exec (World env) WithdrawAnswer
  check_account limit amount none wallet = pure (not_requested "Please add a bank account first.")
  check_account limit amount (some account) wallet = do
    short ← exceeds limit amount wallet
    if short then pure (not_requested "Insufficient balance") else request_transfer amount account

  -- `findUnique` refuses a null identifier.
  abbrev key : Option ℕ → Exec (World env) ℕ
  key none = throw validation_error
  key (some k) = pure k

  pub withdraw_to_bank : Option ℕ → ℕ → ℤ → Option ℤ → Exec (World env) WithdrawAnswer
  withdraw_to_bank account_id wallet_id amount limit =
      try_catch
        (if ltb_ℤ amount (naira 100)
          then pure (not_requested "Amount is below minimum limit of 100")
          else (do
            k ← key account_id
            account ← gets (λ w. env.find k w.bank_accounts)
            wallet ← gets (λ w. env.find wallet_id w.wallets)
            check_account limit amount account wallet))
        (λ e. pure (not_requested ""))

  abbrev pub withdrawal_row : UserWithWallet → Wallet → TransferData → Transaction
  withdrawal_row user wallet d = record {
    id = 0;
    transaction_reference = d.reference;
    status = pending;
    wallet_id = some wallet.id;
    card_id = none;
    type = TransactionType.withdrawal;
    amount = d.amount;
    recipient_id = some user.user.id;
    created_by_id = some user.user.id;
    narration = none;
    processor_status = "failed";
    processor_trx_id = none;
    processor = flutterwave;
    fee = pos 0;
    business_id = none;
    station_id = none;
  }

  -- The debit and the row, both or neither. The narration is a column of text, which refuses a
  -- number.
  pub post_withdrawal :
      UserWithWallet → Wallet → Option ℕ → TransferData → Exec (World env) Transaction
  post_withdrawal user wallet narration d = all_or_nothing (do
    update_wallet env wallet.id (take_balance d.amount)
    throw_if (is_some narration) validation_error
    create_transaction env (withdrawal_row user wallet d))

  -- The row for a request that was not made lacks its required reference and amount.
  pub record_withdrawal :
      UserWithWallet → Wallet → Option ℕ → WithdrawAnswer → Exec (World env) Response
  record_withdrawal user wallet narration (requested d) = do
    row ← post_withdrawal user wallet narration d
    pure (succeeded "Withdrawal request made successfully" (transaction row))
  record_withdrawal user wallet narration (not_requested m) = throw validation_error
  -- An undefined amount is refused, in the debit and in the row.
  record_withdrawal user wallet narration (requested_reference r) = throw validation_error

  pub withdraw : UserWithWallet → WithdrawIntoBankAccount → Exec (World env) Response
  withdraw user dto = do
    wallet ← defined user.wallet
    answer ← withdraw_to_bank user.user.bank_account_id wallet.id dto.requested_amount none
    record_withdrawal user wallet dto.narration answer

  pub user_withdraw : UserWithWallet → WithdrawIntoBankAccount → Exec (World env) Response
  user_withdraw user dto =
      try_catch
        (do
          hash ← defined user.user.hash
          if env.verify hash dto.password
              then withdraw user dto
              else pure (refused "Incorrect password"))
        (fails_with "failed to make withdrawal request")
