-- ===== src/Webhook.antt =====
-- WebhooksService, src/webhooks/webhooks.service.ts, the verification of a charge by
-- CollectionAccountHelper (src/wallet/helpers/collection-account.helper.ts), and the listeners of
-- BankTransferEvent, src/webhooks/events/bank-transfer.event.ts.
pub mod Transfers
pub mod Charges
pub mod Credits
mod Tests
use nfc_payment_api.Prelude.{
  ℕ, ◌*◌, String, Bool, true, false, not, ◌&&◌, Option, none, some, List, [], ◌∷◌, ◌++◌, str_eq,
  same_id, same_text, if◌then◌else◌,
}
use nfc_payment_api.Prelude.Int.{ℤ, pos, eq_ℤ}
use nfc_payment_api.Schema.{
  User, Wallet, Transaction, TransactionType, TransactionStatus, PaymentProcessor, successful,
  failed, flutterwave, paystack,
}
use nfc_payment_api.External.{Env}
use nfc_payment_api.Exec.{
  Exec, Result, ok, err, validation_error, pure, throw, gets, defined, try_catch, all_or_nothing,
  ◌>>=◌, ◌>>◌,
}
use nfc_payment_api.Response.{UserWithWallet}
use nfc_payment_api.Registration.Referral.{handle_referral}
use nfc_payment_api.WebhookPayload.{
  FlutterwaveData, PaystackData, WebhookPayload, from_flutterwave, from_paystack,
}
use nfc_payment_api.World.{
  World, Event, charge_completed, charge_failed, wallet_funded, wallet_charged, transfer_failed,
  referral_validated, emit, update_wallet, update_transaction, find_of, find_reference,
  create_transaction,
}
use nfc_payment_api.World.Balances.{add_balance, take_balance}

-- The writes of a processed charge and of a transfer's outcome to its row.
abbrev pub mark_charged : String → Transaction → Transaction
mark_charged status t = record t { status = successful; processor_status = status }

abbrev pub mark_paid_out : ℤ → Transaction → Transaction
mark_paid_out fee t = record t { fee = fee; status = successful }

abbrev pub mark_failed : Transaction → Transaction
mark_failed t = record t { status = failed }

abbrev pub charge_row :
    UserWithWallet → Wallet → PaymentProcessor → String → ℤ → String → ℕ → Transaction
charge_row user wallet processor status amount reference id = record {
  id = 0;
  transaction_reference = reference;
  status = successful;
  wallet_id = some wallet.id;
  card_id = none;
  type = TransactionType.fund_wallet;
  amount = amount;
  recipient_id = some user.user.id;
  created_by_id = none;
  narration = none;
  processor_status = status;
  processor_trx_id = some id;
  processor = processor;
  fee = pos 0;
  business_id = none;
  station_id = none;
}

-- A value that a required argument of Prisma may lack.
abbrev required : {S A : Type 0} → Option A → Exec S A
required none = throw validation_error
required (some a) = pure a

module _ (env : Env) where
  abbrev verified : Option (String × ℤ) → ℤ → Bool
  verified none expected = false
  verified (some (status, amount)) expected = str_eq status "successful" && eq_ℤ amount expected

  -- What the processor says of the charge is the status and the amount of the payload.
  abbrev pub verify_transaction : ℕ → ℤ → Bool
  verify_transaction id amount = verified (env.verify_charge id) amount

  abbrev pub save : WebhookPayload → Exec (World env) (Unit {0})
  save p w = (ok tt, record w { webhooks = w.webhooks ++ p ∷ [] })

  abbrev pub user_of : World env → String → Option UserWithWallet
  user_of w email = elim (env.find_first (λ u. same_text u.email (some email)) w.users) [
    | none ↦ none
    | some u ↦ some (record {
      user = u;
      wallet = env.find_first (λ x. same_id x.user_id (some u.id)) w.wallets;
    })
  ]

  abbrev find_user_by_email : Option String → Exec (World env) (Option UserWithWallet)
  find_user_by_email email = do e ← required email; gets (λ w. user_of w e)

  abbrev pub find_transaction : Option String → Exec (World env) (Option Transaction)
  find_transaction reference = do ref ← required reference; gets (λ w. find_reference env w ref)

  -- The row that an event names: one whose processor status differs from the reported one.
  abbrev pub unprocessed : String → Option Transaction → Option ℕ
  unprocessed status none = none
  unprocessed status (some t) = if str_eq status t.processor_status then none else some t.id

  -- `BANK_TRANSFER_TRANSACTION`
  pub handle_charge : String → FlutterwaveData → Exec (World env) (Unit {0})
  handle_charge event d = do
    user ← find_user_by_email d.customer_email
    existing ← find_transaction d.trx_ref
    if not (verify_transaction d.id d.amount)
        then pure tt
        else if str_eq event "charge.completed" && str_eq d.status "successful"
        then emit env (
            charge_completed d.status d.amount d.trx_ref d.id user flutterwave
              (unprocessed d.status existing))
        else (do
          row ← defined existing
          emit env (charge_failed d.status d.amount d.trx_ref d.id user flutterwave (some row.id)))

  abbrev pub settle_transfer :
      (Wallet → Wallet) → (Transaction → Transaction) → Option ℕ → ℕ → Exec (World env) (Unit {0})
  settle_transfer pay mark wallet_id id =
      all_or_nothing
        (do k ← required wallet_id; update_wallet env k pay; update_transaction env id mark)

  -- `Transfer`: the row named by the reference is not asked whether it is settled already.
  pub handle_transfer : FlutterwaveData → Exec (World env) (Unit {0})
  handle_transfer d = do
    found ← find_transaction d.reference
    t ← defined found
    wallet ← gets (λ w. find_of env w.wallets t.wallet_id)
    if str_eq d.status "SUCCESSFUL"
        then (do
          settle_transfer (take_balance d.fee) (mark_paid_out d.fee) t.wallet_id t.id
          before ← defined wallet
          emit env (wallet_charged t.amount t.created_by_id (mark_paid_out d.fee t) before.balance))
        else if str_eq d.status "FAILED"
        then (do
          settle_transfer (add_balance t.amount) mark_failed t.wallet_id t.id
          before ← defined wallet
          emit env (transfer_failed t.amount t.created_by_id (mark_failed t) before.balance))
        else pure tt

  pub handle_flutterwave : String → String → FlutterwaveData → Exec (World env) (Unit {0})
  handle_flutterwave event event_type d =
      if str_eq event_type "BANK_TRANSFER_TRANSACTION"
      then handle_charge event d
      else if str_eq event_type "Transfer" && str_eq event "transfer.completed"
      then handle_transfer d
      else pure tt

  pub flutterwave_webhook : String → String → Option FlutterwaveData → Exec (World env) (Unit {0})
  flutterwave_webhook event event_type body =
      try_catch
        (do
          save (from_flutterwave event event_type body)
          d ← defined body
          handle_flutterwave event event_type d)
        (λ e. pure tt)

  -- A kobo is ten thousandths of a naira.
  pub handle_paystack : PaystackData → Exec (World env) (Unit {0})
  handle_paystack d = do
    user ← find_user_by_email d.customer_email
    existing ← find_transaction d.reference
    emit env (
        charge_completed d.status (pos (d.kobo * 10)) d.reference d.id user paystack
          (unprocessed d.status existing))

  pub paystack_webhook : String → Option PaystackData → Exec (World env) (Unit {0})
  paystack_webhook event body =
      try_catch
        (do
          save (from_paystack event body)
          d ← defined body
          if str_eq event "charge.success" then handle_paystack d else pure tt)
        (λ e. pure tt)

  -- The listener's two cases: the row that waits for the charge, or a new one.
  pub complete_row : String → ℤ → UserWithWallet → Wallet → ℕ → Exec (World env) (Unit {0})
  complete_row status amount user wallet t = do
    all_or_nothing (do
      update_transaction env t (mark_charged status)
      update_wallet env wallet.id (add_balance amount))
    row ← gets (λ w. env.find t w.transactions)
    emit env (wallet_funded amount user.user.id row wallet.balance)

  pub complete_new : Transaction → ℤ → UserWithWallet → Wallet → Exec (World env) (Unit {0})
  complete_new row amount user wallet = do
    created ←
        all_or_nothing
          (do update_wallet env wallet.id (add_balance amount); create_transaction env row)
    emit env (wallet_funded amount user.user.id (some created) wallet.balance)

  pub complete_charge :
      String
      → ℤ
      → Option String
      → ℕ
      → Option UserWithWallet
      → PaymentProcessor
      → Option ℕ
      → Exec (World env) (Unit {0})
  complete_charge status amount reference id user processor trx = do
    u ← defined user
    wallet ← defined u.wallet
    elim trx [
      | some t ↦ complete_row status amount u wallet t
      | none ↦ do
        ref ← required reference
        complete_new (charge_row u wallet processor status amount ref id) amount u wallet
    ]

  pub handle_charge_completed :
      String
      → ℤ
      → Option String
      → ℕ
      → Option UserWithWallet
      → PaymentProcessor
      → Option ℕ
      → Exec (World env) (Unit {0})
  handle_charge_completed status amount reference id user processor trx =
      try_catch (complete_charge status amount reference id user processor trx) (λ e. pure tt)

  -- The Prisma calls of `handleFailedEvent` are neither awaited nor handed on, and such a call
  -- sends no query: the listener of a failed charge writes nothing. Those of the other events send
  -- messages only.
  pub listen : Event → Exec (World env) (Unit {0})
  listen (charge_completed status amount reference id user processor trx) =
      handle_charge_completed status amount reference id user processor trx
  listen (referral_validated code user) = handle_referral env code user
  listen _ = pure tt

  -- The oldest event's listener runs.
  pub run_next : Exec (World env) (Unit {0})
  run_next w = elim w.events [ [] ↦ (ok tt, w) | e ∷ rest ↦ listen e (record w { events = rest }) ]
