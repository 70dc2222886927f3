-- ===== src/Webhook/Tests.antt =====
-- The webhooks on the database of `Samples`, src/webhooks/webhooks.service.ts.
use nfc_payment_api.Prelude.{◌≡◌, refl, some, none, [], ◌∷◌}
use nfc_payment_api.Prelude.Int.{pos, naira}
use nfc_payment_api.Schema.{Transaction, TransactionType, pending, flutterwave}
use nfc_payment_api.External.Memory.{memory, memory-IsLawful}
use nfc_payment_api.WebhookPayload.{FlutterwaveData}
use nfc_payment_api.World.{World}
use nfc_payment_api.World.References.{IsSole, IsSole-create}
use nfc_payment_api.Webhook.Charges.{charged, settled, IsExpected}
use nfc_payment_api.Webhook.Credits.{charge_credited_once}
use nfc_payment_api.Samples.{start, customer_wallet, ada}

-- A row that waits for a charge of 250 naira, or for the outcome of a transfer.
abbrev waiting : Transaction
waiting = record {
  id = 0;
  transaction_reference = "stark-pay-fund-wallet-1";
  status = pending;
  wallet_id = some 0;
  card_id = none;
  type = TransactionType.fund_wallet;
  amount = naira 250;
  recipient_id = some 0;
  created_by_id = none;
  narration = none;
  processor_status = "failed";
  processor_trx_id = none;
  processor = flutterwave;
  fee = pos 0;
  business_id = none;
  station_id = none;
}

abbrev ledger : Transaction → World memory
ledger t = record start { transactions = some t ∷ [] }

abbrev charge : FlutterwaveData
charge = record {
  id = 5;
  amount = naira 250;
  status = "successful";
  customer_email = some "ada@stark.pay";
  trx_ref = some "stark-pay-fund-wallet-1";
  reference = none;
  fee = pos 0;
}

only_row : IsSole memory (ledger waiting) "stark-pay-fund-wallet-1" waiting
only_row = IsSole-create memory memory-IsLawful start (ledger waiting) waiting refl refl refl

abbrev expected :
    IsExpected memory charge
      (ledger waiting)
      "stark-pay-fund-wallet-1"
      waiting
      ada
      customer_wallet
      customer_wallet
expected = record {
  email = "ada@stark.pay";
  verified = refl;
  completed = refl;
  named = refl;
  sole = only_row;
  new = refl;
  given = refl;
  known = refl;
  holds = refl;
  listed = refl;
}

abbrev once : World memory
once = settled memory (charged memory "charge.completed" charge (ledger waiting))

charge_credited_once_example :
    ((settled memory (charged memory "charge.completed" charge once)).wallets ≡ once.wallets)
    × ((settled memory (charged memory "charge.completed" charge once)).transactions
        ≡ once.transactions)
charge_credited_once_example =
    charge_credited_once memory memory-IsLawful charge (ledger waiting) "stark-pay-fund-wallet-1"
      waiting ada customer_wallet customer_wallet expected refl "charge.completed"
