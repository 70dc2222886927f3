-- ===== src/Funding/Tests.antt =====
-- The funding of wallets on the database of `Samples`, src/wallet/wallet.service.ts.
use nfc_payment_api.Prelude.{◌≡◌, refl, some, none, []}
use nfc_payment_api.Prelude.Int.{pos, naira, ◌+ℤ◌, ◌≤ℤ◌}
use nfc_payment_api.External.{Env}
use nfc_payment_api.External.Memory.{memory, memory-IsLawful}
use nfc_payment_api.Exec.{ok, ◌>>=◌}
use nfc_payment_api.Response.{Response, account, succeeded}
use nfc_payment_api.WebhookPayload.{FlutterwaveData}
use nfc_payment_api.World.{World, create_transaction}
use nfc_payment_api.World.Balances.{balance_at}
use nfc_payment_api.World.References.{IsSole}
use nfc_payment_api.Reference.{generate}
use nfc_payment_api.Webhook.Charges.{charged, settled}
use nfc_payment_api.Funding.{
  funding_row, open_account, fund_within_limits, fund_wallet_with_bank_transfer,
}
use nfc_payment_api.Funding.Laws.{new_funding, funding_is_limited, funded_wallet_is_credited}
use nfc_payment_api.Samples.{start, ada, customer_wallet}

abbrev top_up_answer : Response
top_up_answer =
    succeeded "Bank account created successfully." (account (some "Zenith") (some "0123456789"))

abbrev after_top_up : World memory
after_top_up =
    (fund_wallet_with_bank_transfer memory ada (some customer_wallet) (naira 250) start).1

top_up_resolves :
    fund_wallet_with_bank_transfer memory ada (some customer_wallet) (naira 250) start
    ≡ (ok top_up_answer, after_top_up)
unfolding fund_wallet_with_bank_transfer fund_within_limits open_account create_transaction generate
    ◌>>=◌ ◌+ℤ◌
top_up_resolves = refl

funding_is_limited_example :
    (naira 250 ≤ℤ naira 50000)
    × (naira 250 +ℤ customer_wallet.balance ≤ℤ naira 300000)
    × (after_top_up.wallets ≡ start.wallets)
    × IsSole memory after_top_up
        (funding_row memory ada.user customer_wallet (naira 250)).transaction_reference
        (new_funding memory ada customer_wallet (naira 250) start)
funding_is_limited_example =
    funding_is_limited memory ada customer_wallet customer_wallet (naira 250) start after_top_up
      top_up_answer memory-IsLawful refl top_up_resolves refl

-- A processor that creates no account.
abbrev silent : Env
silent = record memory { create_account = λ email amount reference. none }

abbrev silent_start : World silent
silent_start = record {
  users = start.users;
  stations = start.stations;
  businesses = start.businesses;
  bank_accounts = start.bank_accounts;
  wallets = start.wallets;
  cards = start.cards;
  transactions = start.transactions;
  card_histories = [];
  user_histories = [];
  reports = [];
  chats = [];
  webhooks = [];
  payouts = [];
  events = [];
}

abbrev transfer_notice : FlutterwaveData
transfer_notice = record {
  id = 5;
  amount = naira 250;
  status = "successful";
  customer_email = some "ada@stark.pay";
  trx_ref = some "stark-pay-fund-wallet-86400000";
  reference = none;
  fee = pos 0;
}

top_up_events : after_top_up.events ≡ []
unfolding fund_wallet_with_bank_transfer fund_within_limits open_account create_transaction generate
    ◌>>=◌ ◌+ℤ◌
top_up_events = refl

funded_wallet_is_credited_example :
    balance_at memory
      (settled memory (charged memory "charge.completed" transfer_notice after_top_up))
      0
    ≡ some (customer_wallet.balance +ℤ naira 250)
unfolding fund_wallet_with_bank_transfer fund_within_limits open_account create_transaction generate
    ◌>>=◌ ◌+ℤ◌
funded_wallet_is_credited_example =
    funded_wallet_is_credited memory ada ada customer_wallet customer_wallet customer_wallet
      (naira 250) start after_top_up top_up_answer transfer_notice "ada@stark.pay" memory-IsLawful
      refl top_up_resolves refl top_up_events refl refl refl refl refl refl refl refl
