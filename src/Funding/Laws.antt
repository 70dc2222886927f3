-- ===== src/Funding/Laws.antt =====
-- The funding of a wallet by bank transfer, and the charge that completes it.
use nfc_payment_api.Prelude.{String, ◌≡◌, refl, true, false, Option, some, [], arith}
use nfc_payment_api.Prelude.Int.{ℤ, ◌+ℤ◌, ◌≤ℤ◌, naira}
use nfc_payment_api.Schema.{Wallet, Transaction}
use nfc_payment_api.External.{Env, IsLawful}
use nfc_payment_api.Exec.{ok, err, http, text, ◌>>=◌}
use nfc_payment_api.Response.{Response, UserWithWallet}
use nfc_payment_api.WebhookPayload.{FlutterwaveData}
use nfc_payment_api.World.{World, create_transaction}
use nfc_payment_api.World.Balances.{balance_at}
use nfc_payment_api.World.References.{IsSole, IsSole-create}
use nfc_payment_api.Webhook.{verify_transaction, user_of}
use nfc_payment_api.Webhook.Charges.{charged, settled, IsExpected}
use nfc_payment_api.Webhook.Credits.{charge_credits}
use nfc_payment_api.Funding.{
  funding_row, created, open_account, fund_within_limits, fund_wallet_with_bank_transfer,
}

module _ (env : Env) where
  -- The row that the ledger gains.
  abbrev pub new_funding : UserWithWallet → Wallet → ℤ → World env → Transaction
  new_funding user wallet amount w = record (funding_row env user.user wallet amount) {
    id = env.new_id w.transactions;
  }

  -- A request to fund a wallet that succeeds is for 50,000 naira or less, and would leave 300,000
  -- or less in the wallet that was read with the request. It changes no wallet, and adds a pending
  -- row, the only one with its reference.
  pub funding_is_limited :
      (user : UserWithWallet) (wallet own : Wallet) (amount : ℤ) (w w' : World env) (r : Response)
      → IsLawful env
      → user.wallet ≡ some own
      → fund_wallet_with_bank_transfer env user (some wallet) amount w ≡ (ok r, w')
      → r.success ≡ true
      → (amount ≤ℤ naira 50000)
        × (amount +ℤ own.balance ≤ℤ naira 300000)
        × (w'.wallets ≡ w.wallets)
        × IsSole env w'
            (funding_row env user.user wallet amount).transaction_reference
            (new_funding user wallet amount w)
  unfolding fund_wallet_with_bank_transfer fund_within_limits open_account create_transaction ◌>>=◌
  funding_is_limited user wallet own amount w w' r law held h s = (
    ground arith,
    ground arith,
    ground arith,
    IsSole-create env law w w' (new_funding user wallet amount w) refl (ground arith)
        (ground arith),
  )

  -- When Flutterwave does not create the account, a request within the limits is answered with a
  -- status of 503, and changes nothing.
  pub account_not_created_is_unavailable :
      (user : UserWithWallet) (wallet : Option Wallet) (own : Wallet) (amount : ℤ) (w : World env)
      → user.wallet ≡ some own
      → amount ≤ℤ naira 50000
      → amount +ℤ own.balance ≤ℤ naira 300000
      → (created env user.user amount).success ≡ false
      → fund_wallet_with_bank_transfer env user wallet amount w
        ≡ (err (http 503 (text "Failed to create bank account")), w)
  unfolding fund_wallet_with_bank_transfer fund_within_limits open_account ◌>>=◌
  account_not_created_is_unavailable user wallet own amount w held small room failed = ground arith

  -- A successful request to fund a wallet, then the delivery of its verified charge with the
  -- listener: the user's wallet has the amount more.
  pub funded_wallet_is_credited :
      (user u : UserWithWallet) (wallet own b : Wallet) (amount : ℤ) (w w' : World env)
      (r : Response) (d : FlutterwaveData) (email : String)
      → IsLawful env
      → user.wallet ≡ some own
      → fund_wallet_with_bank_transfer env user (some wallet) amount w ≡ (ok r, w')
      → r.success ≡ true
      → w'.events ≡ []
      → d.trx_ref ≡ some (funding_row env user.user wallet amount).transaction_reference
      → d.status ≡ "successful"
      → d.amount ≡ amount
      → d.customer_email ≡ some email
      → verify_transaction env d.id d.amount ≡ true
      → user_of env w' email ≡ some u
      → u.wallet ≡ some wallet
      → env.find wallet.id w'.wallets ≡ some b
      → balance_at env (settled env (charged env "charge.completed" d w')) wallet.id
        ≡ some (b.balance +ℤ amount)
  funded_wallet_is_credited user u wallet own b amount w w' r d email law held h s quiet named
        status same given verified known holds listed =
      let (_, _, _, sole) = funding_is_limited user wallet own amount w w' r law held h s in
      let expected : IsExpected env d w'
          (funding_row env user.user wallet amount).transaction_reference
          (new_funding user wallet amount w) u wallet b =
        record {
          email = email;
          verified = verified;
          completed = rw status refl;
          named = named;
          sole = sole;
          new = rw status refl;
          given = given;
          known = known;
          holds = holds;
          listed = listed;
        } in
      let (credited, _) =
        charge_credits env law d w' (funding_row env user.user wallet amount).transaction_reference
          (new_funding user wallet amount w) u wallet b expected quiet wallet.id in
      ground (arith, credited, listed, same)
