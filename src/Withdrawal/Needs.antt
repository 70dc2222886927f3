-- ===== src/Withdrawal/Needs.antt =====
-- What a withdrawal needs, and what it comes down to when it has it.
use nfc_payment_api.Prelude.{
  ℕ, String, ◌≡◌, true, ◌⊎◌, inl, inr, none, some, ◌++◌, ◌∷◌, [], Bool-cases, Option-cases, arith,
}
use nfc_payment_api.Prelude.Int.{ltb_ℤ, ◌≤ℤ◌, naira}
use nfc_payment_api.Schema.{BankAccount, Wallet, Transaction}
use nfc_payment_api.External.{Env}
use nfc_payment_api.Exec.{Error, ok, err, ◌>>=◌}
use nfc_payment_api.Response.{UserWithWallet, transaction, refused, succeeded}
use nfc_payment_api.World.{World, create_transaction}
use nfc_payment_api.Withdrawal.{
  WithdrawIntoBankAccount, TransferData, requested, data_of, payout, flutterwave_transfer,
  request_transfer, check_account, withdraw_to_bank, post_withdrawal, record_withdrawal, withdraw,
  user_withdraw,
}

module _ (env : Env) where
  -- What a withdrawal needs: a PIN that the user's hash verifies, 100 naira or more, a bank account
  -- and data in the processor's answer. Neither a balance nor the answer's status is among it.
  pub record CanWithdraw (user : UserWithWallet) (dto : WithdrawIntoBankAccount) (w : World env)
      (wallet : Wallet) (account : BankAccount) (d : TransferData) : Type 0 where
    pub hash : String
    pub account_id : ℕ
    pub held : user.wallet ≡ some wallet
    pub stored : user.user.hash ≡ some hash
    pub verified : env.verify hash dto.password ≡ true
    pub minimum : naira 100 ≤ℤ dto.requested_amount
    pub named : user.user.bank_account_id ≡ some account_id
    pub listed : env.find account_id w.bank_accounts ≡ some account
    pub agreed : data_of (env.initiate_transfer (payout env dto.requested_amount account)) ≡ some d

  -- The world once the transfer has been requested.
  abbrev pub asked : WithdrawIntoBankAccount → BankAccount → World env → World env
  asked dto account w = record w {
    payouts = w.payouts ++ payout env dto.requested_amount account ∷ [];
  }

  pub withdraw_to_bank-requested :
      (user : UserWithWallet) (dto : WithdrawIntoBankAccount) (w : World env) (wallet : Wallet)
      (account : BankAccount) (d : TransferData)
      → CanWithdraw user dto w wallet account d
      → withdraw_to_bank env user.user.bank_account_id wallet.id dto.requested_amount none w
        ≡ (ok (requested d), asked dto account w)
  unfolding withdraw_to_bank check_account request_transfer flutterwave_transfer ◌>>=◌
  withdraw_to_bank-requested user dto w wallet account d can = ground arith

  -- Then the answer is that of the debit and the row, and so is the world.
  pub user_withdraw-posted :
      (user : UserWithWallet) (dto : WithdrawIntoBankAccount) (w : World env) (wallet : Wallet)
      (account : BankAccount) (d : TransferData) (row : Transaction) (w' : World env)
      → CanWithdraw user dto w wallet account d
      → post_withdrawal env user wallet dto.narration d (asked dto account w) ≡ (ok row, w')
      → user_withdraw env user dto w
        ≡ (ok (succeeded "Withdrawal request made successfully" (transaction row)), w')
  unfolding user_withdraw withdraw record_withdrawal ◌>>=◌
  user_withdraw-posted user dto w wallet account d row w' can posted =
      ground (arith, withdraw_to_bank-requested user dto w wallet account d can)

  pub user_withdraw_unposted :
      (user : UserWithWallet) (dto : WithdrawIntoBankAccount) (w : World env) (wallet : Wallet)
      (account : BankAccount) (d : TransferData) (e : Error)
      → CanWithdraw user dto w wallet account d
      → (post_withdrawal env user wallet dto.narration d (asked dto account w)).0 ≡ err e
      → user_withdraw env user dto w
        ≡ (ok (refused "failed to make withdrawal request"), asked dto account w)
  unfolding user_withdraw withdraw record_withdrawal post_withdrawal create_transaction ◌>>=◌
  user_withdraw_unposted user dto w wallet account d e can failed =
      ground (arith, withdraw_to_bank-requested user dto w wallet account d can)

  -- Where one of the needs is not met, the answer is one of two refusals and nothing is written.
  abbrev Refusal : UserWithWallet → WithdrawIntoBankAccount → World env → Type 0
  Refusal user dto w =
      ((user_withdraw env user dto w).0 ≡ ok (refused "Incorrect password")
        ⊎ ((user_withdraw env user dto w).0 ≡ ok (refused "failed to make withdrawal request")))

  pub user_withdraw-cases :
      (user : UserWithWallet) (dto : WithdrawIntoBankAccount) (w : World env)
      → (Refusal user dto w
          × ((user_withdraw env user dto w).1.wallets ≡ w.wallets)
          × ((user_withdraw env user dto w).1.transactions ≡ w.transactions))
        ⊎ ((wallet : Wallet) × (account : BankAccount) × (d : TransferData) × CanWithdraw user dto w
              wallet account d)
  unfolding user_withdraw withdraw record_withdrawal withdraw_to_bank check_account request_transfer
      flutterwave_transfer ◌>>=◌
  user_withdraw-cases user dto w = elim (Option-cases user.user.hash) [
    | inl absent ↦ inl (inr (ground arith), ground arith, ground arith)
    | inr (hash, stored) ↦ elim (Bool-cases (env.verify hash dto.password)) [
      | inr wrong ↦ inl (inl (ground arith), ground arith, ground arith)
      | inl verified ↦ elim (Option-cases user.wallet) [
        | inl absent ↦ inl (inr (ground arith), ground arith, ground arith)
        | inr (wallet, held) ↦ elim (Bool-cases (ltb_ℤ dto.requested_amount (naira 100))) [
          | inl small ↦ inl (inr (ground arith), ground arith, ground arith)
          | inr minimum ↦ elim (Option-cases user.user.bank_account_id) [
            | inl absent ↦ inl (inr (ground arith), ground arith, ground arith)
            | inr (account_id, named) ↦ elim (Option-cases (env.find account_id w.bank_accounts)) [
              | inl absent ↦ inl (inr (ground arith), ground arith, ground arith)
              | inr (account, listed) ↦
                  elim (Option-cases
                    (data_of (env.initiate_transfer (payout env dto.requested_amount account)))) [
                      | inl silent ↦ inl (inr (ground arith), ground arith, ground arith)
                      | inr (d, agreed) ↦ inr (
                        wallet,
                        account,
                        d,
                        record {
                          hash = hash;
                          account_id = account_id;
                          held = held;
                          stored = stored;
                          verified = verified;
                          minimum = ground arith;
                          named = named;
                          listed = listed;
                          agreed = agreed;
                        },
                      )
                    ]
            ]
          ]
        ]
      ]
    ]
  ]
