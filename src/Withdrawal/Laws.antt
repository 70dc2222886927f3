-- ===== src/Withdrawal/Laws.antt =====
-- `user_withdraw` as a whole.
use mathlib.Core.Option
use nfc_payment_api.Prelude.{
  ℕ, ◌≡◌, refl, true, false, ◌⊎◌, inl, inr, none, some, ◌==◌, is_some, if◌then◌else◌, arith, ap,
  ◌∙◌,
}
use nfc_payment_api.Prelude.Int.{◌-ℤ◌}
use nfc_payment_api.Schema.{BankAccount, Wallet, Transaction}
use nfc_payment_api.External.{Env, IsLawful}
use nfc_payment_api.Exec.{ok, ◌>>=◌}
use nfc_payment_api.Exec.Laws.{Result-cases}
use nfc_payment_api.Response.{Response, UserWithWallet, transaction, refused, succeeded}
use nfc_payment_api.Payment.Inactive.{is_success}
use nfc_payment_api.World.{World, update_wallet, find_reference, references_resolve}
use nfc_payment_api.World.Balances.{take_balance, balance_at}
use nfc_payment_api.World.References.{IsSole, IsSole-create}
use nfc_payment_api.Withdrawal.{
  WithdrawIntoBankAccount, TransferData, withdrawal_row, withdraw_to_bank, post_withdrawal,
  record_withdrawal, withdraw, user_withdraw,
}
use nfc_payment_api.Withdrawal.Needs.{
  CanWithdraw, asked, user_withdraw-posted, user_withdraw_unposted, user_withdraw-cases,
}
use nfc_payment_api.Withdrawal.Posting.{
  new_withdrawal, posted_debit, posted_balance, post_withdrawal_total,
}

module _ (env : Env) where
  -- What a successful withdrawal has done.
  pub record IsWithdrawn (user : UserWithWallet) (dto : WithdrawIntoBankAccount) (w : World env)
      (r : Response) (w' : World env) : Type 0 where
    pub wallet : Wallet
    pub account : BankAccount
    pub d : TransferData
    pub can : CanWithdraw env user dto w wallet account d
    pub plain : dto.narration ≡ none
    pub moved :
        (j : ℕ)
        → balance_at env w' j ≡ (
            if wallet.id == j
            then Option.map (λ x. x -ℤ d.amount) (balance_at env w j)
            else balance_at env w j)
    pub kept : is_some (balance_at env w' wallet.id) ≡ true
    pub row : IsSole env w' d.reference (new_withdrawal env user wallet d w)
    pub answer :
        r
        ≡ succeeded "Withdrawal request made successfully"
            (transaction (new_withdrawal env user wallet d w))

  post_withdrawal-IsWithdrawn :
      (user : UserWithWallet) (dto : WithdrawIntoBankAccount) (w : World env) (wallet : Wallet)
      (account : BankAccount) (d : TransferData) (row : Transaction) (r : Response) (w' : World env)
      → IsLawful env
      → CanWithdraw env user dto w wallet account d
      → post_withdrawal env user wallet dto.narration d (asked env dto account w) ≡ (ok row, w')
      → r ≡ succeeded "Withdrawal request made successfully" (transaction row)
      → IsWithdrawn user dto w r w'
  post_withdrawal-IsWithdrawn user dto w wallet account d row r w' law can posted given =
      let (_, _, rows, same, plain, fresh, kept) =
        posted_debit env user wallet dto.narration d (asked env dto account w) row w' posted in
      record {
        wallet = wallet;
        account = account;
        d = d;
        can = can;
        plain = plain;
        moved =
            posted_balance env user wallet dto.narration d (asked env dto account w) law row w'
              posted;
        kept = kept;
        row =
            IsSole-create env law (asked env dto account w) w' (new_withdrawal env user wallet d w)
              refl fresh rows;
        answer =
            given ∙ ap (λ x. succeeded "Withdrawal request made successfully" (transaction x)) same;
      }

  -- An answer of success means: the PIN and the minimum of 100 naira were met, a bank account was
  -- found and the processor answered with data, the amount of that data left the user's wallet and
  -- no other balance changed, and the ledger has a pending row of it,
  -- the only one with its reference, which the answer carries.
  pub user_withdraw-IsWithdrawn :
      (user : UserWithWallet) (dto : WithdrawIntoBankAccount) (w : World env) (r : Response)
      (w' : World env)
      → IsLawful env
      → user_withdraw env user dto w ≡ (ok r, w')
      → r.success ≡ true
      → IsWithdrawn user dto w r w'
  user_withdraw-IsWithdrawn user dto w r w' law h s = elim (user_withdraw-cases env user dto w) [
    | inl (refusal, _, _) ↦ absurd (ground arith)
    | inr (wallet, account, d, can) ↦
        elim (Result-cases
          (post_withdrawal env user wallet dto.narration d (asked env dto account w)).0) [
            | inr (e, failed) ↦ absurd (
                ground (arith, user_withdraw_unposted env user dto w wallet account d e can failed))
            | inl (row, done) ↦
                let w₁ : World env =
                  (post_withdrawal env user wallet dto.narration d (asked env dto account w)).1 in
                let posted : post_withdrawal env user wallet dto.narration d
                      (asked env dto account w)
                    ≡ (ok row, w₁) =
                  ap (λ x. (x, w₁)) done in
                let all = user_withdraw-posted env user dto w wallet account d row w₁ can posted in
                let same : w₁ ≡ w' = ground (arith, all) in
                post_withdrawal-IsWithdrawn user dto w wallet account d row r w' law can
                  (posted ∙ ap (λ x. (ok row, x)) same) (ground (arith, all))
          ]
  ]

  -- A withdrawal that does not succeed changes no wallet and no row of the ledger, and its answer
  -- gives no reason but a wrong PIN: the messages on the minimum and on the bank account, which
  -- `withdraw_to_bank` returns, never reach the user.
  pub user_withdraw-refused :
      (user : UserWithWallet) (dto : WithdrawIntoBankAccount) (w : World env) (r : Response)
      → (user_withdraw env user dto w).0 ≡ ok r
      → r.success ≡ false
      → ((r ≡ refused "Incorrect password") ⊎ (r ≡ refused "failed to make withdrawal request"))
        × ((user_withdraw env user dto w).1.wallets ≡ w.wallets)
        × ((user_withdraw env user dto w).1.transactions ≡ w.transactions)
  user_withdraw-refused user dto w r h s = elim (user_withdraw-cases env user dto w) [
    | inl (inl wrong, wallets, rows) ↦ (inl (ground arith), wallets, rows)
    | inl (inr failure, wallets, rows) ↦ (inr (ground arith), wallets, rows)
    | inr (wallet, account, d, can) ↦
        elim (Result-cases
          (post_withdrawal env user wallet dto.narration d (asked env dto account w)).0) [
            | inr (e, failed) ↦
                let all = user_withdraw_unposted env user dto w wallet account d e can failed in
                (inr (ground (arith, all)), ground (arith, all), ground (arith, all))
            | inl (row, done) ↦
                let w₁ : World env =
                  (post_withdrawal env user wallet dto.narration d (asked env dto account w)).1 in
                absurd (
                  ground (
                    arith,
                    user_withdraw-posted env user dto w wallet account d row w₁ can
                        (ap (λ x. (x, w₁)) done),
                  ))
          ]
  ]

  -- A user whose row has no `bankAccountId` never withdraws: nothing is asked of the processor, nothing
  -- changes, and no answer is a success.
  pub withdraw_needs_bank_account_id :
      (user : UserWithWallet) (dto : WithdrawIntoBankAccount) (w : World env)
      → user.user.bank_account_id ≡ none
      → (is_success (user_withdraw env user dto w).0 ≡ false)
        × ((user_withdraw env user dto w).1 ≡ w)
  unfolding user_withdraw withdraw record_withdrawal withdraw_to_bank ◌>>=◌
  withdraw_needs_bank_account_id user dto w absent = (ground arith, ground arith)

  -- With a narration, a request that meets every need has been sent to the processor, and is
  -- answered with a failure: the debit and the row are refused.
  pub narration_pays_out_unrecorded :
      (user : UserWithWallet) (dto : WithdrawIntoBankAccount) (w : World env) (wallet : Wallet)
      (account : BankAccount) (d : TransferData) (n : ℕ)
      → CanWithdraw env user dto w wallet account d
      → dto.narration ≡ some n
      → user_withdraw env user dto w
        ≡ (ok (refused "failed to make withdrawal request"), asked env dto account w)
  narration_pays_out_unrecorded user dto w wallet account d n can noted =
      elim (Result-cases
        (post_withdrawal env user wallet dto.narration d (asked env dto account w)).0) [
          | inr (e, failed) ↦ user_withdraw_unposted env user dto w wallet account d e can failed
          | inl (row, done) ↦
              let w₁ : World env =
                (post_withdrawal env user wallet dto.narration d (asked env dto account w)).1 in
              let (_, _, _, _, plain, _, _) =
                posted_debit env user wallet dto.narration d (asked env dto account w) row w₁
                  (ap (λ x. (x, w₁)) done) in
              absurd (ground arith)
        ]

  -- No balance is asked for: a request that meets every need, whose reference is new and whose row's
  -- keys resolve, succeeds, and the wallet is left with its balance less the amount, below zero if
  -- the balance was less.
  pub withdraw_overdraws :
      (user : UserWithWallet) (dto : WithdrawIntoBankAccount) (w : World env) (wallet b : Wallet)
      (account : BankAccount) (d : TransferData)
      → IsLawful env
      → CanWithdraw env user dto w wallet account d
      → dto.narration ≡ none
      → env.find wallet.id w.wallets ≡ some b
      → is_some (find_reference env w d.reference) ≡ false
      → references_resolve env
          (update_wallet env wallet.id (take_balance d.amount) (asked env dto account w)).1
          (withdrawal_row env user wallet d)
        ≡ true
      → ((user_withdraw env user dto w).0
          ≡ ok (
              succeeded "Withdrawal request made successfully"
                (transaction (new_withdrawal env user wallet d w))))
        × (balance_at env (user_withdraw env user dto w).1 wallet.id ≡ some (b.balance -ℤ d.amount))
  withdraw_overdraws user dto w wallet b account d law can plain listed fresh valid =
      let w₁ : World env =
        (post_withdrawal env user wallet dto.narration d (asked env dto account w)).1 in
      let posted : post_withdrawal env user wallet dto.narration d (asked env dto account w)
          ≡ (ok (new_withdrawal env user wallet d w), w₁) =
        ap (λ x. (x, w₁))
          (rw plain (
            post_withdrawal_total env user wallet d (asked env dto account w) b listed fresh
              valid)) in
      let all =
        user_withdraw-posted env user dto w wallet account d (new_withdrawal env user wallet d w) w₁
          can posted in
      (
        ap (λ x. x.0) all,
        rw (ap (λ x. x.1) all) (
            ground (
              arith,
              posted_balance env user wallet dto.narration d (asked env dto account w) law
                  (new_withdrawal env user wallet d w) w₁ posted wallet.id,
            )),
      )
