-- ===== src/Withdrawal/Posting.antt =====
-- What the debit and the row of a withdrawal write.
use mathlib.Core.Option
use nfc_payment_api.Prelude.{
  ℕ, ◌≡◌, refl, true, false, Option, none, some, ◌==◌, is_some, if◌then◌else◌, arith,
}
use nfc_payment_api.Prelude.Int.{◌-ℤ◌}
use nfc_payment_api.Schema.{Wallet, Transaction}
use nfc_payment_api.External.{Env, IsLawful}
use nfc_payment_api.Exec.{ok, ◌>>=◌}
use nfc_payment_api.Response.{UserWithWallet}
use nfc_payment_api.World.{
  World, update_wallet, find_reference, references_resolve, create_transaction,
}
use nfc_payment_api.World.Balances.{take_balance, balance_at, update_wallet-balance_at}
use nfc_payment_api.Withdrawal.{TransferData, withdrawal_row, post_withdrawal}

module _ (env : Env) where
  -- The row that the ledger gains.
  abbrev pub new_withdrawal : UserWithWallet → Wallet → TransferData → World env → Transaction
  new_withdrawal user wallet d w = record (withdrawal_row env user wallet d) {
    id = env.new_id w.transactions;
  }

  module _ (user : UserWithWallet) (wallet : Wallet) (narration : Option ℕ) (d : TransferData)
      (w : World env) where
    pub posted_debit :
        (row : Transaction) (w' : World env)
        → post_withdrawal env user wallet narration d w ≡ (ok row, w')
        → ((update_wallet env wallet.id (take_balance d.amount) w).0 ≡ ok tt)
          × (w'.wallets ≡ (update_wallet env wallet.id (take_balance d.amount) w).1.wallets)
          × (w'.transactions
              ≡ env.write
                  (env.new_id w.transactions)
                  (new_withdrawal user wallet d w)
                  w.transactions)
          × (row ≡ new_withdrawal user wallet d w)
          × (narration ≡ none)
          × (is_some (find_reference env w d.reference) ≡ false)
          × (is_some (balance_at env w' wallet.id) ≡ true)
    unfolding post_withdrawal create_transaction ◌>>=◌
    posted_debit row w' h = (
      ground arith,
      ground arith,
      ground arith,
      ground arith,
      ground arith,
      ground arith,
      ground arith,
    )

    pub posted_balance :
        (law : IsLawful env) (row : Transaction) (w' : World env)
        → post_withdrawal env user wallet narration d w ≡ (ok row, w')
        → (j : ℕ)
        → balance_at env w' j ≡ (
            if wallet.id == j
            then Option.map (λ x. x -ℤ d.amount) (balance_at env w j)
            else balance_at env w j)
    posted_balance law row w' h j =
        let (debited, wallets, _, _, _, _, _) = posted_debit row w' h in
        ground (
          arith,
          wallets,
          update_wallet-balance_at env law wallet.id (take_balance d.amount) (λ x. x -ℤ d.amount) w
              (λ r. refl) debited j,
        )

  pub post_withdrawal_total :
      (user : UserWithWallet) (wallet : Wallet) (d : TransferData) (w : World env) (b : Wallet)
      → env.find wallet.id w.wallets ≡ some b
      → is_some (find_reference env w d.reference) ≡ false
      → references_resolve env
          (update_wallet env wallet.id (take_balance d.amount) w).1
          (withdrawal_row env user wallet d)
        ≡ true
      → (post_withdrawal env user wallet none d w).0 ≡ ok (new_withdrawal user wallet d w)
  unfolding post_withdrawal create_transaction ◌>>=◌
  post_withdrawal_total user wallet d w b listed fresh valid = ground arith
