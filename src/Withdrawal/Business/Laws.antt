-- ===== src/Withdrawal/Business/Laws.antt =====
-- What a business may withdraw, `businessWithdraw` of src/wallet/wallet.service.ts.
use mathlib.Core.Option
use nfc_payment_api.Prelude.{
  ℕ, String, ◌≡◌, ◌≢◌, refl, ◌==◌, if◌then◌else◌, inl, inr, Bool, true, false, some, is_some, arith,
}
use nfc_payment_api.Prelude.Int.{ℤ, pos, naira, ltb_ℤ, ◌≤ℤ◌, ◌-ℤ◌}
use nfc_payment_api.Schema.{User, Business, BankAccount, Wallet}
use nfc_payment_api.External.{Env, IsLawful, Payout, TransferAnswer, no_data, threw, answered}
use nfc_payment_api.Exec.{ok, ◌>>=◌}
use nfc_payment_api.Response.{Response, transaction, succeeded}
use nfc_payment_api.World.{
  World, update_wallet, create_transaction, find_reference, references_resolve,
}
use nfc_payment_api.World.Balances.{take_balance, balance_at}
use nfc_payment_api.Withdrawal.{
  TransferData, requested, flutterwave_transfer, request_transfer, check_account, withdraw_to_bank,
  payout, data_of,
}
use nfc_payment_api.Withdrawal.Business.Posting.{asked_of, new_payout, business_withdraw-IsPaidOut}
use nfc_payment_api.Withdrawal.Business.{
  BusinessWithdraw, or_zero, account_of_business, wallet_of_business, get_withdrawal_balance,
  payout_row, post_payout, business_withdraw,
}

-- The data of an answer of a processor that answers with the amount it was asked for.
module _ (env : Env)
    (honest : (p : Payout) (success : Bool) (reference : String) (amount : ℤ)
      → env.initiate_transfer p ≡ answered success reference amount
      → amount ≡ p.amount) where
  answer_data :
      (p : Payout) (a : TransferAnswer) (d : TransferData)
      → env.initiate_transfer p ≡ a
      → data_of a ≡ some d
      → d.amount ≡ p.amount
  answer_data p no_data d e h = absurd (ground arith)
  answer_data p threw d e h = absurd (ground arith)
  answer_data p (answered success reference amount) d e h =
      let asked = honest p success reference amount e in ground arith

  honest_data :
      (p : Payout) (d : TransferData)
      → data_of (env.initiate_transfer p) ≡ some d
      → d.amount ≡ p.amount
  honest_data p d h = answer_data p (env.initiate_transfer p) d refl h

module _ (env : Env) where
  -- A business with a withdrawal balance that is not zero withdraws that balance at most: where the
  -- processor answers with the amount that it was asked for, a payout with success takes the requested
  -- amount, once, from the wallet of the business and changes no other balance, and the requested amount
  -- is within the withdrawal balance.
  pub payout_is_limited :
      (law : IsLawful env) (dto : BusinessWithdraw) (user : User) (b : ℕ) (limit : ℤ)
      (w w' : World env) (r : Response)
      → ((p : Payout) (success : Bool) (reference : String) (amount : ℤ)
          → env.initiate_transfer p ≡ answered success reference amount
          → amount ≡ p.amount)
      → user.business_id ≡ some b
      → get_withdrawal_balance env b w ≡ some limit
      → limit ≢ pos 0
      → business_withdraw env dto user w ≡ (ok r, w')
      → r.success ≡ true
      → (x : Wallet) × (wallet_of_business env b w ≡ some x)
        × (dto.requested_amount ≤ℤ limit)
        × ((j : ℕ)
            → balance_at env w' j ≡ (
                if x.id == j
                then Option.map (λ y. y -ℤ dto.requested_amount) (balance_at env w j)
                else balance_at env w j))
  payout_is_limited law dto user b limit w w' r honest member known some_ h s =
      let k = business_withdraw-IsPaidOut env law dto user b w r w' member h s in
      let same : k.d.amount ≡ dto.requested_amount =
        honest_data env honest (payout env dto.requested_amount k.account) k.d k.agreed in
      (
        k.wallet,
        k.held,
        elim k.within [ inl none_left ↦ absurd (ground arith) | inr fits ↦ ground arith ],
        λ j. rw (← same) (k.moved j),
      )

  module _ (law : IsLawful env) (dto : BusinessWithdraw) (user : User) (b : ℕ) (hash : String)
      (business : Business) (account : BankAccount) (x : Wallet) (d : TransferData) (success : Bool)
      (w : World env) where
    requested_unlimited :
        ltb_ℤ dto.requested_amount (naira 100) ≡ false
        → env.find account.id w.bank_accounts ≡ some account
        → env.initiate_transfer (payout env dto.requested_amount account)
          ≡ answered success d.reference d.amount
        → withdraw_to_bank env (some account.id) x.id dto.requested_amount (some (pos 0)) w
          ≡ (ok (requested d), (asked_of env dto.requested_amount account w))
    unfolding withdraw_to_bank check_account request_transfer flutterwave_transfer ◌>>=◌
    requested_unlimited enough known answer = ground (arith)

    posted :
        env.find x.id w.wallets ≡ some x
        → is_some (find_reference env w d.reference) ≡ false
        → references_resolve env
            (update_wallet env x.id
              (take_balance d.amount)
              (asked_of env dto.requested_amount account w)).1
            (payout_row env user b business.name x d)
          ≡ true
        → post_payout env user b business.name x d (asked_of env dto.requested_amount account w) ≡ (
          ok (new_payout env user b business.name x d w),
          record (asked_of env dto.requested_amount account w) {
            wallets = env.write x.id (take_balance d.amount x) w.wallets;
            transactions =
                env.write
                  (env.new_id w.transactions)
                  (new_payout env user b business.name x d w)
                  w.transactions;
          },
        )
    unfolding post_payout create_transaction ◌>>=◌
    posted listed fresh valid = ground (arith)

    -- A business whose withdrawal balance is zero, or cannot be computed, withdraws without a limit: a
    -- request of 100 naira or more, with the right PIN, of a business with a bank account, that the
    -- processor answers, whose reference is new and whose row's keys resolve, succeeds, and the
    -- wallet is left with its balance less the amount, below zero if the balance was less.
    pub payout_without_balance :
        user.business_id ≡ some b
        → env.find b w.businesses ≡ some business
        → user.hash ≡ some hash
        → env.verify hash dto.password ≡ true
        → account_of_business env b w ≡ some account
        → wallet_of_business env b w ≡ some x
        → or_zero (get_withdrawal_balance env b w) ≡ pos 0
        → ltb_ℤ dto.requested_amount (naira 100) ≡ false
        → env.find account.id w.bank_accounts ≡ some account
        → env.initiate_transfer (payout env dto.requested_amount account)
          ≡ answered success d.reference d.amount
        → env.find x.id w.wallets ≡ some x
        → is_some (find_reference env w d.reference) ≡ false
        → references_resolve env
            (update_wallet env x.id
              (take_balance d.amount)
              (asked_of env dto.requested_amount account w)).1
            (payout_row env user b business.name x d)
          ≡ true
        → ((business_withdraw env dto user w).0
            ≡ ok (
                succeeded "Withdrawal request made successfully"
                  (transaction (new_payout env user b business.name x d w))))
          × (balance_at env (business_withdraw env dto user w).1 x.id
              ≡ some (x.balance -ℤ d.amount))
    unfolding business_withdraw ◌>>=◌
    payout_without_balance member there has right bank held zero_ enough known answer listed fresh
          valid =
        let made = requested_unlimited enough known answer in
        let written = posted listed fresh valid in
        let now = law.find-write x.id (take_balance d.amount x) w.wallets x.id in
        (ground (arith), ground (arith))
