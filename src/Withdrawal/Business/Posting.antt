-- ===== src/Withdrawal/Business/Posting.antt =====
-- What a payout that succeeds has done, `businessWithdraw` of src/wallet/wallet.service.ts.
use mathlib.Core.Option
use nfc_payment_api.Prelude.{
  ℕ, String, ◌≡◌, refl, ap, inl, inr, ◌⊎◌, true, false, Option, none, some, is_some, [], ◌∷◌, ◌++◌,
  arith, Bool-cases, Option-cases, ◌==◌, if◌then◌else◌,
}
use nfc_payment_api.Prelude.Int.{ℤ, pos, naira, eq_ℤ, ◌≤ℤ◌, ◌-ℤ◌}
use nfc_payment_api.Schema.{User, Business, BankAccount, Wallet, Transaction}
use nfc_payment_api.External.{Env, IsLawful}
use nfc_payment_api.Exec.{ok, ◌>>=◌}
use nfc_payment_api.Exec.Laws.{Result-cases}
use nfc_payment_api.Response.{Response, transaction, succeeded}
use nfc_payment_api.World.{World, update_wallet, create_transaction, find_reference}
use nfc_payment_api.World.Balances.{take_balance, balance_at, update_wallet-balance_at}
use nfc_payment_api.World.References.{IsSole, IsSole-create}
use nfc_payment_api.Withdrawal.{
  TransferData, requested, not_requested, requested_reference, data_of, flutterwave_transfer,
  request_transfer, check_account, withdraw_to_bank, payout,
}
use nfc_payment_api.Withdrawal.Business.{
  BusinessWithdraw, or_zero, account_of_business, wallet_of_business, get_withdrawal_balance,
  payout_row, post_payout, withdraw_from, business_withdraw,
}

module _ (env : Env) where
  -- The world once the transfer has been asked for, and the row that the ledger gains.
  abbrev pub asked_of : ℤ → BankAccount → World env → World env
  asked_of amount account w = record w { payouts = w.payouts ++ payout env amount account ∷ [] }

  abbrev pub new_payout : User → ℕ → String → Wallet → TransferData → World env → Transaction
  new_payout user b name x d w = record (payout_row env user b name x d) {
    id = env.new_id w.transactions;
  }

  -- A transfer that was requested: 100 naira or more, within a limit that is not zero, to a bank account
  -- that is listed, and the processor answered with data.
  record IsAsked (k : ℕ) (amount limit : ℤ) (w w' : World env) (d : TransferData) : Type 0 where
    pub account : BankAccount
    pub listed : env.find k w.bank_accounts ≡ some account
    pub minimum : naira 100 ≤ℤ amount
    pub within : (limit ≡ pos 0) ⊎ (amount ≤ℤ limit)
    pub agreed : data_of (env.initiate_transfer (payout env amount account)) ≡ some d
    pub world : w' ≡ asked_of amount account w

  withdraw_to_bank-IsAsked :
      (k x : ℕ) (amount limit : ℤ) (w w' : World env) (d : TransferData)
      → withdraw_to_bank env (some k) x amount (some limit) w ≡ (ok (requested d), w')
      → IsAsked k amount limit w w' d
  unfolding withdraw_to_bank check_account request_transfer flutterwave_transfer ◌>>=◌
  withdraw_to_bank-IsAsked k x amount limit w w' d h =
      elim (Option-cases (env.find k w.bank_accounts)) [
        | inl unknown ↦ absurd (ground arith)
        | inr (account, listed) ↦
            elim (Option-cases (data_of (env.initiate_transfer (payout env amount account)))) [
              | inl silent ↦ absurd (ground arith)
              | inr (d', agreed) ↦ record {
                account = account;
                listed = listed;
                minimum = ground arith;
                within = elim (Bool-cases (eq_ℤ limit (pos 0))) [
                  | inl zero_ ↦ inl (ground arith)
                  | inr some_ ↦ inr (ground arith)
                ];
                agreed = ground arith;
                world = ground arith;
              }
            ]
      ]

  module _ (user : User) (b : ℕ) (name : String) (x : Wallet) (d : TransferData)
      (w : World env) where
    posted_payout :
        (row : Transaction) (w' : World env)
        → post_payout env user b name x d w ≡ (ok row, w')
        → ((update_wallet env x.id (take_balance d.amount) w).0 ≡ ok tt)
          × (w'.wallets ≡ (update_wallet env x.id (take_balance d.amount) w).1.wallets)
          × (w'.transactions
              ≡ env.write (env.new_id w.transactions) (new_payout user b name x d w) w.transactions)
          × (row ≡ new_payout user b name x d w)
          × (is_some (find_reference env w d.reference) ≡ false)
          × (is_some (balance_at env w' x.id) ≡ true)
    unfolding post_payout create_transaction ◌>>=◌
    posted_payout row w' h =
        (ground arith, ground arith, ground arith, ground arith, ground arith, ground arith)

  -- What a payout with success has done: the PIN is right and the request is one that may be asked for;
  -- the amount in the processor's answer left the wallet of the business, and no other balance changed; the
  -- ledger has one row with its reference, pending, which the answer carries.
  pub record IsPaidOut (dto : BusinessWithdraw) (user : User) (b : ℕ) (w : World env) (r : Response)
      (w' : World env) : Type 0 where
    pub business : Business
    pub account : BankAccount
    pub wallet : Wallet
    pub d : TransferData
    pub hash : String
    pub named : env.find b w.businesses ≡ some business
    pub stored : user.hash ≡ some hash
    pub verified : env.verify hash dto.password ≡ true
    pub held : wallet_of_business env b w ≡ some wallet
    pub minimum : naira 100 ≤ℤ dto.requested_amount
    pub within :
        (or_zero (get_withdrawal_balance env b w) ≡ pos 0)
        ⊎ (dto.requested_amount ≤ℤ or_zero (get_withdrawal_balance env b w))
    pub agreed : data_of (env.initiate_transfer (payout env dto.requested_amount account)) ≡ some d
    pub moved :
        (j : ℕ)
        → balance_at env w' j ≡ (
            if wallet.id == j
            then Option.map (λ y. y -ℤ d.amount) (balance_at env w j)
            else balance_at env w j)
    pub kept : is_some (balance_at env w' wallet.id) ≡ true
    pub row : IsSole env w' d.reference (new_payout user b business.name wallet d w)
    pub answer :
        r
        ≡ succeeded "Withdrawal request made successfully"
            (transaction (new_payout user b business.name wallet d w))

  -- What `withdraw_from` has done with success.
  record IsSent (dto : BusinessWithdraw) (user : User) (b : ℕ) (name : String)
      (wallet : Option Wallet) (w : World env) (r : Response) (w' : World env) : Type 0 where
    pub k : ℕ
    pub x : Wallet
    pub d : TransferData
    pub row : Transaction
    pub held : wallet ≡ some x
    pub asked : World env
    pub can : IsAsked k dto.requested_amount (or_zero (get_withdrawal_balance env b w)) w asked d
    pub posted : post_payout env user b name x d asked ≡ (ok row, w')
    pub answer : r ≡ succeeded "Withdrawal request made successfully" (transaction row)

  withdraw_from-IsSent :
      (dto : BusinessWithdraw) (user : User) (b : ℕ) (name : String) (account : Option BankAccount)
      (wallet : Option Wallet) (w : World env) (r : Response) (w' : World env)
      → withdraw_from env dto user b name account wallet w ≡ (ok r, w')
      → r.success ≡ true
      → IsSent dto user b name wallet w r w'
  unfolding ◌>>=◌
  withdraw_from-IsSent dto user b name none wallet w r w' h s = absurd (ground arith)
  withdraw_from-IsSent dto user b name (some account) none w r w' h s = absurd (ground arith)
  withdraw_from-IsSent dto user b name (some account) (some x) w r w' h s =
      let limit = or_zero (get_withdrawal_balance env b w) in
      let asked = withdraw_to_bank env (some account.id) x.id dto.requested_amount (some limit) w in
      elim (Result-cases asked.0) [
        | inr (e, failed) ↦ absurd (ground arith)
        | inl (not_requested m, made) ↦ absurd (ground arith)
        | inl (requested_reference m, made) ↦ absurd (ground arith)
        | inl (requested d, made) ↦
            elim (Result-cases (post_payout env user b name x d asked.1).0) [
              | inr (e, failed) ↦ absurd (ground arith)
              | inl (row, done) ↦ record {
                k = account.id;
                x = x;
                d = d;
                row = row;
                held = refl;
                asked = asked.1;
                can =
                    withdraw_to_bank-IsAsked account.id x.id dto.requested_amount limit w asked.1 d
                      (ap (λ a. (a, asked.1)) made);
                posted = ground arith;
                answer = ground arith;
              }
            ]
      ]

  module _ (law : IsLawful env) (dto : BusinessWithdraw) (user : User) (b : ℕ) (hash : String)
      (business : Business) (w : World env) (r : Response) (w' : World env) where
    IsSent-IsPaidOut :
        env.find b w.businesses ≡ some business
        → user.hash ≡ some hash
        → env.verify hash dto.password ≡ true
        → IsSent dto user b business.name (wallet_of_business env b w) w r w'
        → IsPaidOut dto user b w r w'
    IsSent-IsPaidOut named stored verified s =
        let (debited, wallets, rows, same, fresh, kept) =
          posted_payout user b business.name s.x s.d s.asked s.row w' s.posted in
        let world = s.can.world in
        record {
          business = business;
          account = s.can.account;
          wallet = s.x;
          d = s.d;
          hash = hash;
          named = named;
          stored = stored;
          verified = verified;
          held = s.held;
          minimum = s.can.minimum;
          within = s.can.within;
          agreed = s.can.agreed;
          moved = λ j. ground (
            arith,
            wallets,
            world,
            update_wallet-balance_at env law s.x.id (take_balance s.d.amount) (λ y. y -ℤ s.d.amount)
                s.asked (λ y. refl) debited j,
          );
          kept = kept;
          row =
              IsSole-create env law w w' (new_payout user b business.name s.x s.d w) refl
                (ground (arith, world)) (ground (arith, world));
          answer = ground (arith);
        }

  -- An answer of success to a business that withdraws means all of `IsPaidOut`.
  pub business_withdraw-IsPaidOut :
      (law : IsLawful env) (dto : BusinessWithdraw) (user : User) (b : ℕ) (w : World env)
      (r : Response) (w' : World env)
      → user.business_id ≡ some b
      → business_withdraw env dto user w ≡ (ok r, w')
      → r.success ≡ true
      → IsPaidOut dto user b w r w'
  unfolding business_withdraw ◌>>=◌
  business_withdraw-IsPaidOut law dto user b w r w' member h s =
      elim (Option-cases (env.find b w.businesses)) [
        | inl none_ ↦ absurd (ground arith)
        | inr (business, named) ↦ elim (Option-cases user.hash) [
          | inl none_ ↦ absurd (ground arith)
          | inr (hash, stored) ↦ elim (Bool-cases (env.verify hash dto.password)) [
            | inr wrong ↦ absurd (ground arith)
            | inl right ↦
                let account = account_of_business env b w in
                let wallet = wallet_of_business env b w in
                let paid = withdraw_from env dto user b business.name account wallet w in
                elim (Result-cases paid.0) [
                  | inr (e, failed) ↦ absurd (ground arith)
                  | inl (q, made) ↦
                      let sent : withdraw_from env dto user b business.name account wallet w
                          ≡ (ok r, w') =
                        ground arith in
                      IsSent-IsPaidOut law dto user b hash business w r w' named stored right
                        (withdraw_from-IsSent dto user b business.name account wallet w r w' sent s)
                ]
          ]
        ]
      ]
