-- ===== src/Transfer/Laws.antt =====
-- `send_payment` as a whole.
use nfc_payment_api.Prelude.{
  ◌≡◌, ◌≢◌, true, false, ◌⊎◌, inl, inr, Option, none, some, ℕ, suc, Bool-cases, Option-cases, arith,
  is_some, ap, ◌∙◌,
}
use nfc_payment_api.Prelude.Int.{pos, negsuc, ◌+ℤ◌, ◌-ℤ◌, ◌≤ℤ◌, ltb_ℤ}
use nfc_payment_api.Schema.{Wallet, TransactionType}
use nfc_payment_api.External.{Env, IsLawful}
use nfc_payment_api.Exec.{ok, err, Error, ◌>>=◌}
use nfc_payment_api.Exec.Laws.{Result-cases}
use nfc_payment_api.Response.{Response, UserWithWallet, transaction, succeeded}
use nfc_payment_api.World.{World, find_reference, references_resolve}
use nfc_payment_api.World.Balances.{balance_at, shifted}
use nfc_payment_api.Reference.{generate}
use nfc_payment_api.UserLookup.{get_user_by_unique_identifier}
use nfc_payment_api.Transfer.{
  SendPayment, recipient_of, transfer_row, exchange, transfer, pay, send_to, send_payment,
}
use nfc_payment_api.Transfer.Moves.{
  exchange-shifted, new_transfer, transfer-eq-ok, transfer_total, transfer_partial,
}

module _ (env : Env) where
  -- The user that the identifier of the request names.
  abbrev pub recipient : World env → SendPayment → Option UserWithWallet
  recipient w dto = elim (get_user_by_unique_identifier env dto.recipient_unique_identifier w).0 [
    | ok r ↦ recipient_of r.payload
    | err e ↦ none
  ]

  -- The two wallets of a payment, with what was checked of them.
  pub record CanSend (sender : UserWithWallet) (dto : SendPayment) (w : World env)
      (from to : Wallet) : Type 0 where
    pub named : UserWithWallet
    pub known : recipient w dto ≡ some named
    pub holds : named.wallet ≡ some to
    pub own : sender.wallet ≡ some from
    pub covered : dto.amount ≤ℤ from.balance

  -- With those, the request comes down to the transfer.
  send_payment-transfer :
      (sender : UserWithWallet) (dto : SendPayment) (w : World env) (from to : Wallet)
      (r : Response) (w' : World env)
      → CanSend sender dto w from to
      → transfer env from to dto.amount w ≡ (ok r, w')
      → send_payment env sender dto w ≡ (ok r, w')
  unfolding send_payment send_to pay ◌>>=◌ get_user_by_unique_identifier
  send_payment-transfer sender dto w from to r w' can done = ground arith

  -- So a failed transfer shows in the world, with the answer of the handler.
  send_payment_caught :
      (sender : UserWithWallet) (dto : SendPayment) (w : World env) (from to : Wallet) (e : Error)
      → CanSend sender dto w from to
      → (transfer env from to dto.amount w).0 ≡ err e
      → (send_payment env sender dto w).1 ≡ (transfer env from to dto.amount w).1
  unfolding send_payment send_to pay ◌>>=◌ get_user_by_unique_identifier
  send_payment_caught sender dto w from to e can failed = ground arith

  send_payment_answer :
      (sender : UserWithWallet) (dto : SendPayment) (w : World env) (from to : Wallet)
      (r : Response)
      → CanSend sender dto w from to
      → (transfer env from to dto.amount w).0 ≡ ok r
      → (send_payment env sender dto w).0 ≡ ok r
  send_payment_answer sender dto w from to r can done =
      ap (λ x. x.0)
        (send_payment-transfer sender dto w from to r (transfer env from to dto.amount w).1 can
          (ap (λ x. (x, (transfer env from to dto.amount w).1)) done))

  abbrev Sent : UserWithWallet → SendPayment → World env → Response → World env → Type 0
  Sent sender dto w r w' =
      (from : Wallet) × (to : Wallet) × CanSend sender dto w from to
      × (transfer env from to dto.amount w ≡ (ok r, w'))

  -- An answer of success comes from a transfer between the two wallets.
  send_payment-Sent :
      (sender : UserWithWallet) (dto : SendPayment) (w : World env) (r : Response) (w' : World env)
      → send_payment env sender dto w ≡ (ok r, w')
      → r.success ≡ true
      → Sent sender dto w r w'
  unfolding send_payment send_to pay ◌>>=◌ get_user_by_unique_identifier
  send_payment-Sent sender dto w r w' h s = elim (Option-cases (recipient w dto)) [
    | inl unknown ↦ absurd (ground arith)
    | inr (named, known) ↦ elim (Option-cases named.wallet) [
      | inl bare ↦ absurd (ground arith)
      | inr (to, holds) ↦ elim (Option-cases sender.wallet) [
        | inl bare ↦ absurd (ground arith)
        | inr (from, own) ↦ elim (Bool-cases (ltb_ℤ from.balance dto.amount)) [
          | inl short ↦ absurd (ground arith)
          | inr enough ↦ (
            from,
            to,
            record {
              named = named;
              known = known;
              holds = holds;
              own = own;
              covered = ground arith;
            },
            ground arith,
          )
        ]
      ]
    ]
  ]

  -- What a successful payment has done.
  pub record IsSent (sender : UserWithWallet) (dto : SendPayment) (w : World env) (r : Response)
      (w' : World env) : Type 0 where
    pub from : Wallet
    pub to : Wallet
    pub can : CanSend sender dto w from to
    pub moved :
        (j : ℕ) → balance_at env w' j ≡ shifted from.id to.id dto.amount j (balance_at env w j)
    pub row :
        env.find (env.new_id w.transactions) w'.transactions
        ≡ some (new_transfer env from to dto.amount w)
    pub answer :
        r
        ≡ succeeded "Successfully sent payment"
            (transaction (new_transfer env from to dto.amount w))

  -- An answer of success means: the recipient is known, the sender's wallet covered the amount, the
  -- amount left that wallet for the recipient's and no other balance changed, and the ledger has a
  -- row of it, which the answer carries.
  pub send_payment-IsSent :
      (sender : UserWithWallet) (dto : SendPayment) (w : World env) (r : Response) (w' : World env)
      → IsLawful env
      → send_payment env sender dto w ≡ (ok r, w')
      → r.success ≡ true
      → IsSent sender dto w r w'
  send_payment-IsSent sender dto w r w' law h s =
      let (from, to, can, sent) = send_payment-Sent sender dto w r w' h s in
      let (made, wallets, transactions, answer) =
        transfer-eq-ok env from to dto.amount w r w' sent in
      record {
        from = from;
        to = to;
        can = can;
        moved = λ j. ground (arith, wallets, exchange-shifted env from to dto.amount w law made j);
        row = rw transactions (
            rw
              (law.find-write (env.new_id w.transactions) (new_transfer env from to dto.amount w)
                w.transactions (env.new_id w.transactions))
              (ground arith));
        answer = answer;
      }

  module _ (sender : UserWithWallet) (dto : SendPayment) (w : World env) (from to r : Wallet)
      (law : IsLawful env) (can : CanSend sender dto w from to)
      (listed : env.find from.id w.wallets ≡ some r)
      (known : is_some (env.find to.id w.wallets) ≡ true)
      (fresh : is_some (find_reference env w (generate env TransactionType.transfer)) ≡ false)
      (valid : references_resolve env
          (exchange env from to dto.amount w).1
          (transfer_row env from to dto.amount)
        ≡ true) where
    -- A payment to a known recipient with a wallet, that the sender's wallet covers, succeeds, if
    -- both wallets are in the database, no row has the reference and the new row's keys resolve.
    pub send_payment_completes :
        (send_payment env sender dto w).0
        ≡ ok (
            succeeded "Successfully sent payment"
              (transaction (new_transfer env from to dto.amount w)))
    send_payment_completes =
        ap (λ x. x.0)
          (send_payment-transfer sender dto w from to _ (transfer env from to dto.amount w).1 can (
            ap (λ x. (x, (transfer env from to dto.amount w).1))
              (transfer_total env from to dto.amount w r law listed known fresh valid)))

    sent_world : (send_payment env sender dto w).1 ≡ (transfer env from to dto.amount w).1
    sent_world =
        ap (λ x. x.1)
          (send_payment-transfer sender dto w from to _ (transfer env from to dto.amount w).1 can (
            ap (λ x. (x, (transfer env from to dto.amount w).1))
              (transfer_total env from to dto.amount w r law listed known fresh valid)))

    completed_balance :
        (j : ℕ)
        → balance_at env (send_payment env sender dto w).1 j
          ≡ shifted from.id to.id dto.amount j (balance_at env w j)
    completed_balance j =
        let (made, wallets, _, _) =
          transfer-eq-ok env from to dto.amount w _ (transfer env from to dto.amount w).1 (
            ap (λ x. (x, (transfer env from to dto.amount w).1))
              (transfer_total env from to dto.amount w r law listed known fresh valid)) in
        rw sent_world
          (ground (arith, wallets, exchange-shifted env from to dto.amount w law made j))

    -- A negative amount is not refused: under the same conditions a payment of -(n + 1) to another
    -- wallet takes n + 1 from the recipient and gives it to the sender.
    pub negative_payment_takes :
        (n : ℕ) (t : Wallet)
        → dto.amount ≡ negsuc n
        → env.find to.id w.wallets ≡ some t
        → from.id ≢ to.id
        → (balance_at env (send_payment env sender dto w).1 to.id ≡ some (t.balance -ℤ pos (suc n)))
          × (balance_at env (send_payment env sender dto w).1 from.id
              ≡ some (r.balance +ℤ pos (suc n)))
    unfolding ◌+ℤ◌ ◌-ℤ◌
    negative_payment_takes n t negative there apart =
        (ground (arith, completed_balance to.id), ground (arith, completed_balance from.id))

  failed_transfer :
      (sender : UserWithWallet) (dto : SendPayment) (w : World env) (r : Response)
      (from to : Wallet)
      → CanSend sender dto w from to
      → (send_payment env sender dto w).0 ≡ ok r
      → r.success ≡ false
      → ((send_payment env sender dto w).1 ≡ w)
        ⊎ ((from : Wallet) × (to : Wallet) × CanSend sender dto w from to
            × ((send_payment env sender dto w).1 ≡ (exchange env from to dto.amount w).1))
  failed_transfer sender dto w r from to can h s =
      elim (Result-cases (transfer env from to dto.amount w).0) [
        | inl (a, done) ↦
            let (_, _, _, answer) =
              transfer-eq-ok env from to dto.amount w a (transfer env from to dto.amount w).1
                (ap (λ x. (x, (transfer env from to dto.amount w).1)) done) in
            absurd (ground (arith, send_payment_answer sender dto w from to a can done))
        | inr (e, failed) ↦
            let world = send_payment_caught sender dto w from to e can failed in
            elim (transfer_partial env from to dto.amount w e failed) [
              | inl same ↦ inl (world ∙ same)
              | inr half ↦ inr (from, to, can, world ∙ half)
            ]
      ]

  -- An answer of failure leaves every table as it was, or has moved the money and lacks the row:
  -- then the world is the one after the exchange of the two wallets.
  pub send_payment_fails :
      (sender : UserWithWallet) (dto : SendPayment) (w : World env) (r : Response)
      → (send_payment env sender dto w).0 ≡ ok r
      → r.success ≡ false
      → ((send_payment env sender dto w).1 ≡ w)
        ⊎ ((from : Wallet) × (to : Wallet) × CanSend sender dto w from to
            × ((send_payment env sender dto w).1 ≡ (exchange env from to dto.amount w).1))
  unfolding send_payment send_to pay ◌>>=◌ get_user_by_unique_identifier
  send_payment_fails sender dto w r h s = elim (Option-cases (recipient w dto)) [
    | inl unknown ↦ inl (ground arith)
    | inr (named, known) ↦ elim (Option-cases named.wallet) [
      | inl bare ↦ inl (ground arith)
      | inr (to, holds) ↦ elim (Option-cases sender.wallet) [
        | inl bare ↦ inl (ground arith)
        | inr (from, own) ↦ elim (Bool-cases (ltb_ℤ from.balance dto.amount)) [
          | inl short ↦ inl (ground arith)
          | inr enough ↦
              let can : CanSend sender dto w from to = record {
                named = named;
                known = known;
                holds = holds;
                own = own;
                covered = ground arith;
              } in
              failed_transfer sender dto w r from to can h s
        ]
      ]
    ]
  ]
