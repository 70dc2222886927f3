-- ===== src/Payment/Effects.antt =====
-- What a successful collection has changed.
use mathlib.Core.Option
use nfc_payment_api.Prelude.{◌≡◌, none, some, ℕ, ◌==◌, if◌then◌else◌, arith}
use nfc_payment_api.Prelude.Int.{ℤ, pos, ◌+ℤ◌, ◌≤ℤ◌, naira}
use nfc_payment_api.Schema.{Card, Wallet, Transaction}
use nfc_payment_api.External.{Env, IsLawful}
use nfc_payment_api.Exec.{ok, ◌>>=◌}
use nfc_payment_api.Response.{Response, transaction}
use nfc_payment_api.World.{World, create_transaction}
use nfc_payment_api.Payment.{
  Entity, entity_id, minus, local_day, CreatePayment, payment_row, move_money, record_payment,
}
use nfc_payment_api.World.Balances.{balance_at, shifted}
use nfc_payment_api.Payment.Moves.{
  card_balance_at, move_money-shifted, move_money-card_balance_at, move_money-credited,
  move_money_others, move_money-daily, move_money-counted,
}
use nfc_payment_api.Payment.Collect.{IsCollected}

module _ (env : Env) where
  -- The row that the ledger gains.
  abbrev pub new_payment : Entity → Card → Wallet → Wallet → ℤ → World env → Transaction
  new_payment e c payer wallet amount w = record (payment_row env e c payer wallet amount) {
    id = env.new_id w.transactions;
  }

  module _ (e : Entity) (c : Card) (payer wallet : Wallet) (amount : ℤ) (w w' : World env)
      (r : Response) (h : record_payment env e c (some payer) wallet amount w ≡ (ok r, w')) where
    recorded_wallets : w'.wallets ≡ w.wallets
    unfolding record_payment create_transaction ◌>>=◌
    recorded_wallets = ground arith

    recorded_cards : w'.cards ≡ w.cards
    unfolding record_payment create_transaction ◌>>=◌
    recorded_cards = ground arith

    recorded_row :
        w'.transactions
        ≡ env.write
            (env.new_id w.transactions)
            (new_payment e c payer wallet amount w)
            w.transactions
    unfolding record_payment create_transaction ◌>>=◌
    recorded_row = ground arith

    recorded_payload : r.payload ≡ transaction (new_payment e c payer wallet amount w)
    unfolding record_payment create_transaction ◌>>=◌
    recorded_payload = ground arith

  module _ (law : IsLawful env) (e : Entity) (dto : CreatePayment) (w : World env) (r : Response)
      (w' : World env) (k : IsCollected env e dto w r w') where
    -- A payment from a card with no balance of its own: the payer's wallet falls by the amount,
    -- the collecting wallet rises by it, and the balance of every other wallet stays.
    pub collected-shifted :
        (payer : Wallet)
        → k.card.balance ≡ none
        → k.payer ≡ some payer
        → (j : ℕ)
        → balance_at env w' j ≡ shifted payer.id k.wallet.id k.amount j (balance_at env w j)
    collected-shifted payer from_wallet paid j = ground (
      arith,
      recorded_wallets e k.card payer k.wallet k.amount _ w' r (rw paid at k.recorded),
      move_money-shifted env law (entity_id e) k.card payer k.wallet k.amount w from_wallet
          (rw (← paid) k.moved) j,
    )

    -- A payment from a prepaid card: the card's balance falls by the amount, the collecting wallet
    -- rises by it, and no other card's or wallet's balance changes.
    pub collected_prepaid :
        (payer : Wallet) (b : ℤ)
        → k.card.balance ≡ some b
        → k.payer ≡ some payer
        → (j : ℕ)
        → (card_balance_at env w' j ≡ (
            if k.card.id == j
            then minus (card_balance_at env w j) k.amount
            else card_balance_at env w j))
          × (balance_at env w' j ≡ (
              if k.wallet.id == j
              then Option.map (λ x. x +ℤ k.amount) (balance_at env w j)
              else balance_at env w j))
    collected_prepaid payer b prepaid paid j =
        let recorded = rw paid at k.recorded in
        let moved : (move_money env (entity_id e) k.card (some payer) k.wallet k.amount w).0
            ≡ ok tt =
          rw (← paid) k.moved in
        (
          ground (
            arith,
            recorded_cards e k.card payer k.wallet k.amount _ w' r recorded,
            move_money-card_balance_at env law (entity_id e) k.card (some payer) k.wallet k.amount b
                w prepaid moved j,
          ),
          ground (
            arith,
            recorded_wallets e k.card payer k.wallet k.amount _ w' r recorded,
            move_money-credited env law (entity_id e) k.card (some payer) k.wallet k.amount b w
                prepaid moved j,
          ),
        )

    -- The ledger gains one row, a successful payment of the charged amount by the payer's wallet
    -- to the owner of the collecting wallet, and the answer carries that row.
    pub collected_row :
        (payer : Wallet)
        → k.payer ≡ some payer
        → (env.find (env.new_id w.transactions) w'.transactions
            ≡ some (new_payment e k.card payer k.wallet k.amount w))
          × (r.payload ≡ transaction (new_payment e k.card payer k.wallet k.amount w))
    collected_row payer paid =
        let recorded = rw paid at k.recorded in
        let moved = move_money_others env (entity_id e) k.card (some payer) k.wallet k.amount w in
        (
          ground (
            arith,
            moved.0,
            recorded_row e k.card payer k.wallet k.amount _ w' r recorded,
            law.find-write (env.new_id w.transactions)
                (new_payment e k.card payer k.wallet k.amount w) w.transactions
                (env.new_id w.transactions),
          ),
          ground
              (arith, moved.0, recorded_payload e k.card payer k.wallet k.amount _ w' r recorded),
        )

    -- A payment from a card with no balance of its own is counted in the row of the payer's wallet: to
    -- what the payer's last payment of the same day left there, or to nothing on another day, the amount
    -- is added, the sum is 50,000 naira at most, and the time is that of the payment.
    pub collected_daily :
        (payer : Wallet)
        → k.card.balance ≡ none
        → k.payer ≡ some payer
        → (row : Wallet) × (env.find payer.id w'.wallets ≡ some row)
          × (row.total_transaction_amount_today ≡ (
              if local_day payer.latest_transaction_timestamp == local_day (some env.now)
              then payer.total_transaction_amount_today +ℤ k.amount
              else pos 0 +ℤ k.amount))
          × (row.total_transaction_amount_today ≤ℤ naira 50000)
          × (row.latest_transaction_timestamp ≡ some env.now)
    collected_daily payer from_wallet paid =
        let moved : (move_money env (entity_id e) k.card (some payer) k.wallet k.amount w).0
            ≡ ok tt =
          rw (← paid) k.moved in
        let (row, listed, counted, timed) =
          move_money-counted env law (entity_id e) k.card payer k.wallet k.amount w from_wallet
            moved in
        let limit =
          move_money-daily env (entity_id e) k.card payer k.wallet k.amount w from_wallet moved in
        (
          row,
          ground (
            arith,
            recorded_wallets e k.card payer k.wallet k.amount _ w' r (rw paid at k.recorded),
          ),
          ground (arith),
          ground (arith),
          timed,
        )
