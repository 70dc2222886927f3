-- ===== src/Payment/Moves.antt =====
-- `move_money`: what it writes, and what it leaves.
use mathlib.Core.Option
use nfc_payment_api.Prelude.{
  ℕ, ◌≡◌, refl, true, is_some, Option, none, some, ◌==◌, inl, inr, Option-cases, Bool-cases, arith,
  if◌then◌else◌,
}
use nfc_payment_api.Prelude.Int.{ℤ, ◌+ℤ◌, ◌≤ℤ◌, naira}
use nfc_payment_api.Schema.{Card, Wallet}
use nfc_payment_api.External.{Env, IsLawful}
use nfc_payment_api.Exec.{Error, ok, err, ◌>>=◌}
use nfc_payment_api.World.{World, update_wallet, update_card}
use nfc_payment_api.World.Balances.{
  add_balance, balance_at, shifted, update_wallet-balance_at, debit_credit-shifted,
}
use nfc_payment_api.Payment.{add_balance, spend, minus, spent_today, spend_from_wallet, move_money}

module _ (env : Env) where
  pub move_money_atomic :
      (id : ℕ) (c : Card) (uw : Option Wallet) (wallet : Wallet) (amount : ℤ) (w : World env)
      (e : Error)
      → (move_money env id c uw wallet amount w).0 ≡ err e
      → (move_money env id c uw wallet amount w).1 ≡ w
  unfolding move_money ◌>>=◌
  move_money_atomic id c uw wallet amount w e h = ground arith

  module _ (law : IsLawful env) (id : ℕ) (c : Card) (payer wallet : Wallet) (amount : ℤ)
      (w : World env) (from_wallet : c.balance ≡ none)
      (done : (move_money env id c (some payer) wallet amount w).0 ≡ ok tt) where
    debited : World env
    debited =
        (update_wallet env payer.id (spend_from_wallet env (spent_today env payer) amount) w).1

    debit_ok :
        (update_wallet env payer.id (spend_from_wallet env (spent_today env payer) amount) w).0
        ≡ ok tt
    unfolding move_money ◌>>=◌
    debit_ok = ground arith

    credit_ok : (update_wallet env wallet.id (add_balance amount) debited).0 ≡ ok tt
    unfolding move_money ◌>>=◌ debited
    credit_ok = ground arith

    moved_wallets :
        (move_money env id c (some payer) wallet amount w).1.wallets
        ≡ (update_wallet env wallet.id (add_balance amount) debited).1.wallets
    unfolding move_money ◌>>=◌ debited
    moved_wallets = ground arith

    debit_credit :
        (j : ℕ)
        → balance_at env (update_wallet env wallet.id (add_balance amount) debited).1 j
          ≡ shifted payer.id wallet.id amount j (balance_at env w j)
    unfolding debited
    debit_credit =
        debit_credit-shifted env law payer.id wallet.id amount
          (spend_from_wallet env (spent_today env payer) amount) w (λ r. refl) debit_ok credit_ok

    pub move_money-shifted :
        (j : ℕ)
        → balance_at env (move_money env id c (some payer) wallet amount w).1 j
          ≡ shifted payer.id wallet.id amount j (balance_at env w j)
    move_money-shifted j = ground (arith, moved_wallets, debit_credit j)

    -- The payer's row counts the payment.
    pub move_money-counted :
        (row : Wallet) × (env.find payer.id
            (move_money env id c (some payer) wallet amount w).1.wallets
          ≡ some row)
        × (row.total_transaction_amount_today ≡ spent_today env payer +ℤ amount)
        × (row.latest_transaction_timestamp ≡ some env.now)
    unfolding debited
    move_money-counted =
        let spent = spend_from_wallet env (spent_today env payer) amount in
        elim (Option-cases (env.find payer.id w.wallets)) [
          | inl absent ↦ absurd (ground (arith, debit_ok))
          | inr (r, listed) ↦
              let once = law.find-write payer.id (spent r) w.wallets in
              elim (Bool-cases (wallet.id == payer.id)) [
                | inl same ↦ (
                  add_balance amount (spent r),
                  ground (
                    arith,
                    moved_wallets,
                    once wallet.id,
                    law.find-write wallet.id (add_balance amount (spent r))
                        (env.write payer.id (spent r) w.wallets) payer.id,
                  ),
                  refl,
                  refl,
                )
                | inr apart ↦ elim (Option-cases (env.find wallet.id debited.wallets)) [
                  | inl gone ↦ absurd (ground (arith, credit_ok))
                  | inr (b, there) ↦ (
                    spent r,
                    ground (
                      arith,
                      moved_wallets,
                      once payer.id,
                      law.find-write wallet.id (add_balance amount b)
                          (env.write payer.id (spent r) w.wallets) payer.id,
                    ),
                    refl,
                    refl,
                  )
                ]
              ]
        ]

  -- A card's own balance.
  abbrev pub card_balance_at : World env → ℕ → Option ℤ
  card_balance_at w j = elim (env.find j w.cards) [ none ↦ none | some r ↦ r.balance ]

  module _ (law : IsLawful env) (id : ℕ) (c : Card) (uw : Option Wallet) (wallet : Wallet)
      (amount b : ℤ) (w : World env) (prepaid : c.balance ≡ some b)
      (done : (move_money env id c uw wallet amount w).0 ≡ ok tt) where
    spent_card : World env
    spent_card = (update_card env c.id (spend amount) w).1

    spend_ok : (update_card env c.id (spend amount) w).0 ≡ ok tt
    unfolding move_money ◌>>=◌
    spend_ok = ground arith

    pay_ok : (update_wallet env wallet.id (add_balance amount) spent_card).0 ≡ ok tt
    unfolding move_money ◌>>=◌ spent_card
    pay_ok = ground arith

    paid :
        (move_money env id c uw wallet amount w).1
        ≡ (update_wallet env wallet.id (add_balance amount) spent_card).1
    unfolding move_money ◌>>=◌ spent_card
    paid = ground arith

    spent_card_wallets : spent_card.wallets ≡ w.wallets
    unfolding spent_card
    spent_card_wallets = ground arith

    spent_card_balance :
        (j : ℕ)
        → card_balance_at spent_card j
          ≡ (if c.id == j then minus (card_balance_at w j) amount else card_balance_at w j)
    unfolding spent_card
    spent_card_balance j = elim (Option-cases (env.find c.id w.cards)) [
      | inl absent ↦ absurd (ground (arith, spend_ok))
      | inr (r, e) ↦ ground (arith, law.find-write c.id (spend amount r) w.cards j)
    ]

    paid_cards : (move_money env id c uw wallet amount w).1.cards ≡ spent_card.cards
    unfolding spent_card
    paid_cards = ground (arith, paid)

    -- The card's balance falls by the amount, and no other card's changes.
    pub move_money-card_balance_at :
        (j : ℕ)
        → card_balance_at (move_money env id c uw wallet amount w).1 j
          ≡ (if c.id == j then minus (card_balance_at w j) amount else card_balance_at w j)
    move_money-card_balance_at j = ground (arith, paid_cards, spent_card_balance j)

    -- The collecting wallet's balance rises by the amount, and no other wallet's changes.
    pub move_money-credited :
        (j : ℕ)
        → balance_at env (move_money env id c uw wallet amount w).1 j ≡ (
            if wallet.id == j
            then Option.map (λ x. x +ℤ amount) (balance_at env w j)
            else balance_at env w j)
    move_money-credited j = ground (
      arith,
      paid,
      spent_card_wallets,
      update_wallet-balance_at env law wallet.id (add_balance amount) (λ x. x +ℤ amount) spent_card
          (λ r. refl) pay_ok j,
    )

  -- From a wallet, the day's payments stay within 50,000 naira, and the payer's row counts them.
  pub move_money-daily :
      (id : ℕ) (c : Card) (payer wallet : Wallet) (amount : ℤ) (w : World env)
      → c.balance ≡ none
      → (move_money env id c (some payer) wallet amount w).0 ≡ ok tt
      → spent_today env payer +ℤ amount ≤ℤ naira 50000
  unfolding move_money ◌>>=◌
  move_money-daily id c payer wallet amount w from_wallet done = ground arith

  -- A payment from a wallet needs a payer, and a row for the collecting station.
  pub move_money-station :
      (id : ℕ) (c : Card) (uw : Option Wallet) (wallet : Wallet) (amount : ℤ) (w : World env)
      → c.balance ≡ none
      → (move_money env id c uw wallet amount w).0 ≡ ok tt
      → is_some (env.find id w.stations) ≡ true
  unfolding move_money ◌>>=◌
  move_money-station id c uw wallet amount w from_wallet done = ground arith

  -- The other tables stay as they are.
  pub move_money_others :
      (id : ℕ) (c : Card) (uw : Option Wallet) (wallet : Wallet) (amount : ℤ) (w : World env)
      → let w' = (move_money env id c uw wallet amount w).1 in
        (w'.transactions ≡ w.transactions)
        × (w'.users ≡ w.users)
        × (w'.businesses ≡ w.businesses)
        × (w'.events ≡ w.events)
  unfolding move_money ◌>>=◌
  move_money_others id c uw wallet amount w = ground arith

  pub move_money_stations :
      (id : ℕ) (c : Card) (uw : Option Wallet) (wallet : Wallet) (amount b : ℤ) (w : World env)
      → c.balance ≡ some b
      → (move_money env id c uw wallet amount w).1.stations ≡ w.stations
  unfolding move_money ◌>>=◌
  move_money_stations id c uw wallet amount b w prepaid = ground arith
