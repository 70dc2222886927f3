-- ===== src/Transfer/Moves.antt =====
-- What `exchange`, `transfer` and `pay` write, and when they refuse.
use nfc_payment_api.Prelude.{◌≡◌, refl, true, false, ◌⊎◌, some, ℕ, arith, is_some}
use nfc_payment_api.Prelude.Int.{ℤ}
use nfc_payment_api.Schema.{Wallet, Transaction, TransactionType}
use nfc_payment_api.External.{Env, IsLawful}
use nfc_payment_api.Exec.{ok, err, Error, ◌>>=◌}
use nfc_payment_api.Response.{Response, transaction, succeeded}
use nfc_payment_api.World.{
  World, update_wallet, create_transaction, find_reference, references_resolve,
}
use nfc_payment_api.World.Balances.{
  add_balance, take_balance, balance_at, shifted, debit_credit-shifted,
}
use nfc_payment_api.Reference.{generate}
use nfc_payment_api.Transfer.{transfer_row, exchange, transfer}

module _ (env : Env) (from to : Wallet) (amount : ℤ) (w : World env) where
  pub exchange_atomic :
      (e : Error)
      → (exchange env from to amount w).0 ≡ err e
      → (exchange env from to amount w).1 ≡ w
  unfolding exchange ◌>>=◌
  exchange_atomic e h = ground arith

  module _ (law : IsLawful env) (done : (exchange env from to amount w).0 ≡ ok tt) where
    taken : (update_wallet env from.id (take_balance amount) w).0 ≡ ok tt
    unfolding exchange ◌>>=◌
    taken = ground arith

    added :
        (update_wallet env to.id
          (add_balance amount)
          (update_wallet env from.id (take_balance amount) w).1).0
        ≡ ok tt
    unfolding exchange ◌>>=◌
    added = ground arith

    exchanged :
        (exchange env from to amount w).1
        ≡ (update_wallet env to.id
            (add_balance amount)
            (update_wallet env from.id (take_balance amount) w).1).1
    unfolding exchange ◌>>=◌
    exchanged = ground arith

    pub exchange-shifted :
        (j : ℕ)
        → balance_at env (exchange env from to amount w).1 j
          ≡ shifted from.id to.id amount j (balance_at env w j)
    exchange-shifted j = ground (
      arith,
      exchanged,
      debit_credit-shifted env law from.id to.id amount (take_balance amount) w (λ r. refl) taken
          added j,
    )

  -- Only the wallets change.
  pub exchange_others :
      let w' = (exchange env from to amount w).1 in
      (w'.transactions ≡ w.transactions)
      × (w'.cards ≡ w.cards)
      × (w'.users ≡ w.users)
      × (w'.stations ≡ w.stations)
      × (w'.businesses ≡ w.businesses)
  unfolding exchange ◌>>=◌
  exchange_others = ground arith

  -- If both wallets are listed, the exchange is made.
  pub exchange_total :
      (r : Wallet)
      → IsLawful env
      → env.find from.id w.wallets ≡ some r
      → is_some (env.find to.id w.wallets) ≡ true
      → (exchange env from to amount w).0 ≡ ok tt
  unfolding exchange ◌>>=◌
  exchange_total r law listed known =
      ground (arith, law.find-write from.id (take_balance amount r) w.wallets to.id)

  -- The row that the ledger gains.
  abbrev pub new_transfer : Transaction
  new_transfer = record (transfer_row env from to amount) { id = env.new_id w.transactions }

  -- A transfer that resolved has made the exchange and added the row.
  pub transfer-eq-ok :
      (r : Response) (w' : World env)
      → transfer env from to amount w ≡ (ok r, w')
      → ((exchange env from to amount w).0 ≡ ok tt)
        × (w'.wallets ≡ (exchange env from to amount w).1.wallets)
        × (w'.transactions ≡ env.write (env.new_id w.transactions) new_transfer w.transactions)
        × (r ≡ succeeded "Successfully sent payment" (transaction new_transfer))
  unfolding transfer create_transaction ◌>>=◌
  transfer-eq-ok r w' h = ground (arith, exchange_others)

  -- With both wallets listed, a fresh reference and a valid row, a transfer resolves.
  pub transfer_total :
      (r : Wallet)
      → IsLawful env
      → env.find from.id w.wallets ≡ some r
      → is_some (env.find to.id w.wallets) ≡ true
      → is_some (find_reference env w (generate env TransactionType.transfer)) ≡ false
      → references_resolve env (exchange env from to amount w).1 (transfer_row env from to amount)
        ≡ true
      → (transfer env from to amount w).0
        ≡ ok (succeeded "Successfully sent payment" (transaction new_transfer))
  unfolding transfer create_transaction ◌>>=◌
  transfer_total r law listed known fresh valid =
      ground (arith, exchange_others, exchange_total r law listed known)

  -- A transfer that throws has written nothing, or the exchange without a row.
  pub transfer_partial :
      (e : Error)
      → (transfer env from to amount w).0 ≡ err e
      → ((transfer env from to amount w).1 ≡ w)
        ⊎ ((transfer env from to amount w).1 ≡ (exchange env from to amount w).1)
  unfolding transfer create_transaction ◌>>=◌
  transfer_partial e h = ground (arith, exchange_atomic e)
