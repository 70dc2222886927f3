-- ===== src/Accounts/Refinement.antt =====
-- The services refine the accounts, src/payment/payment.service.ts and src/wallet/wallet.service.ts.
use nfc_payment_api.Prelude.{
  ℕ, ◌≡◌, refl, sym, ap, ◌∙◌, true, List, [], ◌∷◌, ◌⊎◌, inl, inr, Bool-cases,
}
use nfc_payment_api.Prelude.Int.{ℤ}
use nfc_payment_api.Schema.{Wallet}
use nfc_payment_api.External.{Env, IsLawful}
use nfc_payment_api.Exec.{ok}
use nfc_payment_api.Exec.Laws.{Result-cases}
use nfc_payment_api.Response.{Response, UserWithWallet}
use nfc_payment_api.World.{World}
use nfc_payment_api.World.Balances.{balance_at}
use nfc_payment_api.Payment.{Entity, CreatePayment, collect_payment}
use nfc_payment_api.Payment.Collect.{collect_payment-IsCollected}
use nfc_payment_api.Payment.Entries.{collected_entry}
use nfc_payment_api.Transfer.{SendPayment, send_payment, exchange}
use nfc_payment_api.Transfer.Moves.{exchange_atomic, exchange-shifted}
use nfc_payment_api.Transfer.Laws.{send_payment-IsSent, send_payment_fails}
use nfc_payment_api.Withdrawal.{WithdrawIntoBankAccount, user_withdraw}
use nfc_payment_api.Withdrawal.Laws.{user_withdraw-IsWithdrawn, user_withdraw-refused}
use nfc_payment_api.Funding.Laws.{funding_is_limited}
use nfc_payment_api.Accounts.{
  Entry, idle, moves, comes, leaves, post, post_all, Fits, FitsAll, Step, collects, sends,
  withdraws, funds, Run, done, next,
}

module _ (env : Env) (law : IsLawful env) where
  -- The entry that a step posts.
  abbrev Posts : World env → World env → Entry → Type 0
  Posts w w' e = (j : ℕ) → balance_at env w' j ≡ post e j (balance_at env w j)

  unchanged : (w w' : World env) → w'.wallets ≡ w.wallets → Posts w w' idle
  unchanged w w' same j = ap (λ t. balance_at env (record w { wallets = t }) j) same

  collection :
      (e : Entity) (dto : CreatePayment) (r : Response) (w w' : World env)
      → (h : collect_payment env e dto w ≡ (ok r, w')) → (s : r.success ≡ true)
      → (x : Entry) × (Fits env (collects e dto r h s) x × Posts w w' x)
  collection e dto r w w' h s =
      let k = collect_payment-IsCollected env e dto w r w' h s in
      elim (collected_entry env law e dto w r w' k) [
        | inl (payer, shift) ↦ (
          moves payer.id k.wallet.id k.amount,
          (inl (payer.id, (k.wallet.id, (k.amount, refl))), shift),
        )
        | inr credit ↦ (comes k.wallet.id k.amount, (inr (k.wallet.id, (k.amount, refl)), credit))
      ]

  exchanged :
      (from to : Wallet) (amount : ℤ) (w : World env)
      → (x : Entry) × (((x ≡ idle) ⊎ ((a : ℕ) × ((b : ℕ) × (x ≡ moves a b amount))))
          × Posts w (exchange env from to amount w).1 x)
  exchanged from to amount w = elim (Result-cases (exchange env from to amount w).0) [
    | inr (e, failed) ↦ (
      idle,
      (
        inl refl,
        unchanged w (exchange env from to amount w).1
            (ap (λ x. x.wallets) (exchange_atomic env from to amount w e failed)),
      ),
    )
    | inl (made, moved) ↦ (
      moves from.id to.id amount,
      (inr (from.id, (to.id, refl)), exchange-shifted env from to amount w law moved),
    )
  ]

  sending :
      (sender : UserWithWallet) (dto : SendPayment) (r : Response) (w w' : World env)
      → (h : send_payment env sender dto w ≡ (ok r, w'))
      → (x : Entry) × (Fits env (sends sender dto r h) x × Posts w w' x)
  sending sender dto r w w' h = elim (Bool-cases r.success) [
    | inl s ↦
        let k = send_payment-IsSent env sender dto w r w' law h s in
        (moves k.from.id k.to.id dto.amount, (inr (k.from.id, (k.to.id, refl)), k.moved))
    | inr s ↦
        let reached : (send_payment env sender dto w).1 ≡ w' = ap (λ x. x.1) h in
        elim (send_payment_fails env sender dto w r (ap (λ x. x.0) h) s) [
          | inl same ↦ (idle, (inl refl, unchanged w w' (ap (λ x. x.wallets) (sym reached ∙ same))))
          | inr (from, to, _, half) ↦
              let (x, (fit, posted)) = exchanged from to dto.amount w in
              (x, (fit, rw (sym reached ∙ half) posted))
        ]
  ]

  withdrawal :
      (user : UserWithWallet) (dto : WithdrawIntoBankAccount) (r : Response) (w w' : World env)
      → (h : user_withdraw env user dto w ≡ (ok r, w'))
      → (x : Entry) × (Fits env (withdraws user dto r h) x × Posts w w' x)
  withdrawal user dto r w w' h = elim (Bool-cases r.success) [
    | inl s ↦
        let k = user_withdraw-IsWithdrawn env user dto w r w' law h s in
        (leaves k.wallet.id k.d.amount, (inr (k.wallet.id, (k.d.amount, refl)), k.moved))
    | inr s ↦
        let (_, same, _) = user_withdraw-refused env user dto w r (ap (λ x. x.0) h) s in
        (idle, (inl refl, unchanged w w' (sym (ap (λ x. x.1.wallets) h) ∙ same)))
  ]

  step-refines :
      (w w' : World env) (s : Step env w w') → (x : Entry) × (Fits env s x × Posts w w' x)
  step-refines w w' (collects e dto r h s) = collection e dto r w w' h s
  step-refines w w' (sends sender dto r h) = sending sender dto r w w' h
  step-refines w w' (withdraws user dto r h) = withdrawal user dto r w w' h
  step-refines w w' (funds user wallet own amount r held h s) =
      let (_, _, same, _) = funding_is_limited env user wallet own amount w w' r law held h s in
      (idle, (refl, unchanged w w' same))

  -- A run of answered requests posts one entry for each, in their order, and each wallet holds in the
  -- end what the entries make of what it held: a collection with success posts a move from wallet to
  -- wallet or an amount from a prepaid card, a transfer the move of its amount or nothing, a
  -- withdrawal an amount that leaves or nothing, and a request to fund a wallet nothing.
  pub run-refines :
      (w w' : World env) (run : Run env w w')
      → (l : List Entry) × (FitsAll env run l
          × ((j : ℕ) → balance_at env w' j ≡ post_all l j (balance_at env w j)))
  run-refines w w' done = ([], (tt, λ j. refl))
  run-refines w w' (next {w' = v} s r) =
      let (x, (fit, posted)) = step-refines w v s in
      let (l, (fit_all, rest)) = run-refines v w' r in
      (x ∷ l, ((fit, fit_all), λ j. rest j ∙ ap (post_all l j) (posted j)))
