-- ===== src/Payment/Entries.antt =====
-- A collection as one entry of the accounts, src/payment/payment.service.ts.
use mathlib.Core.Option
use nfc_payment_api.Prelude.{
  ℕ, ◌≡◌, refl, ◌⊎◌, inl, inr, Option, none, some, Option-cases, ◌==◌, if◌then◌else◌, arith,
}
use nfc_payment_api.Prelude.Int.{ℤ, ◌+ℤ◌}
use nfc_payment_api.Schema.{Wallet, Card}
use nfc_payment_api.External.{Env, IsLawful}
use nfc_payment_api.Exec.{ok, ◌>>=◌}
use nfc_payment_api.Response.{Response}
use nfc_payment_api.World.{World}
use nfc_payment_api.World.Balances.{shifted, balance_at}
use nfc_payment_api.Payment.{Entity, CreatePayment, record_payment}
use nfc_payment_api.Payment.Collect.{IsCollected}
use nfc_payment_api.Payment.Effects.{collected-shifted, collected_prepaid}

module _ (env : Env) where
  -- The ledger row names the payer's wallet.
  recorded_payer :
      (e : Entity) (c : Card) (wallet : Wallet) (amount : ℤ) (w : World env) (r : Response)
      (w' : World env) (o : Option Wallet)
      → record_payment env e c o wallet amount w ≡ (ok r, w')
      → (payer : Wallet) × (o ≡ some payer)
  unfolding record_payment ◌>>=◌
  recorded_payer e c wallet amount w r w' none h = absurd (ground arith)
  recorded_payer e c wallet amount w r w' (some payer) h = (payer, refl)

  -- From wallet to wallet, or from a prepaid card to a wallet.
  pub collected_entry :
      (law : IsLawful env) (e : Entity) (dto : CreatePayment) (w : World env) (r : Response)
      (w' : World env) (k : IsCollected env e dto w r w')
      → ((payer : Wallet) × ((j : ℕ)
            → balance_at env w' j ≡ shifted payer.id k.wallet.id k.amount j (balance_at env w j)))
        ⊎ ((j : ℕ)
            → balance_at env w' j ≡ (
                if k.wallet.id == j
                then Option.map (λ x. x +ℤ k.amount) (balance_at env w j)
                else balance_at env w j))
  collected_entry law e dto w r w' k =
      let (payer, paid) = recorded_payer e k.card k.wallet k.amount _ r w' k.payer k.recorded in
      elim (Option-cases k.card.balance) [
        | inl from_wallet ↦
            inl (payer, collected-shifted env law e dto w r w' k payer from_wallet paid)
        | inr (b, prepaid) ↦
            inr (λ j. (collected_prepaid env law e dto w r w' k payer b prepaid paid j).1)
      ]
