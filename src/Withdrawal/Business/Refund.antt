-- ===== src/Withdrawal/Business/Refund.antt =====
-- A payout and the report that its transfer failed: `businessWithdraw` of
-- src/wallet/wallet.service.ts and `Transfer` of src/webhooks/webhooks.service.ts.
use nfc_payment_api.Prelude.{
  ℕ, String, ◌≡◌, refl, true, false, Option, none, some, arith, str_eq, Option-cases, inl, inr, ap,
  ◌∙◌,
}
use nfc_payment_api.Prelude.Int.{ℤ, ◌+ℤ◌, ◌-ℤ◌, int_laws}
use nfc_payment_api.Schema.{User, Wallet, Transaction}
use nfc_payment_api.External.{Env, IsLawful}
use nfc_payment_api.Exec.{ok}
use nfc_payment_api.Response.{Response, Payload, transaction}
use nfc_payment_api.WebhookPayload.{FlutterwaveData}
use nfc_payment_api.World.{World}
use nfc_payment_api.World.Balances.{balance_at}
use nfc_payment_api.Withdrawal.Business.{BusinessWithdraw, business_withdraw}
use nfc_payment_api.Withdrawal.Business.Posting.{IsPaidOut, new_payout, business_withdraw-IsPaidOut}
use nfc_payment_api.Webhook.Transfers.{notified, IsAwaited, failed_transfer_refunds}

-- The reference of the row that an answer carries.
abbrev pub reference_of : Payload → Option String
reference_of (transaction t) = some t.transaction_reference
reference_of _ = none

take_then_add : (b a : ℤ) → b -ℤ a +ℤ a ≡ b
take_then_add b a = grind int_laws

module _ (env : Env) (law : IsLawful env) (dto : BusinessWithdraw) (user : User) (b : ℕ)
    (w w' : World env) (r : Response) (k : IsPaidOut env dto user b w r w') (d : FlutterwaveData)
    (reported : d.reference ≡ reference_of r.payload) where
  row : Transaction
  row = new_payout env user b k.business.name k.wallet k.d w

  awaited :
      (x : Wallet)
      → env.find k.wallet.id w'.wallets ≡ some x
      → IsAwaited env d w' k.d.reference row k.wallet.id x
  unfolding row
  awaited x listed = record {
    reported = reported ∙ ap (λ a. reference_of a.payload) k.answer;
    sole = k.row;
    paid_from = refl;
    wallet = listed;
  }

  restored :
      str_eq d.status "SUCCESSFUL" ≡ false
      → str_eq d.status "FAILED" ≡ true
      → (j : ℕ) → balance_at env (notified env d w') j ≡ balance_at env w j
  unfolding row
  restored other status j = elim (Option-cases (env.find k.wallet.id w'.wallets)) [
    | inl absent ↦ absurd (ground (arith, k.kept))
    | inr (x, listed) ↦
        let (refunded, _) =
          failed_transfer_refunds env law d w' k.d.reference row k.wallet.id x (awaited x listed)
            other status j in
        grind (arith, refunded, k.moved j, take_then_add)
  ]

-- After a payout of a business that was answered with success, the report that the transfer of the
-- reference in the answer failed puts every balance back to what it was before the payout.
pub failed_payout_restores :
    (env : Env) (law : IsLawful env) (dto : BusinessWithdraw) (user : User) (b : ℕ)
    (w w' : World env) (r : Response) (d : FlutterwaveData)
    → user.business_id ≡ some b
    → business_withdraw env dto user w ≡ (ok r, w')
    → r.success ≡ true
    → d.reference ≡ reference_of r.payload
    → str_eq d.status "SUCCESSFUL" ≡ false
    → str_eq d.status "FAILED" ≡ true
    → (j : ℕ) → balance_at env (notified env d w') j ≡ balance_at env w j
failed_payout_restores env law dto user b w w' r d member h s reported other status j =
    restored env law dto user b w w' r
      (business_withdraw-IsPaidOut env law dto user b w r w' member h s) d reported other status j
