-- ===== src/Payment/Inactive.antt =====
-- Collections from a card that is not active, src/payment/payment.service.ts.
use nfc_payment_api.Prelude.{
  ◌≡◌, Bool, false, Option, none, some, arith, Bool-cases, inl, inr, is_some, refl,
}
use nfc_payment_api.Prelude.Int.{ℤ}
use nfc_payment_api.Schema.{Card, Wallet}
use nfc_payment_api.External.{Env}
use nfc_payment_api.Exec.{Error, Result, ok, err, http, text, ◌>>=◌}
use nfc_payment_api.Exec.Laws.{Result-cases}
use nfc_payment_api.Response.{Response}
use nfc_payment_api.World.{World}
use nfc_payment_api.Payment.{
  Entity, CreatePayment, find_card, collector, approve, charge_card, collect, collect_payment,
}
use nfc_payment_api.Payment.Collect.{collector_keeps}

-- Whether a collection succeeded.
abbrev pub is_success : Result Response → Bool
is_success (ok r) = r.success
is_success (err e) = false

module _ (env : Env) (e : Entity) (dto : CreatePayment) (w : World env) (c : Card)
    (listed : env.find dto.card_id w.cards ≡ some c) (inactive : c.active ≡ false) where
  unapproved : (amount : ℤ) → (error : Error) × (approve env dto amount w ≡ (err error, w))
  unfolding approve find_card ◌>>=◌
  unapproved amount = elim (Bool-cases (is_some c.user_id)) [
    | inl owned ↦ (http 404 (text "Card is inactive"), ground arith)
    | inr free ↦ (http 404 (text "Card not found"), ground arith)
  ]

  uncharged :
      (target : Option Wallet × ℤ)
      → (is_success (charge_card env e dto target w).0 ≡ false)
        × ((charge_card env e dto target w).1 ≡ w)
  unfolding charge_card ◌>>=◌
  uncharged (none, amount) = (refl, refl)
  uncharged (some wallet, amount) =
      let (error, refused) = unapproved amount in (ground (arith), ground (arith))

  -- A collection from an inactive card does not succeed and changes nothing.
  pub inactive_card_cannot_pay :
      (is_success (collect_payment env e dto w).0 ≡ false) × ((collect_payment env e dto w).1 ≡ w)
  unfolding collect_payment collect ◌>>=◌
  inactive_card_cannot_pay = elim (Result-cases (collector env e dto.amount w).0) [
    | inl (target, found) ↦ (
      ground (arith, collector_keeps env e dto.amount w, uncharged target),
      ground (arith, collector_keeps env e dto.amount w, uncharged target),
    )
    | inr (error, failed) ↦ (
      ground (arith, collector_keeps env e dto.amount w),
      ground (arith, collector_keeps env e dto.amount w),
    )
  ]
