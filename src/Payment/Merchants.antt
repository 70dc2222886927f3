-- ===== src/Payment/Merchants.antt =====
-- Collections by a merchant, who is a user and no station. The ledger row names the collector's
-- identifier as a station, and a payment from a wallet updates a station of that identifier.
use nfc_payment_api.Prelude.{◌≡◌, ◌≢◌, true, Option, none, some, inl, inr, Option-cases, arith}
use nfc_payment_api.Prelude.Int.{ℤ, ◌≤ℤ◌, naira}
use nfc_payment_api.Schema.{User, Card, Wallet}
use nfc_payment_api.External.{Env}
use nfc_payment_api.Exec.{Message, text, ok, err, http, try_catch, rethrow_http, ◌>>=◌}
use nfc_payment_api.Response.{Response}
use nfc_payment_api.World.{World, create_transaction}
use nfc_payment_api.Payment.{
  Entity, CreatePayment, collector, approve, move_money, record_payment, settle, charge_card,
  collect_payment,
}
use nfc_payment_api.Payment.Guards.{approve_keeps}
use nfc_payment_api.Payment.Moves.{move_money-station, move_money_stations}
use nfc_payment_api.Payment.Collect.{IsCollected, collect_payment-IsCollected, collector_keeps}

module _ (env : Env) where
  -- The foreign key of the station is violated, whatever else holds.
  record_payment_unavailable :
      (u : User) (c : Card) (uw : Option Wallet) (wallet : Wallet) (amount : ℤ) (w : World env)
      (m : Message)
      → env.find u.id w.stations ≡ none
      → try_catch (record_payment env (Entity.user u) c uw wallet amount) (rethrow_http m) w
        ≡ (err (http 503 m), w)
  unfolding record_payment create_transaction ◌>>=◌
  record_payment_unavailable u c uw wallet amount w m absent = ground arith

  merchant-IsCollected :
      (u : User) (dto : CreatePayment) (w w' : World env) (r : Response)
      → env.find u.id w.stations ≡ none
      → IsCollected env (Entity.user u) dto w r w'
      → ⊥
  merchant-IsCollected u dto w w' r absent k = elim (Option-cases k.card.balance) [
    | inl from_wallet ↦
        ground (
          arith,
          move_money-station env u.id k.card k.payer k.wallet k.amount w from_wallet k.moved,
        )
    | inr (b, prepaid) ↦
        let w₁ : World env = (move_money env u.id k.card k.payer k.wallet k.amount w).1 in
        let same : w₁.stations ≡ w.stations =
          move_money_stations env u.id k.card k.payer k.wallet k.amount b w prepaid in
        ground (
          arith,
          k.recorded,
          record_payment_unavailable u k.card k.payer k.wallet k.amount w₁ (text "Payment failed")
              (rw same absent),
        )
  ]

  -- A user who is no station never collects: no collection by a merchant answers with success.
  pub merchant_never_collects :
      (u : User) (dto : CreatePayment) (w w' : World env) (r : Response)
      → env.find u.id w.stations ≡ none
      → collect_payment env (Entity.user u) dto w ≡ (ok r, w')
      → r.success ≢ true
  merchant_never_collects u dto w w' r absent h s =
      merchant-IsCollected u dto w w' r absent
        (collect_payment-IsCollected env (Entity.user u) dto w r w' h s)

  -- A merchant who takes a payment from a prepaid card that passes every check gets an error 503,
  -- and the money has moved: the world is the one after `move_money`, with no ledger row.
  pub merchant_charges_unrecorded :
      (u : User) (dto : CreatePayment) (w : World env) (wallet : Wallet) (amount b : ℤ) (c : Card)
      (uw : Option Wallet)
      → env.find u.id w.stations ≡ none
      → dto.amount ≤ℤ naira 15000
      → (collector env (Entity.user u) dto.amount w).0 ≡ ok (some wallet, amount)
      → (approve env dto amount w).0 ≡ ok (c, uw)
      → c.balance ≡ some b
      → (move_money env u.id c uw wallet amount w).0 ≡ ok tt
      → collect_payment env (Entity.user u) dto w
        ≡ (err (http 503 (text "Payment failed")), (move_money env u.id c uw wallet amount w).1)
  unfolding collect_payment charge_card settle ◌>>=◌
  merchant_charges_unrecorded u dto w wallet amount b c uw absent small target approved prepaid
        moved =
      ground (
        arith,
        collector_keeps env (Entity.user u) dto.amount w,
        approve_keeps env dto amount w,
        record_payment_unavailable u c uw wallet amount (move_money env u.id c uw wallet amount w).1
            (text "Payment failed")
            (rw (move_money_stations env u.id c uw wallet amount b w prepaid) absent),
      )
