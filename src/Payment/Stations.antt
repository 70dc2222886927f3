-- ===== src/Payment/Stations.antt =====
-- Collections by a station that fixes the amount.
use nfc_payment_api.Prelude.{◌≡◌, refl, true, Option, none, some, arith}
use nfc_payment_api.Prelude.Int.{ℤ, ◌≤ℤ◌, naira}
use nfc_payment_api.Schema.{Station, Wallet}
use nfc_payment_api.External.{Env}
use nfc_payment_api.Exec.{◌>>=◌}
use nfc_payment_api.World.{World}
use nfc_payment_api.Payment.{
  Entity, CreatePayment, collector, find_card, authorise, approve, charge_card, collect,
  collect_payment,
}

module _ (env : Env) where
  collector_fixed :
      (s current : Station) (a b : ℤ) (w : World env)
      → env.find s.id w.stations ≡ some current
      → current.amount_is_fixed ≡ true
      → collector env (Entity.station s) a w ≡ collector env (Entity.station s) b w
  unfolding collector ◌>>=◌
  collector_fixed s current a b w listed fixed = ground arith

  approve_small :
      (d d' : CreatePayment) (amount : ℤ) (w : World env)
      → d.amount ≤ℤ naira 500
      → d'.amount ≤ℤ naira 500
      → d.card_id ≡ d'.card_id
      → d.private_key ≡ d'.private_key
      → approve env d amount w ≡ approve env d' amount w
  unfolding approve authorise find_card ◌>>=◌
  approve_small d d' amount w p q same_card same_key = ground arith

  charge_card_small :
      (e : Entity) (d d' : CreatePayment) (t : Option Wallet × ℤ) (w : World env)
      → d.amount ≤ℤ naira 500
      → d'.amount ≤ℤ naira 500
      → d.card_id ≡ d'.card_id
      → d.private_key ≡ d'.private_key
      → charge_card env e d t w ≡ charge_card env e d' t w
  unfolding charge_card ◌>>=◌
  charge_card_small e d d' (none, amount) w p q same_card same_key = refl
  charge_card_small e d d' (some wallet, amount) w p q same_card same_key =
      ground (arith, approve_small d d' amount w)

  -- Where a station fixes the amount, any two requests of at most 500 naira with the same card and
  -- secret have the same outcome, whatever PIN they carry and whatever amount the station fixes.
  pub fixed_amount_skips_pin :
      (s current : Station) (d d' : CreatePayment) (w : World env)
      → env.find s.id w.stations ≡ some current
      → current.amount_is_fixed ≡ true
      → d.amount ≤ℤ naira 500
      → d'.amount ≤ℤ naira 500
      → d.card_id ≡ d'.card_id
      → d.private_key ≡ d'.private_key
      → collect_payment env (Entity.station s) d w ≡ collect_payment env (Entity.station s) d' w
  unfolding collect_payment collect ◌>>=◌
  fixed_amount_skips_pin s current d d' w listed fixed p q same_card same_key = grind (
    arith,
    collector_fixed s current d.amount d'.amount w listed fixed,
    charge_card_small (Entity.station s) d d',
  )
