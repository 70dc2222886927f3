-- ===== src/Payment/Tests.antt =====
-- PaymentService on the database of `Samples`, src/payment/payment.service.ts.
mod Prepaid
use nfc_payment_api.Prelude.{
  ℕ, ◌≡◌, ◌≢◌, refl, true, ◌⊎◌, none, some, inr, ◌==◌, if◌then◌else◌, arith,
}
use nfc_payment_api.Prelude.Int.{pos, ◌+ℤ◌, ◌-ℤ◌, ◌≤ℤ◌, naira}
use nfc_payment_api.External.Memory.{memory, memory-IsLawful}
use nfc_payment_api.Exec.{ok, err, http, text, ◌>>=◌}
use nfc_payment_api.Response.{Response, transaction, refused, succeeded}
use nfc_payment_api.World.{World, create_transaction}
use nfc_payment_api.World.Balances.{balance_at, shifted}
use nfc_payment_api.Payment.{
  Entity, CreatePayment, minus, local_day, spent_today, collect_payment, charge_card, settle,
  approve, find_card, authorise, collector, move_money, record_payment,
}
use nfc_payment_api.Payment.Guards.{PinVerified}
use nfc_payment_api.Payment.Collect.{
  IsCollected, collect_payment-IsCollected, collect_payment_refused,
}
use nfc_payment_api.Payment.Effects.{
  new_payment, collected-shifted, collected_prepaid, collected_row, collected_daily,
}
use nfc_payment_api.Payment.Moves.{card_balance_at}
use nfc_payment_api.Payment.Merchants.{merchant_never_collects, merchant_charges_unrecorded}
use nfc_payment_api.Payment.Stations.{fixed_amount_skips_pin}
use nfc_payment_api.Schema.{User, Wallet}
use mathlib.Core.Option
use nfc_payment_api.Samples.{
  start, merchant, merchant_wallet, bus, boat, customer, wallet_card, prepaid_card, customer_wallet,
  line_wallet,
}

abbrev pub ride : CreatePayment
ride = record { amount = naira 600; card_id = 0; private_key = "secret 0"; password = some "1234" }

abbrev ride_answer : Response
ride_answer = succeeded "Payment Successful" (
    transaction (
      new_payment memory (Entity.station bus) wallet_card customer_wallet line_wallet (naira 600)
        start))

abbrev after_ride : World memory
after_ride = (collect_payment memory (Entity.station bus) ride start).1

ride_resolves :
    collect_payment memory (Entity.station bus) ride start ≡ (ok ride_answer, after_ride)
unfolding collect_payment collector charge_card settle approve find_card authorise move_money
    record_payment create_transaction ◌>>=◌ ◌+ℤ◌ ◌-ℤ◌
ride_resolves = refl

collect_payment-IsCollected_example :
    IsCollected memory (Entity.station bus) ride start ride_answer after_ride
collect_payment-IsCollected_example =
    collect_payment-IsCollected memory (Entity.station bus) ride start ride_answer after_ride
      ride_resolves refl

abbrev owner_pin : PinVerified memory ride wallet_card start
owner_pin = record {
  owner = customer;
  hash = "1234";
  password = "1234";
  owned = refl;
  stored = refl;
  given = refl;
  verified = refl;
}

ride_target :
    (collector memory (Entity.station bus) (naira 600) start).0 ≡ ok (some line_wallet, naira 600)
unfolding collector ◌>>=◌
ride_target = refl

ride_moved :
    (move_money memory 0 wallet_card (some customer_wallet) line_wallet (naira 600) start).0 ≡ ok tt
unfolding move_money ◌>>=◌ ◌+ℤ◌ ◌-ℤ◌
ride_moved = refl

ride_recorded :
    record_payment memory
      (Entity.station bus)
      wallet_card
      (some customer_wallet)
      line_wallet
      (naira 600)
      (move_money memory 0 wallet_card (some customer_wallet) line_wallet (naira 600) start).1
    ≡ (ok ride_answer, after_ride)
unfolding collect_payment collector charge_card settle approve find_card authorise move_money
    record_payment create_transaction ◌>>=◌ ◌+ℤ◌ ◌-ℤ◌
ride_recorded = refl

abbrev ride_steps : IsCollected memory (Entity.station bus) ride start ride_answer after_ride
ride_steps = record {
  wallet = line_wallet;
  amount = naira 600;
  card = wallet_card;
  payer = some customer_wallet;
  limited = omega arith;
  target = ride_target;
  approved = record {
    found = refl;
    owned = refl;
    active = refl;
    key = refl;
    pin = inr owner_pin;
    wallet = refl;
    available = naira 30000;
    funded = refl;
    covered = omega arith;
  };
  moved = ride_moved;
  recorded = ride_recorded;
}

collected-shifted_example :
    balance_at memory after_ride 2 ≡ shifted 0 2 (naira 600) 2 (balance_at memory start 2)
collected-shifted_example =
    collected-shifted memory memory-IsLawful (Entity.station bus) ride start ride_answer after_ride
      ride_steps customer_wallet refl refl 2

collected_daily_example :
    (row : Wallet) × (memory.find 0 after_ride.wallets ≡ some row)
    × (row.total_transaction_amount_today ≡ (
        if local_day customer_wallet.latest_transaction_timestamp == local_day (some memory.now)
        then customer_wallet.total_transaction_amount_today +ℤ naira 600
        else pos 0 +ℤ naira 600))
    × (row.total_transaction_amount_today ≤ℤ naira 50000)
    × (row.latest_transaction_timestamp ≡ some memory.now)
collected_daily_example =
    collected_daily memory memory-IsLawful (Entity.station bus) ride start ride_answer after_ride
      ride_steps customer_wallet refl refl

-- A card that is not known is refused with 404.
abbrev missing : ℕ
missing = 404

abbrev lost_ride : CreatePayment
lost_ride = record ride { card_id = 9 }

lost_ride_is_unknown :
    (collect_payment memory (Entity.station bus) lost_ride start).0
    ≡ err (http 404 (text "Card not found"))
unfolding collect_payment collector charge_card approve find_card ◌>>=◌
lost_ride_is_unknown = refl

collect_payment_refused_example :
    (missing ≡ 503) ⊎ ((collect_payment memory (Entity.station bus) lost_ride start).1 ≡ start)
collect_payment_refused_example =
    collect_payment_refused memory (Entity.station bus) lost_ride start 404 (text "Card not found")
      lost_ride_is_unknown
