-- ===== src/Payment/Tests/Prepaid.antt =====
-- Requests of a merchant and of a station that fixes the amount, on the database of `Samples`,
-- src/payment/payment.service.ts.
use nfc_payment_api.Prelude.{◌≡◌, ◌≢◌, refl, true, none, arith}
use nfc_payment_api.Prelude.Int.{naira}
use nfc_payment_api.External.Memory.{memory}
use nfc_payment_api.Exec.{ok, ◌>>=◌}
use nfc_payment_api.Response.{Response, refused}
use nfc_payment_api.Payment.{Entity, CreatePayment, collect_payment, charge_card, collector}
use nfc_payment_api.Payment.Merchants.{merchant_never_collects}
use nfc_payment_api.Payment.Stations.{fixed_amount_skips_pin}
use nfc_payment_api.Schema.{User}
use nfc_payment_api.Samples.{start, merchant, boat}
use nfc_payment_api.Payment.Tests.{ride}

-- A ride on the prepaid card.
abbrev prepaid_ride : CreatePayment
prepaid_ride = record ride { card_id = 1; private_key = "secret 1" }

-- A merchant, whose identifier no station has.
abbrev refused_answer : Response
refused_answer = refused "Wallet not found"

abbrev penniless : User
penniless = record merchant { id = 7 }

penniless_answer :
    collect_payment memory (Entity.user penniless) ride start ≡ (ok refused_answer, start)
unfolding collect_payment collector charge_card ◌>>=◌
penniless_answer = refl

merchant_never_collects_example : refused_answer.success ≢ true
merchant_never_collects_example =
    merchant_never_collects memory penniless ride start start refused_answer refl penniless_answer

-- Two requests at the station that fixes 20,000 naira, one with no PIN.
abbrev bare_trip : CreatePayment
bare_trip = record prepaid_ride { amount = naira 1; password = none }

abbrev trip : CreatePayment
trip = record prepaid_ride { amount = naira 500 }

fixed_amount_skips_pin_example :
    collect_payment memory (Entity.station boat) bare_trip start
    ≡ collect_payment memory (Entity.station boat) trip start
fixed_amount_skips_pin_example =
    fixed_amount_skips_pin memory boat boat bare_trip trip start refl refl (omega arith)
      (omega arith) refl refl
