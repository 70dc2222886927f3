-- ===== src/Card/Tests.antt =====
-- CardService on the database of `Samples`, src/card/card.service.ts.
use nfc_payment_api.Prelude.{◌≡◌, refl, false, some, none}
use nfc_payment_api.External.Memory.{memory, memory-IsLawful}
use nfc_payment_api.Exec.{ok, ◌>>=◌}
use nfc_payment_api.Response.{Response, whole_card, succeeded}
use nfc_payment_api.World.{World}
use nfc_payment_api.Prelude.Int.{naira}
use nfc_payment_api.Payment.{Entity, CreatePayment, collect_payment}
use nfc_payment_api.Payment.Inactive.{is_success}
use nfc_payment_api.Card.{
  UpdateNfcCard, change, create_history, pin_matches, change_card, update_own, update_nfc_card,
}
use nfc_payment_api.Card.Laws.{disabled_card_cannot_pay}
use nfc_payment_api.Samples.{start, bus, customer, wallet_card}

abbrev disabling : UpdateNfcCard
disabling = record { nfc_card_number = none; pin = none; name = none; active = some false }

abbrev disabling_answer : Response
disabling_answer = succeeded "Card updated successfully" (whole_card (change disabling wallet_card))

abbrev after_disabling : World memory
after_disabling = (update_nfc_card memory disabling customer "1804837821" start).1

disabling_resolves :
    update_nfc_card memory disabling customer "1804837821" start
    ≡ (ok disabling_answer, after_disabling)
unfolding update_nfc_card update_own change_card pin_matches create_history ◌>>=◌
disabling_resolves = refl

-- A payment of 600 naira from the card, at the station of the samples.
abbrev swipe : CreatePayment
swipe = record { amount = naira 600; card_id = 0; private_key = "secret 0"; password = some "1234" }

disabled_card_cannot_pay_example :
    (is_success (collect_payment memory (Entity.station bus) swipe after_disabling).0 ≡ false)
    × ((collect_payment memory (Entity.station bus) swipe after_disabling).1 ≡ after_disabling)
disabled_card_cannot_pay_example =
    disabled_card_cannot_pay memory memory-IsLawful disabling customer "1804837821" start
      after_disabling disabling_answer wallet_card refl refl refl disabling_resolves refl
      (Entity.station bus) swipe refl

abbrev protected_change : UpdateNfcCard
protected_change = record disabling { pin = some "1234" }
