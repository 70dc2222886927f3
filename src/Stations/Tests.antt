-- ===== src/Stations/Tests.antt =====
-- Stations on the database of `Samples`, src/business/business.service.ts.
use nfc_payment_api.Prelude.{ℕ, zero, suc, ◌≡◌, refl, ap, sym, true, false, some, none, arith}
use nfc_payment_api.Prelude.Int.{naira}
use nfc_payment_api.Schema.{User, Station}
use nfc_payment_api.External.{kept_row}
use nfc_payment_api.External.Memory.{memory, memory-IsLawful}
use nfc_payment_api.External.Rows.{IsSoleRow}
use nfc_payment_api.Exec.{ok}
use nfc_payment_api.Response.{null, refused, succeeded, station_session}
use nfc_payment_api.Otp.{password_reset}
use nfc_payment_api.Otp.Sample.{clock, code, waiting_text, waiting, waiting_start, pending}
use nfc_payment_api.SignIn.Stations.{without_pin, has_name, sign_in_station}
use nfc_payment_api.Stations.{
  UpdateStation, at_station, update_station, delete_stations, complete_station_password_reset,
}
use nfc_payment_api.Stations.Laws.{
  other_business_keeps_station, deleted_station_erases_ledger, any_code_takes_station,
}
use nfc_payment_api.Samples.{start, customer, bus, boat}

abbrev raise : UpdateStation
raise = record {
  id = 0;
  name = none;
  amount_is_fixed = some true;
  amount = some (naira 500);
  current_pin = none;
  new_pin = none;
}

other_business_keeps_station_example :
    (update_station memory raise 7 start ≡ (ok (refused "Station not found"), start))
    × (delete_stations memory (record customer { business_id = some 7 }) 0 start
        ≡ (ok (refused "Station not found"), start))
other_business_keeps_station_example =
    other_business_keeps_station memory memory-IsLawful start 0 bus refl raise
      (record customer { business_id = some 7 }) 7 refl refl refl

abbrev owner : User
owner = record customer { business_id = some 0 }

deleted_station_erases_ledger_example :
    ((delete_stations memory owner 0 start).0 ≡ ok (succeeded "Successfully deleted station" null))
    × ((memory.find 3 (delete_stations memory owner 0 start).1.transactions
          ≡ kept_row (at_station 0) (memory.find 3 start.transactions))
        × (((delete_stations memory owner 0 start).1.wallets ≡ start.wallets)
            × (memory.find 0 (delete_stations memory owner 0 start).1.stations ≡ none)))
deleted_station_erases_ledger_example =
    deleted_station_erases_ledger memory memory-IsLawful start 0 bus refl owner 3 refl

first_named :
    (j : ℕ) (a : Station)
    → memory.find j (waiting_start password_reset).stations ≡ some a
    → has_name "Bus 1" a ≡ true
    → j ≡ 0
first_named zero a listed n = refl
first_named (suc zero) a listed n = absurd (ground arith)
first_named (suc (suc zero)) a listed n =
    let same : boat ≡ a = ap (λ o. elim o [ none ↦ boat | some x ↦ x ]) listed in
    let other : has_name "Bus 1" a ≡ false = ap (has_name "Bus 1") (sym same) in
    absurd (ground arith)
first_named (suc (suc (suc j))) a listed n = absurd (ground arith)

abbrev only_bus : IsSoleRow memory (has_name "Bus 1") (waiting_start password_reset).stations 0 bus
only_bus = record { listed = refl; meets = refl; sole = first_named }

any_code_takes_station_example :
    ((complete_station_password_reset memory code 0 "4321" (waiting_start password_reset)).0
      ≡ ok (succeeded "Password reset successfully" null))
    × ((sign_in_station memory
          (record { name = "Bus 1"; pin = some "4321" })
          (complete_station_password_reset memory code 0 "4321" (waiting_start password_reset)).1).0
        ≡ ok (
            succeeded "You have signed in successfully"
              (station_session (without_pin bus) "access" "refresh")))
any_code_takes_station_example =
    any_code_takes_station memory memory-IsLawful clock code (waiting_start password_reset)
      (waiting password_reset) (waiting_text password_reset) (pending password_reset) (ground arith)
      0 bus "4321" refl only_bus refl
