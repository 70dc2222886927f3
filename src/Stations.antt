-- ===== src/Stations.antt =====
-- The stations of a business and the one-time passwords of its users, BusinessService,
-- src/business/business.service.ts. The column `type` of a station is left out.
pub mod Laws
mod Tests
use nfc_payment_api.Prelude.{
  ℕ, String, Bool, true, false, not, ◌&&◌, Option, none, some, List, nonempty, str_eq, same_id,
  ◌==◌, is_some, if◌then◌else◌,
}
use nfc_payment_api.Prelude.Int.{ℤ, pos}
use nfc_payment_api.Schema.{User, Station, Transaction}
use nfc_payment_api.External.{Env}
use nfc_payment_api.Exec.{
  Exec, Error, ok, err, unique_violation, record_not_found, foreign_key_violation, pure, throw,
  gets, defined, try_catch, ◌>>=◌, ◌>>◌,
}
use nfc_payment_api.Response.{Response, null, empty_object, station_row, refused, succeeded}
use nfc_payment_api.World.{World, update_station as write_station}
use nfc_payment_api.Otp.{OtpAnswer, password_reset, generate_otp, verify_otp}
use nfc_payment_api.SignIn.Stations.{has_name, without_pin}

-- CreateStationDto
pub record CreateStation : Type 0 where
  pub name : String
  pub amount_is_fixed : Option Bool
  pub amount : Option ℤ
  pub pin : String

-- UpdateStationDto
pub record UpdateStation : Type 0 where
  pub id : ℕ
  pub name : Option String
  pub amount_is_fixed : Option Bool
  pub amount : Option ℤ
  pub current_pin : Option String
  pub new_pin : Option String

-- An undefined value leaves the column as it is.
abbrev pub or_old : {A : Type 0} → Option A → A → A
or_old none a = a
or_old (some b) a = b

abbrev pub with_pin_hash : String → Station → Station
with_pin_hash h s = record s { pin_hash = h }

abbrev pub changed : UpdateStation → Option String → Station → Station
changed dto hash s = record s {
  name = or_old dto.name s.name;
  amount_is_fixed = or_old dto.amount_is_fixed s.amount_is_fixed;
  amount = or_old dto.amount s.amount;
  pin_hash = or_old hash s.pin_hash;
}

-- `onDelete: Cascade` of the ledger
abbrev pub at_station : ℕ → Transaction → Bool
at_station k t = same_id t.station_id (some k)

-- The handler of P2002 names the column, and the name is the only unique one.
abbrev refuse_taken : {S : Type 0} → String → Error → Exec S Response
refuse_taken m unique_violation = pure (refused "This Name is already taken")
refuse_taken m _ = pure (refused m)

module _ (env : Env) where
  abbrev new_station : CreateStation → ℕ → World env → Station
  new_station dto business w = record {
    id = env.new_id w.stations;
    name = dto.name;
    active = true;
    last_login = env.now;
    pin_hash = env.hash dto.pin;
    refresh_token = "";
    daily_balance = pos 0;
    amount_is_fixed = or_old dto.amount_is_fixed false;
    amount = or_old dto.amount (pos 0);
    business_id = business;
  }

  -- `station.create`: the name is unique and the business exists.
  pub insert_station : CreateStation → ℕ → Exec (World env) Station
  insert_station dto business w =
      if is_some (env.find_first (has_name dto.name) w.stations)
      then (err unique_violation, w)
      else if is_some (env.find business w.businesses)
      then (let s = new_station dto business w in
          (ok s, record w { stations = env.write s.id s w.stations }))
      else (err foreign_key_violation, w)

  pub create_station : CreateStation → Option ℕ → Exec (World env) Response
  create_station dto none = pure (refused "Please create a business to continue")
  create_station dto (some business) =
      try_catch
        (do
          s ← insert_station dto business
          pure (succeeded "Station created successfully" (station_row (without_pin s))))
        (refuse_taken "Failed to create station")

  -- The name is unique among the other stations.
  pub change_station : UpdateStation → Option String → Exec (World env) (Unit {0})
  change_station dto hash w =
      if elim dto.name [
        | none ↦ false
        | some n ↦ is_some (env.find_first (λ s. has_name n s && not (s.id == dto.id)) w.stations)
      ]
      then (err unique_violation, w)
      else write_station env dto.id (changed dto hash) w

  abbrev write_changes : UpdateStation → Option String → Station → Exec (World env) Response
  write_changes dto hash s = do
    change_station dto hash
    pure (succeeded "Station updated successfully" (station_row (without_pin (changed dto hash s))))

  abbrev change_pin : UpdateStation → Station → String → String → Exec (World env) Response
  change_pin dto s current new =
      if str_eq new current
      then pure (refused "Your new pin and current pin cannot be the same")
      else if env.verify s.pin_hash current
      then write_changes dto (some (env.hash new)) s
      else pure (refused "Invalid current pin")

  abbrev update_found : UpdateStation → Option Station → Exec (World env) Response
  update_found dto none = pure (refused "Station not found")
  update_found dto (some s) = elim (nonempty dto.new_pin) [
    | none ↦ write_changes dto none s
    | some new ↦ elim (nonempty dto.current_pin) [
      | none ↦ pure (refused "Current pin must be provided to change pin")
      | some current ↦ change_pin dto s current new
    ]
  ]

  -- The station of that identifier, if it is the business's.
  abbrev own_station : World env → ℕ → ℕ → Option Station
  own_station w k business = elim (env.find k w.stations) [
    | none ↦ none
    | some s ↦ if s.business_id == business then some s else none
  ]

  pub update_station : UpdateStation → ℕ → Exec (World env) Response
  update_station dto business =
      try_catch (do found ← gets (λ w. own_station w dto.id business); update_found dto found)
        (λ e. pure (refused "Failed to update station"))

  -- `station.delete`: the rows of the ledger that name the station go with it.
  abbrev pub erase_station : ℕ → Option Station → Exec (World env) (Unit {0})
  erase_station k none w = (err record_not_found, w)
  erase_station k (some s) w = (
    ok tt,
    record w {
      stations = env.remove k w.stations;
      transactions = env.remove_rows (at_station k) w.transactions;
    },
  )

  pub delete_stations : User → ℕ → Exec (World env) Response
  delete_stations user k =
      try_catch
        (do
          found ← gets (λ w. env.find k w.stations)
          s ← defined found
          if same_id user.business_id (some s.business_id)
              then (do
                again ← gets (λ w. env.find k w.stations)
                erase_station k again
                pure (succeeded "Successfully deleted station" null))
              else pure (refused "Station not found"))
        (λ e. pure (refused "Failed to delete station"))

  pub change_station_password : ℕ → String → String → Exec (World env) Response
  change_station_password k old new =
      try_catch
        (do
          found ← gets (λ w. env.find k w.stations)
          s ← defined found
          if env.verify s.pin_hash old
              then (do
                write_station env s.id (with_pin_hash (env.hash new))
                pure (succeeded "Password changed successfully" null))
              else pure (refused "incorrect old password"))
        (λ e. pure (refused "Failed to change password"))

  -- The mail is not waited for, and is left out.
  pub init_station_password_reset : User → Exec (World env) Response
  init_station_password_reset user =
      try_catch
        (do
          code ← generate_otp env user.id password_reset user.email
          pure (succeeded "Password reset email sent" null))
        (λ e. pure (refused "Failed to send password reset email"))

  abbrev reset_station : ℕ → String → OtpAnswer → Exec (World env) Response
  reset_station k pin verified =
      if verified.valid
      then (do
        write_station env k (with_pin_hash (env.hash pin))
        pure (succeeded "Password reset successfully" null))
      else pure (refused verified.msg)

  abbrev complete_reset : List ℕ → ℕ → String → Option Station → Exec (World env) Response
  complete_reset token k pin none = pure (refused "Invalid station ID")
  complete_reset token k pin (some s) = do
    verified ← verify_otp env token password_reset none none
    reset_station k pin verified

  -- The user whose one-time password it is need not have to do with the station.
  pub complete_station_password_reset : List ℕ → ℕ → String → Exec (World env) Response
  complete_station_password_reset token k pin =
      try_catch (do found ← gets (λ w. env.find k w.stations); complete_reset token k pin found)
        (λ e. pure (refused "Failed to reset password"))
