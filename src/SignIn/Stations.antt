-- ===== src/SignIn/Stations.antt =====
-- `signInStation` of AuthService, src/auth/auth.service.ts.
pub mod Laws
use nfc_payment_api.Prelude.{String, Bool, Option, none, some, str_eq, if◌then◌else◌}
use nfc_payment_api.Schema.{Station}
use nfc_payment_api.External.{Env}
use nfc_payment_api.Exec.{Exec, pure, gets, defined, try_catch, ◌>>=◌, ◌>>◌}
use nfc_payment_api.Response.{Response, station_session, refused, succeeded}
use nfc_payment_api.World.{World, update_station}
use nfc_payment_api.SignIn.{new_access_token, new_refresh_token, update_refresh_token}

-- StationAuthDto
pub record StationAuth : Type 0 where
  pub name : String
  pub pin : Option String

abbrev pub has_name : String → Station → Bool
has_name n s = str_eq s.name n

abbrev pub without_pin : Station → Station
without_pin s = record s { pin_hash = "" }

module _ (env : Env) where
  abbrev pub sign_in_station_row : Station → Station
  sign_in_station_row s = record s { last_login = env.now }

  pub open_station_session : Station → Exec (World env) Response
  open_station_session s = do
    update_station env s.id sign_in_station_row
    update_refresh_token env (new_refresh_token env s.id none) none (some s.id)
    pure (
        succeeded "You have signed in successfully" (
          station_session (without_pin s) (new_access_token env s.id none)
            (new_refresh_token env s.id none)))

  pub sign_in_named : StationAuth → Option Station → Exec (World env) Response
  sign_in_named dto none = pure (refused "No such station")
  sign_in_named dto (some s) =
      if s.active
      then (do
        pin ← defined dto.pin
        if env.verify s.pin_hash pin
            then open_station_session s
            else pure (refused "Incorrect pin"))
      else pure (refused "Your account has been deactivated")

  pub sign_in_station : StationAuth → Exec (World env) Response
  sign_in_station dto =
      try_catch
        (do
          found ← gets (λ w. env.find_first (has_name dto.name) w.stations)
          sign_in_named dto found)
        (λ e. pure (refused "Failed to sign in to station"))
