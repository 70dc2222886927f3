-- ===== src/SignIn.antt =====
-- The start of a sign-in, AuthService, src/auth/auth.service.ts: the roles, the limit of attempts, the
-- sessions and their tokens (JwtHelper, src/auth/helpers/jwt.helper.ts, with the secrets configured).
pub mod Pin
pub mod Password
pub mod Tokens
pub mod Stations
use nfc_payment_api.Prelude.{
  ℕ, ◌+◌, ◌-◌, ◌*◌, ◌/◌, String, Bool, true, false, not, ◌&&◌, ◌||◌, Option, none, some, List, [],
  ◌∷◌, ◌++◌, ◌==◌, ltb, leb, if◌then◌else◌,
}
use nfc_payment_api.Schema.{
  User, Login, Station, Role, super_admin, admin, support, agent, merchant, customer, business,
}
use nfc_payment_api.External.{Env, access, refresh}
use nfc_payment_api.Exec.{Exec, Error, http, wait_minutes, pure, throw, try_catch, ◌>>=◌, ◌>>◌}
use nfc_payment_api.World.{World, update_user, update_station}

abbrev role_number : Role → ℕ
role_number super_admin = 0
role_number admin = 1
role_number customer = 2
role_number merchant = 3
role_number support = 4
role_number agent = 5
role_number business = 6

-- `roles.includes(role)`
abbrev pub includes : Role → List Role → Bool
includes r [] = false
includes r (x ∷ l) = role_number r == role_number x || includes r l

abbrev pub push_role : Role → User → User
push_role r u = record u { login = record u.login { roles = u.login.roles ++ r ∷ [] } }

abbrev pub with_attempts : ℕ → User → User
with_attempts n u = record u { login = record u.login { attempts = n } }

abbrev pub with_refresh_token : String → User → User
with_refresh_token t u = record u { login = record u.login { refresh_token = t } }

-- ExcludeFieldsHelper.safeUser
abbrev pub without_secrets : User → User
without_secrets u = record u {
  hash = none;
  otp = none;
  login = record u.login { biometric_secret = none; two_factor_secret = none };
}

abbrev is_swappable : Role → Bool
is_swappable customer = true
is_swappable merchant = true
is_swappable _ = false

module _ (env : Env) where
  -- A customer becomes a merchant, or the other way round, by signing in as one.
  pub check_roles : User → Role → Exec (World env) Bool
  check_roles user role =
      if includes role user.login.roles
      then pure true
      else if is_swappable role
          && (includes customer user.login.roles || includes merchant user.login.roles)
      then (do update_user env user.id (push_role role); pure true)
      else pure false

  -- The end of the wait after the latest counted attempt.
  abbrev pub unlocked_at : User → ℕ
  unlocked_at u = u.login.last_attempt + 600000

  abbrev pub count_attempt : User → User
  count_attempt u = record u {
    login = record u.login { attempts = u.login.attempts + 1; last_attempt = env.now };
  }

  -- The time left to wait, in milliseconds; a minute if the count could not be written.
  pub login_guard : User → Exec (World env) ℕ
  login_guard user =
      try_catch
        (if leb 5 user.login.attempts && ltb env.now (unlocked_at user)
          then pure (unlocked_at user - env.now)
          else (do update_user env user.id count_attempt; pure 0))
        (λ e. pure 60000)

  -- `Math.round` of a number of minutes
  abbrev pub rounded_minutes : ℕ → ℕ
  rounded_minutes ms = (2 * ms + 60000) / 120000

  -- The guard of a sign-in: it counts the attempt, and starts the count anew after a wait.
  pub admit_attempt : User → Exec (World env) (Unit {0})
  admit_attempt user = do
    left ← login_guard user
    if ltb 0 left
        then throw (http 403 (wait_minutes (rounded_minutes left)))
        else if leb 5 user.login.attempts
        then update_user env user.id (with_attempts 0)
        else pure tt

  abbrev pub new_access_token : ℕ → Option String → String
  new_access_token subject phone = env.sign access subject phone

  abbrev pub new_refresh_token : ℕ → Option String → String
  new_refresh_token subject phone = env.sign refresh subject phone

  abbrev pub station_token : String → Station → Station
  station_token t s = record s { refresh_token = t }

  -- `updateRefreshToken`: the hash of the token, for a user or else for a station.
  pub update_refresh_token : String → Option ℕ → Option ℕ → Exec (World env) (Unit {0})
  update_refresh_token token (some user) station =
      update_user env user (with_refresh_token (env.hash token))
  update_refresh_token token none (some station) =
      update_station env station (station_token (env.hash token))
  update_refresh_token token none none = pure tt

  abbrev pub sign_in_user : User → User
  sign_in_user u = record u { login = record u.login { last_login = env.now; attempts = 0 } }
