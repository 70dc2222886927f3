-- ===== src/SignIn/Stations/Laws.antt =====
-- A station that signs in, `signInStation` of src/auth/auth.service.ts.
use nfc_payment_api.Prelude.{ℕ, String, ◌≡◌, true, some, none, arith}
use nfc_payment_api.Schema.{Station}
use nfc_payment_api.External.{Env, IsLawful}
use nfc_payment_api.External.Rows.{IsSoleRow, IsSoleRow-find_first}
use nfc_payment_api.Exec.{ok, ◌>>=◌}
use nfc_payment_api.Response.{station_session, succeeded}
use nfc_payment_api.World.{World}
use nfc_payment_api.SignIn.{new_access_token, new_refresh_token, update_refresh_token}
use nfc_payment_api.SignIn.Stations.{
  without_pin, has_name, open_station_session, sign_in_named, sign_in_station, sign_in_station_row,
}

module _ (env : Env) (law : IsLawful env) (name : String) (k : ℕ) (s : Station) (pin : String) where
  -- A station whose PIN is known signs in.
  pub known_pin_signs_in :
      (w : World env)
      → s.id ≡ k
      → IsSoleRow env (has_name name) w.stations k s
      → s.active ≡ true
      → env.verify s.pin_hash pin ≡ true
      → (sign_in_station env (record { name = name; pin = some pin }) w).0
        ≡ ok (
            succeeded "You have signed in successfully" (
              station_session
                (without_pin s)
                (new_access_token env k none)
                (new_refresh_token env k none)))
  unfolding sign_in_station sign_in_named open_station_session update_refresh_token ◌>>=◌
  known_pin_signs_in w same sole active right =
      let found = IsSoleRow-find_first env law (has_name name) w.stations k s sole in
      let once : env.find k (env.write k (sign_in_station_row env s) w.stations)
          ≡ some (sign_in_station_row env s) =
        ground (arith, law.find-write k (sign_in_station_row env s) w.stations k) in
      ground (arith, sole.listed)
