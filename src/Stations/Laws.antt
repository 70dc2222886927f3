-- ===== src/Stations/Laws.antt =====
-- Who changes a station, and what its deletion takes along, src/business/business.service.ts.
use nfc_payment_api.Prelude.{
  ℕ, ◌≤◌, String, ◌≡◌, refl, ◌∙◌, true, false, none, some, List, ◌==◌, arith,
}
use nfc_payment_api.Schema.{User, Station}
use nfc_payment_api.External.{Env, IsLawful, kept_row}
use nfc_payment_api.External.Rows.{IsSoleRow, IsSoleRow-write}
use nfc_payment_api.Exec.{ok, ◌>>=◌}
use nfc_payment_api.Response.{null, refused, succeeded, station_session}
use nfc_payment_api.World.{World}
use nfc_payment_api.World.References.{str_eq_refl}
use nfc_payment_api.Otp.{password_reset}
use nfc_payment_api.Otp.Text.{IsClock}
use nfc_payment_api.Otp.RoundTrip.{IsPending, cleared, verifies}
use nfc_payment_api.SignIn.{new_access_token, new_refresh_token}
use nfc_payment_api.SignIn.Stations.{without_pin, has_name, sign_in_station}
use nfc_payment_api.SignIn.Stations.Laws.{known_pin_signs_in}
use nfc_payment_api.Stations.{
  UpdateStation, with_pin_hash, at_station, update_station, delete_stations,
  complete_station_password_reset,
}

module _ (env : Env) (law : IsLawful env) (w : World env) (k : ℕ) (s : Station)
    (listed : env.find k w.stations ≡ some s) where
  -- A user of another business neither updates nor deletes a station: the answer is that there is
  -- none, and nothing changes.
  pub other_business_keeps_station :
      (dto : UpdateStation) (user : User) (business : ℕ)
      → dto.id ≡ k
      → (s.business_id == business) ≡ false
      → user.business_id ≡ some business
      → (update_station env dto business w ≡ (ok (refused "Station not found"), w))
        × (delete_stations env user k w ≡ (ok (refused "Station not found"), w))
  unfolding update_station delete_stations ◌>>=◌
  other_business_keeps_station dto user business same other member =
      (ground (arith), ground (arith))

  -- A business that deletes its station deletes every row of the ledger that names the station, and
  -- keeps the others; no wallet changes.
  pub deleted_station_erases_ledger :
      (user : User) (j : ℕ)
      → user.business_id ≡ some s.business_id
      → ((delete_stations env user k w).0 ≡ ok (succeeded "Successfully deleted station" null))
        × ((env.find j (delete_stations env user k w).1.transactions
              ≡ kept_row (at_station k) (env.find j w.transactions))
            × (((delete_stations env user k w).1.wallets ≡ w.wallets)
                × (env.find k (delete_stations env user k w).1.stations ≡ none)))
  unfolding delete_stations ◌>>=◌
  deleted_station_erases_ledger user j own = (
    ground (arith),
    (
      ground (arith, law.find-remove_rows (at_station k) w.transactions j),
      (ground (arith), ground (arith, law.find-remove k w.stations k)),
    ),
  )

module _ (env : Env) (law : IsLawful env) (clock : IsClock env) (code : List ℕ) (w : World env)
    (u : User) (otp : List ℕ) (p : IsPending env password_reset code w u otp)
    (long : 1 ≤ env.otp_minutes) (k : ℕ) (s : Station) (pin : String) where
  abbrev spent : World env
  spent = cleared env law clock password_reset code w u otp p

  station_reset :
      env.find k w.stations ≡ some s
      → complete_station_password_reset env code k pin w ≡ (
        ok (succeeded "Password reset successfully" null),
        record spent { stations = env.write k (with_pin_hash (env.hash pin) s) w.stations },
      )
  unfolding complete_station_password_reset ◌>>=◌
  station_reset listed =
      let checked = verifies env law clock password_reset code w u otp p long in ground (arith)

  -- Whoever holds a code that any user was sent for the reset of a password sets the PIN of any
  -- station, and then signs in as that station, if it is active: the user need not belong to the
  -- station's business. A password lasts a minute at least, and the station's name is its alone.
  pub any_code_takes_station :
      s.id ≡ k
      → IsSoleRow env (has_name s.name) w.stations k s
      → s.active ≡ true
      → let w' = (complete_station_password_reset env code k pin w).1 in
        ((complete_station_password_reset env code k pin w).0
          ≡ ok (succeeded "Password reset successfully" null))
        × ((sign_in_station env (record { name = s.name; pin = some pin }) w').0
            ≡ ok (
                succeeded "You have signed in successfully" (
                  station_session
                    (without_pin s)
                    (new_access_token env k none)
                    (new_refresh_token env k none))))
  any_code_takes_station same sole active =
      let right : env.verify (env.hash pin) pin ≡ true =
        law.verify-hash pin pin ∙ str_eq_refl pin in
      let reset = with_pin_hash (env.hash pin) s in
      let now : World env = record spent { stations = env.write k reset w.stations } in
      let still : IsSoleRow env (has_name s.name) now.stations k reset =
        IsSoleRow-write env law (has_name s.name) w.stations k s reset sole sole.meets in
      rw (station_reset sole.listed)
        (refl, known_pin_signs_in env law s.name k reset pin now same still active right)
