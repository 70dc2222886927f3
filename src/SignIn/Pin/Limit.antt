-- ===== src/SignIn/Pin/Limit.antt =====
-- The limit of attempts with a PIN, `loginGuard` of src/auth/auth.service.ts.
use nfc_payment_api.Prelude.{
  ℕ, String, ◌≡◌, Bool, true, false, ◌&&◌, some, ltb, leb, same_text, arith, if◌then◌else◌,
  Bool-cases, inl, inr, ap, ◌∙◌,
}
use nfc_payment_api.Schema.{User, Role}
use nfc_payment_api.External.{Env, IsLawful}
use nfc_payment_api.External.Rows.{IsSoleRow, IsSoleRow-write}
use nfc_payment_api.Exec.{ok, ◌>>=◌}
use nfc_payment_api.World.{World, update_user}
use nfc_payment_api.SignIn.{
  includes, with_attempts, unlocked_at, count_attempt, login_guard, admit_attempt,
}
use nfc_payment_api.SignIn.Pin.{Auth}

abbrev pub has_email : String → User → Bool
has_email e u = same_text u.email (some e)

abbrev pub with_pin : String → Auth → Auth
with_pin pin dto = record dto { pin = some pin }

module _ (env : Env) where
  abbrev pub is_locked : User → Bool
  is_locked u = leb 5 u.login.attempts && ltb env.now (unlocked_at env u)

  -- The row after the guard of an attempt, and after the second count of a wrong PIN.
  abbrev pub admitted : User → User
  admitted u =
      if leb 5 u.login.attempts then with_attempts 0 (count_attempt env u) else count_attempt env u

  abbrev pub after_wrong_pin : User → User
  after_wrong_pin u = if is_locked u then u else count_attempt env (admitted u)

  -- A user whom the request names, alone, and who may sign in.
  pub record IsAccount (email hash : String) (role : Role) (w : World env) (u : User) : Type 0 where
    pub row : IsSoleRow env (has_email email) w.users u.id u
    pub active : u.active ≡ true
    pub hashed : u.hash ≡ some hash
    pub member : includes role u.login.roles ≡ true

  module _ (law : IsLawful env) (test : User → Bool) (k : ℕ) where
    pub update_user-IsSoleRow :
        (f : User → User) (r : User) (w : World env)
        → IsSoleRow env test w.users k r
        → test (f r) ≡ true
        → (update_user env k f w ≡ (ok tt, record w { users = env.write k (f r) w.users }))
          × IsSoleRow env test (update_user env k f w).1.users k (f r)
    update_user-IsSoleRow f r w s still =
        let made : update_user env k f w ≡ (ok tt, record w { users = env.write k (f r) w.users }) =
          ground (arith, s.listed) in
        (made, rw made (IsSoleRow-write env law test w.users k r (f r) s still))

  -- The guard, for a user who is not locked: what it was given may be older than the row.
  module _ (law : IsLawful env) (email : String) (u r : User) (w : World env)
      (open_ : is_locked u ≡ false) (s : IsSoleRow env (has_email email) w.users u.id r) where
    pub guarded :
        (login_guard env u w ≡ (ok 0, (update_user env u.id (count_attempt env) w).1))
        × IsSoleRow env (has_email email) (login_guard env u w).1.users u.id (count_attempt env r)
    unfolding login_guard ◌>>=◌
    guarded =
        let (made, counted) =
          update_user-IsSoleRow law (has_email email) u.id (count_attempt env) r w s s.meets in
        let done : login_guard env u w ≡ (ok 0, (update_user env u.id (count_attempt env) w).1) =
          ground (arith, made) in
        (done, rw done counted)

  module _ (law : IsLawful env) (email : String) (u : User) (w : World env)
      (open_ : is_locked u ≡ false) (s : IsSoleRow env (has_email email) w.users u.id u) where
    abbrev counted : World env
    counted = (login_guard env u w).1

    -- The rest of the admission of an attempt, after the guard let it pass.
    admit_attempt-counted : admit_attempt env u w ≡ (
        if leb 5 u.login.attempts
        then update_user env u.id (with_attempts 0) counted
        else (ok tt, counted))
    unfolding admit_attempt ◌>>=◌
    admit_attempt-counted =
        let passed : (login_guard env u w).0 ≡ ok 0 =
          ap (λ x. x.0) (guarded law email u u w open_ s).0 in
        ground (arith)

    pub admit_attempt-IsSoleRow :
        ((admit_attempt env u w).0 ≡ ok tt)
        × IsSoleRow env (has_email email) (admit_attempt env u w).1.users u.id (admitted u)
    admit_attempt-IsSoleRow = elim (Bool-cases (leb 5 u.login.attempts)) [
      | inl full ↦
          let (_, once) = guarded law email u u w open_ s in
          let (made, reset) =
            update_user-IsSoleRow law (has_email email) u.id (with_attempts 0) (count_attempt env u)
              counted once once.meets in
          let done : admit_attempt env u w ≡ update_user env u.id (with_attempts 0) counted =
            ground (arith, admit_attempt-counted) in
          (ap (λ x. x.0) (done ∙ made), rw done (rw full reset))
      | inr free ↦
          let (_, once) = guarded law email u u w open_ s in
          let done : admit_attempt env u w ≡ (ok tt, counted) =
            ground (arith, admit_attempt-counted) in
          (ap (λ x. x.0) done, rw done (rw free once))
    ]

  -- What a wrong PIN leaves of the row.
  pub after_wrong_pin-keeps :
      (u : User)
      → (((after_wrong_pin u).id ≡ u.id) × ((after_wrong_pin u).active ≡ u.active))
        × (((after_wrong_pin u).hash ≡ u.hash) × ((after_wrong_pin u).login.roles ≡ u.login.roles))
  after_wrong_pin-keeps u = ground (arith)

  -- The third wrong PIN locks the account at the latest.
  pub after_wrong_pin-is_locked :
      (u : User) → is_locked (after_wrong_pin (after_wrong_pin (after_wrong_pin u))) ≡ true
  after_wrong_pin-is_locked u = ground (arith)
