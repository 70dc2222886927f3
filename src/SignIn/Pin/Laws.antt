-- ===== src/SignIn/Pin/Laws.antt =====
-- A sign-in with a wrong PIN, and with the right one: `pinSignIn` of src/auth/auth.service.ts.
use nfc_payment_api.Prelude.{
  ◌-◌, String, ◌≡◌, refl, Bool, true, false, ◌&&◌, some, nonempty, arith, List, [], ◌∷◌, not,
  is_some, Bool-cases, inl, inr, ap, ◌∙◌,
}
use nfc_payment_api.Schema.{User, Role}
use nfc_payment_api.External.{Env, IsLawful}
use nfc_payment_api.External.Rows.{IsSoleRow, IsSoleRow-find_first, IsSoleRow-at}
use nfc_payment_api.Exec.{ok, err, http, text, wait_minutes, try_catch, rethrow_http, ◌>>=◌}
use nfc_payment_api.World.{World}
use nfc_payment_api.SignIn.{check_roles, unlocked_at, login_guard, rounded_minutes, admit_attempt}
use nfc_payment_api.SignIn.Pin.{Auth, find_account, check_pin, sign_in_account, pin_sign_in}
use nfc_payment_api.SignIn.Pin.Limit.{
  has_email, with_pin, is_locked, admitted, after_wrong_pin, IsAccount, guarded,
  admit_attempt-IsSoleRow, after_wrong_pin-keeps, after_wrong_pin-is_locked,
}

module _ (env : Env) (law : IsLawful env) (email hash : String) (role : Role) (dto : Auth)
    (named : nonempty dto.email ≡ some email) (w : World env) (u : User)
    (a : IsAccount env email hash role w u) where
  -- The account is found, and the rest of the sign-in runs.
  pub signing_in :
      (pin : String)
      → nonempty dto.pin ≡ some pin
      → pin_sign_in env dto role w
        ≡ try_catch (sign_in_account env dto role u) (rethrow_http (text "Failed to sign in")) w
  unfolding pin_sign_in find_account ◌>>=◌
  signing_in pin given =
      let found : env.find_first (has_email email) w.users ≡ some u =
        IsSoleRow-find_first env law (has_email email) w.users u.id u a.row in
      ground (arith, a.active)

  pub role_admitted : check_roles env u role w ≡ (ok true, w)
  unfolding check_roles
  role_admitted = ground (arith, a.member)

  wrong_pin_refused :
      (pin : String)
      → env.verify hash pin ≡ false
      → (w' : World env) → (login_guard env u w').0 ≡ ok 0
      → check_pin env u pin w' ≡ (err (http 403 (text "Incorrect pin")), (login_guard env u w').1)
  unfolding check_pin ◌>>=◌
  wrong_pin_refused pin wrong w' passed = ground (arith, a.hashed)

  module _ (open_ : is_locked env u ≡ false) where
    abbrev admitted_world : World env
    admitted_world = (admit_attempt env u w).1

    abbrev counted_twice : World env
    counted_twice = (login_guard env u admitted_world).1

    wrong_pin_account :
        (pin : String)
        → nonempty dto.pin ≡ some pin
        → env.verify hash pin ≡ false
        → sign_in_account env dto role u w ≡ (err (http 403 (text "Incorrect pin")), counted_twice)
    unfolding sign_in_account ◌>>=◌
    wrong_pin_account pin given wrong =
        let (passed, row) = admit_attempt-IsSoleRow env law email u w open_ a.row in
        let (second, _) = guarded env law email u (admitted env u) admitted_world open_ row in
        let refused = wrong_pin_refused pin wrong admitted_world (ap (λ x. x.0) second) in
        ground (arith, role_admitted)

    twice_counted : IsSoleRow env (has_email email) counted_twice.users u.id (after_wrong_pin env u)
    twice_counted =
        let (passed, row) = admit_attempt-IsSoleRow env law email u w open_ a.row in
        let (second, r) = guarded env law email u (admitted env u) admitted_world open_ row in
        rw open_ r

  -- A locked account: how long the user has to wait.
  locked_account :
      is_locked env u ≡ true
      → sign_in_account env dto role u w
        ≡ (err (http 403 (wait_minutes (rounded_minutes env (unlocked_at env u - env.now)))), w)
  unfolding sign_in_account admit_attempt login_guard ◌>>=◌
  locked_account shut = ground (arith, role_admitted)

  locked_sign_in :
      (pin : String)
      → nonempty dto.pin ≡ some pin
      → is_locked env u ≡ true
      → pin_sign_in env dto role w
        ≡ (err (http 403 (wait_minutes (rounded_minutes env (unlocked_at env u - env.now)))), w)
  locked_sign_in pin given shut = rw (signing_in pin given) (rw (locked_account shut) refl)

  -- What is kept of an account by a sign-in with a wrong PIN.
  pub wrong_pin_sign_in :
      (pin : String)
      → nonempty dto.pin ≡ some pin
      → env.verify hash pin ≡ false
      → IsAccount env email hash role (pin_sign_in env dto role w).1 (after_wrong_pin env u)
  wrong_pin_sign_in pin given wrong = elim (Bool-cases (is_locked env u)) [
    | inl shut ↦ rw (locked_sign_in pin given shut) (rw shut a)
    | inr open_ ↦
        let refused = wrong_pin_account open_ pin given wrong in
        let table : (pin_sign_in env dto role w).1.users ≡ (counted_twice open_).users =
          rw (signing_in pin given) (rw refused refl) in
        let ((same, active), (hashed, member)) = after_wrong_pin-keeps env u in
        record {
          row =
              IsSoleRow-at env law (has_email email) (counted_twice open_).users
                (pin_sign_in env dto role w).1.users u.id (after_wrong_pin env u).id
                (after_wrong_pin env u) (twice_counted open_) table same;
          active = active ∙ a.active;
          hashed = hashed ∙ a.hashed;
          member = rw member a.member;
        }
  ]

given_pin : (pin : String) → is_some (nonempty (some pin)) ≡ true → nonempty (some pin) ≡ some pin
given_pin String.[] given = absurd (ground arith)
given_pin (String.◌∷◌ c s) given = refl

-- Sign-ins of the same request with one PIN after the other.
module _ (env : Env) (role : Role) (dto : Auth) where
  abbrev pub try_pins : List String → World env → World env
  try_pins [] w = w
  try_pins (pin ∷ l) w = try_pins l (pin_sign_in env (with_pin pin dto) role w).1

  abbrev pub are_wrong : String → List String → Bool
  are_wrong hash [] = true
  are_wrong hash (pin ∷ l) =
      is_some (nonempty (some pin)) && not (env.verify hash pin) && are_wrong hash l

  abbrev pub after_wrong_pins : List String → User → User
  after_wrong_pins [] u = u
  after_wrong_pins (pin ∷ l) u = after_wrong_pins l (after_wrong_pin env u)

  module _ (law : IsLawful env) (email hash : String)
      (named : nonempty dto.email ≡ some email) where
    wrong_pins_sign_in :
        (pins : List String) (w : World env) (u : User)
        → IsAccount env email hash role w u
        → are_wrong hash pins ≡ true
        → IsAccount env email hash role (try_pins pins w) (after_wrong_pins pins u)
    wrong_pins_sign_in [] w u a wrong = a
    wrong_pins_sign_in (pin ∷ l) w u a wrong =
        wrong_pins_sign_in l (pin_sign_in env (with_pin pin dto) role w).1 (after_wrong_pin env u)
          (wrong_pin_sign_in env law email hash role (with_pin pin dto) named w u a pin
            (given_pin pin (ground (arith))) (ground (arith)))
          (ground (arith))

  stays_locked :
      (pins : List String) (u : User)
      → is_locked env u ≡ true
      → is_locked env (after_wrong_pins pins u) ≡ true
  stays_locked [] u shut = shut
  stays_locked (pin ∷ l) u shut = stays_locked l (after_wrong_pin env u) (ground (arith))

  module _ (law : IsLawful env) (email hash : String)
      (named : nonempty dto.email ≡ some email) where
    -- After at least three sign-ins with wrong PINs, by email and with no others between, the account
    -- is locked: a sign-in with any PIN, the right one included, is refused with status 403 and the
    -- time to wait, and changes nothing. The user is alone with the email, has a PIN, is active and is
    -- a member of the role; the clock stands still.
    pub wrong_pins_lock :
        (p q r : String) (more : List String) (pin : String) (w : World env) (u : User)
        → IsAccount env email hash role w u
        → are_wrong hash (p ∷ q ∷ r ∷ more) ≡ true
        → nonempty (some pin) ≡ some pin
        → pin_sign_in env (with_pin pin dto) role (try_pins (p ∷ q ∷ r ∷ more) w) ≡ (
          err (
              http 403 (
                wait_minutes (
                  rounded_minutes env
                    (unlocked_at env (after_wrong_pins (p ∷ q ∷ r ∷ more) u) - env.now)))),
          try_pins (p ∷ q ∷ r ∷ more) w,
        )
    wrong_pins_lock p q r more pin w u a wrong given =
        let b = wrong_pins_sign_in law email hash named (p ∷ q ∷ r ∷ more) w u a wrong in
        let shut =
          stays_locked more (after_wrong_pin env (after_wrong_pin env (after_wrong_pin env u)))
            (after_wrong_pin-is_locked env u) in
        locked_sign_in env law email hash role (with_pin pin dto) named
          (try_pins (p ∷ q ∷ r ∷ more) w) (after_wrong_pins (p ∷ q ∷ r ∷ more) u) b pin given shut
