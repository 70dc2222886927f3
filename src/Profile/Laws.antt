-- ===== src/Profile/Laws.antt =====
-- What a one-time password changes in a profile, src/user/user.service.ts.
use nfc_payment_api.Prelude.{
  ℕ, ◌≤◌, String, ◌≡◌, refl, true, false, not, ◌&&◌, none, some, List, nonempty, str_eq, same_text,
  ◌==◌, arith, Bool-cases, inl, inr, ap, sym, eq_iff,
}
use nfc_payment_api.Schema.{User}
use nfc_payment_api.External.{Env, IsLawful}
use nfc_payment_api.External.Rows.{find_first_none}
use nfc_payment_api.Exec.{ok, err, http, text, ◌>>=◌}
use nfc_payment_api.Regex.{codes}
use nfc_payment_api.Response.{safe_user, succeeded}
use nfc_payment_api.World.{World}
use nfc_payment_api.SignIn.{without_secrets}
use nfc_payment_api.Otp.{
  OtpUse, same_codes, part, is_part, is_other, with_otp, otp_text, email_verification,
  edit_phone_verification,
}
use nfc_payment_api.Otp.Text.{IsClock, has_no_hyphen, split-otp_text, split-whole, same_codes_refl}
use nfc_payment_api.Otp.RoundTrip.{IsPending, cleared, other_use, named_verifies}
use nfc_payment_api.Profile.{with_email, is_text, set_email, edit_email, edit_phone_number}

-- The identifier of a password is the fourth part.
identifier_part :
    (env : Env) (clock : IsClock env) (u : OtpUse) (name : String) (code other : List ℕ)
    → has_no_hyphen code ≡ true
    → has_no_hyphen (codes name) ≡ true
    → is_part 3 other (otp_text env u (some name) code) ≡ same_codes (codes name) other
unfolding part
identifier_part env clock u name code other plain simple =
    let parts = split-otp_text env clock u (some name) code plain in
    let last = split-whole (codes name) simple in ground (arith)

-- Texts with different codes differ.
different :
    (a b : String) → same_codes (codes b) (codes a) ≡ false → is_text (some a) (some b) ≡ false
different a b apart = elim (Bool-cases (str_eq a b)) [
  | inr other ↦ other
  | inl same ↦
      let equal : codes b ≡ codes a = ap codes (sym ((eq_iff a b).0 same)) in
      let whole = same_codes_refl (codes a) in absurd (ground arith)
]

is_other_name :
    (env : Env) (new : String) (otp : List ℕ)
    → nonempty (some new) ≡ some new
    → is_part 3 (codes new) otp ≡ false
    → is_other env (some (codes new)) otp ≡ true
is_other_name env String.[] otp given apart = absurd (ground arith)
is_other_name env (String.◌∷◌ c s) otp given apart = ground arith

module _ (env : Env) (law : IsLawful env) (clock : IsClock env) (code : List ℕ)
    (plain : has_no_hyphen code ≡ true) (w : World env) (u : User) where
  -- A pending password that was made for a user's own email does not change it: a request with it for
  -- another email is refused and changes nothing. The email and the code have no hyphen, and the new
  -- email is not empty.
  pub own_email_code_changes_no_email :
      (name new : String)
      → has_no_hyphen (codes name) ≡ true
      → u.email ≡ some name
      → nonempty (some new) ≡ some new
      → same_codes (codes name) (codes new) ≡ false
      → IsPending env email_verification code w u (otp_text env email_verification (some name) code)
      → edit_email env u (some new) code w ≡ (err (http 400 (text "This OTP is invalid.")), w)
  unfolding edit_email ◌>>=◌
  own_email_code_changes_no_email name new simple own given other p =
      let otp = otp_text env email_verification (some name) code in
      let unlike : is_part 3 (codes new) otp ≡ false =
        rw (identifier_part env clock email_verification name code (codes new) plain simple)
          other in
      let named : is_other env (some (codes new)) otp ≡ true =
        is_other_name env new otp given unlike in
      let refused =
        other_use env law clock email_verification code w u otp p email_verification
          (some (codes new)) (ground arith) in
      let apart = different new name other in ground (arith)

  abbrev renamed : String → User
  renamed number = with_email number (with_otp none u)

  module _ (number : String)
      (free : (j : ℕ) (r : User)
        → env.find j w.users ≡ some r
        → same_text r.email (some number) ≡ true
        → (r.id == u.id) ≡ true)
      (p : IsPending env edit_phone_verification code w u
        (otp_text env edit_phone_verification (some number) code)) where
    abbrev cleared_world : World env
    cleared_world =
        cleared env law clock edit_phone_verification code w u
          (otp_text env edit_phone_verification (some number) code) p

    still_free :
        (j : ℕ) (r : User)
        → env.find j cleared_world.users ≡ some r
        → (same_text r.email (some number) && not (r.id == u.id)) ≡ false
    still_free j r listed = elim (Bool-cases (u.id == j)) [
      | inl same ↦
          let now : r ≡ with_otp none u =
            ground (arith, law.find-write u.id (with_otp none u) w.users j) in
          rw now (ground arith)
      | inr apart ↦
          let old : env.find j w.users ≡ some r =
            ground (arith, law.find-write u.id (with_otp none u) w.users j) in
          ground (arith, free j r old)
    ]

    -- A user who changes the phone number keeps it: with a pending password of that use and number the
    -- request succeeds, and the new number replaces the email. A password lasts a minute at least, the
    -- number and the code have no hyphen, and no user has the number as an email.
    pub new_number_replaces_email :
        1 ≤ env.otp_minutes
        → is_text (some number) u.email ≡ false
        → has_no_hyphen (codes number) ≡ true
        → ((edit_phone_number env u number code w).0
            ≡ ok (
                succeeded "Phone number updated successfully"
                  (safe_user (without_secrets (renamed number)))))
          × ((env.find u.id (edit_phone_number env u number code w).1.users ≡ some (renamed number))
              × (((renamed number).phone_number ≡ u.phone_number)
                  × ((renamed number).email ≡ some number)))
    unfolding edit_phone_number set_email ◌>>=◌
    new_number_replaces_email long apart simple' =
        let otp = otp_text env edit_phone_verification (some number) code in
        let mine : is_part 3 (codes number) otp ≡ true =
          rw
            (identifier_part env clock edit_phone_verification number code (codes number) plain
              simple')
            (same_codes_refl (codes number)) in
        let checked =
          named_verifies env law clock edit_phone_verification code w u otp p (codes number) long
            mine in
        let absent =
          find_first_none env law (λ r. same_text r.email (some number) && not (r.id == u.id))
            cleared_world.users still_free in
        let once : env.find u.id cleared_world.users ≡ some (with_otp none u) =
          ground (arith, law.find-write u.id (with_otp none u) w.users u.id) in
        let twice = law.find-write u.id (renamed number) cleared_world.users u.id in
        (ground (arith), (ground (arith), (refl, refl)))
