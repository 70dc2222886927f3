-- ===== src/Otp/RoundTrip.antt =====
-- From `generateOtp` to `verifyOtp`, src/common/helpers/otp.helper.ts.
pub mod Fresh
use nfc_payment_api.Prelude.{
  ℕ, zero, suc, ◌+◌, ◌*◌, ◌/◌, ◌≤◌, ◌<◌, ◌≡◌, ◌≢◌, refl, sym, ap, ◌∙◌, Bool, true, false, not, ◌&&◌,
  ◌||◌, Option, none, some, String, List, [], ◌∷◌, ◌++◌, ◌==◌, ltb, is_some, arith, if◌then◌else◌,
  Option-cases, Bool-cases, inl, inr,
}
use nfc_payment_api.Schema.{User}
use nfc_payment_api.External.{Env, IsLawful}
use nfc_payment_api.External.Rows.{IsSoleRow, IsSoleRow-find_first, find_first_none}
use nfc_payment_api.Exec.{ok, err, ◌>>=◌}
use nfc_payment_api.World.{World, update_user}
use nfc_payment_api.Otp.{
  OtpUse, use_text, starts_with, same_codes, split, part, is_part, otp_starts, with_otp, OtpAnswer,
  invalid, set_otp, expiration, is_past, expires, is_other, verify_of, verify_otp,
}
use nfc_payment_api.Otp.Text.{IsClock, same_codes_refl}

-- A user whose stored password has the code, and no other one's text starts with it.
pub record IsPending (env : Env) (use_ : OtpUse) (code : List ℕ) (w : World env) (u : User)
    (text : List ℕ) : Type 0 where
  pub row : IsSoleRow env (otp_starts code) w.users u.id u
  pub stored : u.otp ≡ some text
  pub rest : List (List ℕ)
  pub parts : split text ≡ code ∷ env.print_time (expiration env) ∷ use_text use_ ∷ rest

abbrev pub accepted : User → OtpAnswer
accepted u = record { valid = true; msg = "OTP verified"; user = some u }

-- A code that no stored text starts with.
pub unknown_code :
    (env : Env) (law : IsLawful env) (use_ : OtpUse) (code : List ℕ) (identifier : Option (List ℕ))
    (v : World env)
    → ((j : ℕ) (r : User) → env.find j v.users ≡ some r → otp_starts code r ≡ false)
    → verify_otp env code use_ identifier none v ≡ (ok (invalid "This OTP is invalid."), v)
unfolding verify_otp ◌>>=◌
unknown_code env law use_ code identifier v none_starts =
    let absent = find_first_none env law (otp_starts code) v.users none_starts in ground (arith)

module _ (env : Env) (law : IsLawful env) (clock : IsClock env) (use_ : OtpUse) (code : List ℕ)
    (w : World env) (u : User) (text : List ℕ) (p : IsPending env use_ code w u text) where
  is_current : 1 ≤ env.otp_minutes → is_past env (expires env text) ≡ false
  unfolding part
  is_current long = let time = clock.parse-print (expiration env) in ground (arith, p.parts)

  has_parts : (is_part 2 (use_text use_) text ≡ true) × (is_part 0 code text ≡ true)
  unfolding part
  has_parts = (
    ground (arith, p.parts, same_codes_refl (use_text use_)),
    ground (arith, p.parts, same_codes_refl code),
  )

  abbrev pub cleared : World env
  cleared = record w { users = env.write u.id (with_otp none u) w.users }

  pub verifies :
      1 ≤ env.otp_minutes → verify_otp env code use_ none none w ≡ (ok (accepted u), cleared)
  unfolding verify_otp verify_of set_otp ◌>>=◌
  verifies long =
      let (used, coded) = has_parts in
      let found = IsSoleRow-find_first env law (otp_starts code) w.users u.id u p.row in
      let current = is_current long in ground (arith, p.stored, p.row.listed)

  pub none_starts :
      (j : ℕ) (r : User) → env.find j cleared.users ≡ some r → otp_starts code r ≡ false
  none_starts j r listed = elim (Bool-cases (u.id == j)) [
    | inl same ↦
        let now : r ≡ with_otp none u =
          ground (arith, law.find-write u.id (with_otp none u) w.users j) in
        rw now refl
    | inr apart ↦ elim (Bool-cases (otp_starts code r)) [
      | inl starts ↦
          let old : env.find j w.users ≡ some r =
            ground (arith, law.find-write u.id (with_otp none u) w.users j) in
          absurd (ground (arith, p.row.sole j r old starts))
      | inr other ↦ other
    ]
  ]

  pub verifies_once :
      1 ≤ env.otp_minutes
      → let v = verify_otp env code use_ none none w in
        (v.0 ≡ ok (accepted u))
        × ((env.find u.id v.1.users ≡ some (with_otp none u))
            × (verify_otp env code use_ none none v.1 ≡ (ok (invalid "This OTP is invalid."), v.1)))
  verifies_once long = rw (verifies long) (
    refl,
    (
      ground (arith, law.find-write u.id (with_otp none u) w.users u.id),
      unknown_code env law use_ code none cleared none_starts,
    ),
  )

  -- For another use, or with an identifier that is not the stored one, the code is refused.
  pub other_use :
      (use' : OtpUse) (identifier : Option (List ℕ))
      → (not (is_part 2 (use_text use') text) || is_other env identifier text) ≡ true
      → verify_otp env code use' identifier none w ≡ (ok (invalid "This OTP is invalid."), w)
  unfolding verify_otp verify_of ◌>>=◌
  other_use use' identifier other =
      let found = IsSoleRow-find_first env law (otp_starts code) w.users u.id u p.row in
      ground (arith, p.stored)

  -- For its own use and identifier it is accepted.
  pub named_verifies :
      (name : List ℕ)
      → 1 ≤ env.otp_minutes
      → is_part 3 name text ≡ true
      → verify_otp env code use_ (some name) none w ≡ (ok (accepted u), cleared)
  unfolding verify_otp verify_of set_otp ◌>>=◌
  named_verifies [] long named =
      let (used, coded) = has_parts in
      let found = IsSoleRow-find_first env law (otp_starts code) w.users u.id u p.row in
      let current = is_current long in ground (arith, p.stored, p.row.listed)
  named_verifies (c ∷ l) long named =
      let (used, coded) = has_parts in
      let found = IsSoleRow-find_first env law (otp_starts code) w.users u.id u p.row in
      let current = is_current long in ground (arith, p.stored, p.row.listed)
