-- ===== src/Otp.antt =====
-- One-time passwords, OtpHelper, src/common/helpers/otp.helper.ts. The text of one is the list of its
-- code points: the code, the time it expires, its use and an identifier, with hyphens between.
pub mod Text
pub mod RoundTrip
pub mod Sample
pub mod Stored
pub mod Unique
mod Tests
use nfc_payment_api.Prelude.{
  ℕ, zero, suc, ◌+◌, ◌*◌, String, Bool, true, false, not, ◌&&◌, ◌||◌, Option, none, some, List, [],
  ◌∷◌, ◌++◌, ◌==◌, ltb, is_some, if◌then◌else◌,
}
use nfc_payment_api.Schema.{User}
use nfc_payment_api.External.{Env}
use nfc_payment_api.Exec.{
  Exec, ok, err, unique_violation, pure, throw, gets, defined, try_catch, ◌>>=◌, ◌>>◌,
}
use nfc_payment_api.Regex.{codes}
use nfc_payment_api.World.{World, update_user}

-- OTPEnum
pub data OtpUse : Type 0 where
  initial_phone_verification edit_phone_verification email_verification : OtpUse
  password_reset two_factor_auth add_card disable_card : OtpUse

abbrev pub use_text : OtpUse → List ℕ
use_text initial_phone_verification = codes "INITIAL_PHONE_VERIFICATION"
use_text edit_phone_verification = codes "EDIT_PHONE_VERIFICATION"
use_text email_verification = codes "EDIT_EMAIL_VERIFICATION"
use_text password_reset = codes "PASSWORD_RESET"
use_text two_factor_auth = codes "TWO_FACTOR_AUTH"
use_text add_card = codes "ADD_CARD"
use_text disable_card = codes "DISABLE_CARD"

-- A null identifier is printed as such.
abbrev pub identifier_text : Option String → List ℕ
identifier_text none = codes "null"
identifier_text (some s) = codes s

unfoldable pub starts_with : List ℕ → List ℕ → Bool
starts_with [] l = true
starts_with (a ∷ p) [] = false
starts_with (a ∷ p) (b ∷ l) = a == b && starts_with p l

unfoldable pub same_codes : List ℕ → List ℕ → Bool
same_codes [] [] = true
same_codes (a ∷ l) (b ∷ m) = a == b && same_codes l m
same_codes _ _ = false

abbrev add_code : ℕ → List (List ℕ) → List (List ℕ)
add_code c [] = (c ∷ []) ∷ []
add_code c (p ∷ l) = (c ∷ p) ∷ l

-- `split('-')`
unfoldable pub split : List ℕ → List (List ℕ)
split [] = [] ∷ []
split (c ∷ l) = let rest = split l in if c == 45 then [] ∷ rest else add_code c rest

unfoldable pub part : ℕ → List (List ℕ) → Option (List ℕ)
part k [] = none
part zero (p ∷ l) = some p
part (suc k) (p ∷ l) = part k l

-- `split('-')[k] === text`
abbrev pub is_part : ℕ → List ℕ → List ℕ → Bool
is_part k text otp = elim (part k (split otp)) [ none ↦ false | some p ↦ same_codes p text ]

abbrev pub otp_starts : List ℕ → User → Bool
otp_starts text u = elim u.otp [ none ↦ false | some otp ↦ starts_with text otp ]

abbrev pub with_otp : Option (List ℕ) → User → User
with_otp otp u = record u { otp = otp }

abbrev pub has_otp : List ℕ → ℕ → User → Bool
has_otp text k u = not (u.id == k) && elim u.otp [ none ↦ false | some otp ↦ same_codes otp text ]

-- verifyOtpResponse
pub record OtpAnswer : Type 0 where
  pub valid : Bool
  pub msg : String
  pub user : Option User

abbrev pub invalid : String → OtpAnswer
invalid m = record { valid = false; msg = m; user = none }

module _ (env : Env) where
  -- The column is unique.
  pub set_otp : ℕ → Option (List ℕ) → Exec (World env) (Unit {0})
  set_otp k none w = update_user env k (with_otp none) w
  set_otp k (some text) w =
      if is_some (env.find_first (has_otp text k) w.users)
      then (err unique_violation, w)
      else update_user env k (with_otp (some text)) w

  abbrev pub expiration : ℕ
  expiration = env.now + env.otp_minutes * 60000

  abbrev pub otp_text : OtpUse → Option String → List ℕ → List ℕ
  otp_text u identifier code =
      code
      ++ 45 ∷ (env.print_time expiration ++ 45 ∷ (use_text u ++ 45 ∷ identifier_text identifier))

  abbrev pub is_taken : World env → List ℕ → Bool
  is_taken w text = is_some (env.find_first (otp_starts text) w.users)

  -- The loop of `generateOtp`, from a number of codes drawn; the last of the tries is not looked up.
  pub fresh_otp : ℕ → ℕ → OtpUse → Option String → World env → List ℕ
  fresh_otp zero n u identifier w = otp_text u identifier (env.draw n)
  fresh_otp (suc fuel) n u identifier w =
      let rest = fresh_otp fuel (suc n) u identifier w in
      if is_taken w (otp_text u identifier (env.draw n))
      then rest
      else otp_text u identifier (env.draw n)

  -- The code to send; undefined if the text could not be stored.
  pub generate_otp : ℕ → OtpUse → Option String → Exec (World env) (Option (List ℕ))
  generate_otp k u identifier = do
    text ← gets (fresh_otp env.tries 0 u identifier)
    try_catch (do set_otp k (some text); pure (part 0 (split text))) (λ e. pure none)

  -- An Invalid Date is never in the past.
  abbrev pub is_past : Option ℕ → Bool
  is_past none = false
  is_past (some t) = ltb t env.now

  abbrev pub expires : List ℕ → Option ℕ
  expires otp = elim (part 1 (split otp)) [ none ↦ none | some p ↦ env.parse_time p ]

  -- The identifier counts if it is given and not empty.
  abbrev pub is_other : Option (List ℕ) → List ℕ → Bool
  is_other none otp = false
  is_other (some []) otp = false
  is_other (some text) otp = not (is_part 3 text otp)

  pub verify_of : List ℕ → OtpUse → Option (List ℕ) → User → List ℕ → Exec (World env) OtpAnswer
  verify_of code u identifier user otp =
      if not (is_part 2 (use_text u) otp) || is_other identifier otp
      then pure (invalid "This OTP is invalid.")
      else if is_past (expires otp)
      then (do set_otp user.id (some []); pure (invalid "This OTP has expired."))
      else if is_part 0 code otp
      then (do
        set_otp user.id none
        pure (record { valid = true; msg = "OTP verified"; user = some user }))
      else pure (invalid "This OTP is invalid.")

  abbrev verify_found : List ℕ → OtpUse → Option (List ℕ) → Option User → Exec (World env) OtpAnswer
  verify_found code u identifier none = pure (invalid "This OTP is invalid.")
  verify_found code u identifier (some user) = do
    otp ← defined user.otp
    verify_of code u identifier user otp

  -- For a user who is given, or else for the first one whose password starts with the code.
  pub verify_otp : List ℕ → OtpUse → Option (List ℕ) → Option User → Exec (World env) OtpAnswer
  verify_otp code u identifier (some user) = verify_found code u identifier (some user)
  verify_otp code u identifier none = do
    found ← gets (λ w. env.find_first (otp_starts code) w.users)
    verify_found code u identifier found
