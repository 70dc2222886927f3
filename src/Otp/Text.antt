-- ===== src/Otp/Text.antt =====
-- The text of a one-time password, src/common/helpers/otp.helper.ts: its parts.
use nfc_payment_api.Prelude.{
  ℕ, ◌≡◌, refl, ap, ◌∙◌, ◌*◌, ◌/◌, Bool, true, not, ◌&&◌, Option, some, String, List, [], ◌∷◌, ◌++◌,
  ◌==◌, arith,
}
use nfc_payment_api.External.{Env}
use nfc_payment_api.Otp.{
  OtpUse, initial_phone_verification, edit_phone_verification, email_verification, password_reset,
  two_factor_auth, add_card, disable_card, use_text, identifier_text, starts_with, same_codes,
  split, expiration, otp_text,
}

abbrev pub has_no_hyphen : List ℕ → Bool
has_no_hyphen [] = true
has_no_hyphen (c ∷ l) = not (c == 45) && has_no_hyphen l

split-hyphen : (p l : List ℕ) → has_no_hyphen p ≡ true → split (p ++ 45 ∷ l) ≡ p ∷ split l
unfolding split
split-hyphen [] l h = refl
split-hyphen (c ∷ p) l h = ground (arith, split-hyphen p l (ground arith))

pub split-whole : (p : List ℕ) → has_no_hyphen p ≡ true → split p ≡ p ∷ []
unfolding split
split-whole [] h = refl
split-whole (c ∷ p) h = ground (arith, split-whole p (ground arith))

pub same_codes_refl : (l : List ℕ) → same_codes l l ≡ true
unfolding same_codes
same_codes_refl [] = refl
same_codes_refl (c ∷ l) = ground (arith, same_codes_refl l)

pub same_codes_sound : (l m : List ℕ) → same_codes l m ≡ true → l ≡ m
unfolding same_codes
same_codes_sound [] [] h = refl
same_codes_sound [] (d ∷ m) h = absurd (ground arith)
same_codes_sound (c ∷ l) [] h = absurd (ground arith)
same_codes_sound (c ∷ l) (d ∷ m) h = ground (arith, same_codes_sound l m (ground arith))

pub starts_with-append : (p l : List ℕ) → starts_with p (p ++ l) ≡ true
unfolding starts_with
starts_with-append [] l = refl
starts_with-append (c ∷ p) l = ground (arith, starts_with-append p l)

use_text-has_no_hyphen : (u : OtpUse) → has_no_hyphen (use_text u) ≡ true
use_text-has_no_hyphen initial_phone_verification = refl
use_text-has_no_hyphen edit_phone_verification = refl
use_text-has_no_hyphen email_verification = refl
use_text-has_no_hyphen password_reset = refl
use_text-has_no_hyphen two_factor_auth = refl
use_text-has_no_hyphen add_card = refl
use_text-has_no_hyphen disable_card = refl

-- The times of a time zone that is not west of Greenwich: no hyphen, and read back in whole seconds.
pub record IsClock (env : Env) : Type 0 where
  pub plain : (t : ℕ) → has_no_hyphen (env.print_time t) ≡ true
  pub parse-print : (t : ℕ) → env.parse_time (env.print_time t) ≡ some (t / 1000 * 1000)

pub split-otp_text :
    (env : Env) (clock : IsClock env) (u : OtpUse) (identifier : Option String) (code : List ℕ)
    → has_no_hyphen code ≡ true
    → split (otp_text env u identifier code)
      ≡ code ∷ env.print_time (expiration env) ∷ use_text u ∷ split (identifier_text identifier)
split-otp_text env clock u identifier code plain =
    let time = env.print_time (expiration env) in
    let tail = use_text u ++ 45 ∷ identifier_text identifier in
    split-hyphen code (time ++ 45 ∷ tail) plain
    ∙ ap (λ x. code ∷ x)
        (split-hyphen time tail (clock.plain (expiration env))
          ∙ ap (λ x. time ∷ x)
              (split-hyphen (use_text u) (identifier_text identifier) (use_text-has_no_hyphen u)))

pub starts_with_refl : (l : List ℕ) → starts_with l l ≡ true
unfolding starts_with
starts_with_refl [] = refl
starts_with_refl (c ∷ l) = ground (arith, starts_with_refl l)
