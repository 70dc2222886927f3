-- ===== src/Identifier.antt =====
-- GeneralHelpers (src/common/helpers/general.helpers.ts) and toValidPhoneNumber
-- (src/common/helpers/to-valid-phone.ts).
use Prim.Native.Char.{code}
use Prim.Native.String.{◌++◌ as append}
use nfc_payment_api.Prelude.{
  ℕ, zero, suc, String, ◌≡◌, refl, Bool, true, false, not, ◌&&◌, ◌||◌, ◌==◌, if◌then◌else◌,
}
use nfc_payment_api.Regex.{
  Regex, empty, one, seq, optional, some_of, codes, matches, matches_some_line, is_space, is_digit,
}

abbrev literal : ℕ → Regex
literal c = one (λ x. x == c)

-- `[^\s@]+`
abbrev email_part : Regex
email_part = some_of (one (λ c. not (is_space c) && not (c == b'@')))

-- /^[^\s@]+@[^\s@]+\.[^\s@]+$/
abbrev email_regex : Regex
email_regex = seq email_part (seq (literal b'@') (seq email_part (seq (literal b'.') email_part)))

unfoldable pub is_valid_email : String → Bool
is_valid_email s = matches email_regex (codes s)

abbrev digits : ℕ → Regex
digits zero = empty
digits (suc n) = seq (one is_digit) (digits n)

-- `[-\s\.]?`
abbrev separator : Regex
separator = optional (one (λ c. c == b'-' || (is_space c || c == b'.')))

-- /^[\+]?[(]?[0-9]{3}[)]?[-\s\.]?[0-9]{3}[-\s\.]?[0-9]{4,6}$/im
abbrev phone_regex : Regex
phone_regex = seq (optional (literal b'+')) (
    seq (optional (literal b'(')) (
      seq (digits 3) (
        seq (optional (literal b')')) (
          seq separator (
            seq (digits 3) (
              seq separator
                (seq (digits 4) (seq (optional (one is_digit)) (optional (one is_digit))))))))))

unfoldable pub is_phone : String → Bool
is_phone s = matches_some_line phone_regex (codes s)

-- A leading 0 becomes +234.
pub to_valid_phone_number : String → String
to_valid_phone_number String.[] = ""
to_valid_phone_number (String.◌∷◌ c s) = if code c == b'0' then append "+234" s else String.◌∷◌ c s

email_tests :
    (is_valid_email "ada@stark.pay" ≡ true)
    × (is_valid_email "ada@stark" ≡ false)
    × (is_valid_email "a da@stark.pay" ≡ false)
unfolding is_valid_email matches
email_tests = (refl, refl, refl)

phone_tests :
    (is_phone "+2348012345678" ≡ false)
    × (is_phone "08012345678" ≡ true)
    × (to_valid_phone_number "08012345678" ≡ "+2348012345678")
unfolding is_phone matches_some_line to_valid_phone_number
phone_tests = (refl, refl, refl)
