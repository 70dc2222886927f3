-- ===== src/Registration/Username/Tests.antt =====
-- Generated usernames, `generateUsername` of src/auth/auth.service.ts.
use nfc_payment_api.Prelude.{◌≡◌, refl, none, some, [], ◌∷◌}
use nfc_payment_api.Prelude.Int.{pos, ◌+ℤ◌}
use nfc_payment_api.External.Memory.{memory}
use nfc_payment_api.Registration.Username.{
  print_digits, read_digits, skip_spaces, before_underscore, second_part, username_number,
  latest_username, generate_username,
}
use nfc_payment_api.Samples.{start, customer, merchant}

number_41 : username_number "ada_41" ≡ some (pos 41)
unfolding username_number second_part before_underscore skip_spaces read_digits
number_41 = refl

number_hex : username_number "ada_ 0x1Fz" ≡ some (pos 31)
unfolding username_number second_part before_underscore skip_spaces read_digits
number_hex = refl

no_number : username_number "ada_b_2" ≡ none
unfolding username_number second_part before_underscore skip_spaces read_digits
no_number = refl

-- The latest user is `ada_41`.
next_number :
    generate_username memory "ada" (record start {
      users =
          some customer
          ∷ some merchant
          ∷ some (record customer { id = 2; username = some "ada_41" })
          ∷ [];
    })
    ≡ "ada_42"
unfolding generate_username latest_username username_number second_part before_underscore
    skip_spaces read_digits print_digits ◌+ℤ◌
next_number = refl
