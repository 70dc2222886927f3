-- ===== src/Otp/Tests.antt =====
-- One-time passwords on the database of `Samples`, src/common/helpers/otp.helper.ts.
use nfc_payment_api.Prelude.{ℕ, zero, suc, ◌≡◌, refl, true, false, some, none, arith}
use nfc_payment_api.Schema.{User}
use nfc_payment_api.External.Memory.{memory, memory-IsLawful}
use nfc_payment_api.Exec.{ok, ◌>>=◌}
use nfc_payment_api.World.{World}
use nfc_payment_api.Otp.{
  starts_with, same_codes, split, part, otp_starts, with_otp, invalid, set_otp, fresh_otp,
  generate_otp, is_taken, verify_otp, password_reset,
}
use nfc_payment_api.Otp.RoundTrip.{accepted}
use nfc_payment_api.Otp.RoundTrip.Fresh.{text_of, generate_otp_returns, sent_code_verifies_once}
use nfc_payment_api.Otp.Sample.{clock, code}
use nfc_payment_api.Samples.{start, customer}

abbrev stored : World memory
stored = (generate_otp memory 0 password_reset customer.email start).1

made : generate_otp memory 0 password_reset customer.email start ≡ (ok (some code), stored)
unfolding generate_otp fresh_otp set_otp starts_with same_codes split part ◌>>=◌
made = refl

nobody_else :
    (k : ℕ) (r : User) → memory.find k start.users ≡ some r → otp_starts code r ≡ true → k ≡ 0
nobody_else zero r listed starts = refl
nobody_else (suc zero) r listed starts = absurd (ground arith)
nobody_else (suc (suc k)) r listed starts = absurd (ground arith)

generate_otp_returns_example :
    (fresh_otp memory 9 0 password_reset customer.email start
      ≡ fresh_otp memory 3 0 password_reset customer.email start)
    × ((i : ℕ) × ((is_taken memory start (text_of memory password_reset customer.email start i)
            ≡ false)
          × (generate_otp memory 0 password_reset customer.email start ≡ (
            ok (some (memory.draw i)),
            record start {
              users =
                  memory.write 0
                    (with_otp
                      (some (text_of memory password_reset customer.email start i))
                      customer)
                    start.users;
            },
          ))))
generate_otp_returns_example =
    generate_otp_returns memory password_reset customer.email start memory-IsLawful clock customer 0
      refl (ground arith) refl (λ i. ground arith) 9 (ground arith)

sent_code_verifies_once_example :
    ((i : ℕ) × ((verify_otp memory code password_reset none none stored).0
        ≡ ok (
            accepted
              (with_otp (some (text_of memory password_reset customer.email start i)) customer))))
    × ((memory.find 0 (verify_otp memory code password_reset none none stored).1.users
          ≡ some (with_otp none customer))
        × (verify_otp memory code password_reset none none
              (verify_otp memory code password_reset none none stored).1
            ≡ (
              ok (invalid "This OTP is invalid."),
              (verify_otp memory code password_reset none none stored).1,
            )))
sent_code_verifies_once_example =
    sent_code_verifies_once memory password_reset customer.email start memory-IsLawful clock
      customer 0 refl (ground arith) refl (λ i. ground arith) code stored made nobody_else
      (ground arith)
