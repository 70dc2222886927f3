-- ===== src/Otp/Sample.antt =====
-- A database on which a one-time password waits, with codes of two digits,
-- src/common/helpers/otp.helper.ts.
use nfc_payment_api.Prelude.{ℕ, zero, suc, ◌*◌, ◌/◌, ◌≡◌, refl, true, some, List, [], ◌∷◌, arith}
use nfc_payment_api.Schema.{User}
use nfc_payment_api.External.Memory.{memory}
use nfc_payment_api.World.{World}
use nfc_payment_api.Otp.{OtpUse, identifier_text, split, otp_text, otp_starts, with_otp}
use nfc_payment_api.Otp.Text.{IsClock, has_no_hyphen, starts_with-append, split-otp_text}
use nfc_payment_api.Otp.RoundTrip.{IsPending}
use nfc_payment_api.Samples.{start, customer, merchant}

plain_time : (t : ℕ) → has_no_hyphen (memory.print_time t) ≡ true
plain_time t = ground arith

read_time : (t : ℕ) → memory.parse_time (memory.print_time t) ≡ some (t / 1000 * 1000)
read_time t = ground arith

pub clock : IsClock memory
clock = record { plain = plain_time; parse-print = read_time }

abbrev pub code : List ℕ
code = 49 ∷ 49 ∷ []

abbrev pub waiting_text : OtpUse → List ℕ
waiting_text u = otp_text memory u customer.email code

abbrev pub waiting : OtpUse → User
waiting u = with_otp (some (waiting_text u)) customer

abbrev pub waiting_start : OtpUse → World memory
waiting_start u = record start { users = some (waiting u) ∷ some merchant ∷ [] }

first_starts :
    (u : OtpUse) (k : ℕ) (r : User)
    → memory.find k (waiting_start u).users ≡ some r
    → otp_starts code r ≡ true
    → k ≡ 0
first_starts u zero r listed starts = refl
first_starts u (suc zero) r listed starts = absurd (ground arith)
first_starts u (suc (suc k)) r listed starts = absurd (ground arith)

pub pending : (u : OtpUse) → IsPending memory u code (waiting_start u) (waiting u) (waiting_text u)
pending u = record {
  row = record { listed = refl; meets = starts_with-append code _; sole = first_starts u };
  stored = refl;
  rest = split (identifier_text customer.email);
  parts = split-otp_text memory clock u customer.email code refl;
}
