-- ===== src/Ledger/Tests.antt =====
-- Queries of a ledger of two transfers to the first customer of `Samples`,
-- src/transaction/transaction.service.ts.
use mathlib.Core.List.{Mem}
use nfc_payment_api.Prelude.{ℕ, ◌≡◌, refl, true, some, none, str_eq, List, [], ◌∷◌, arith}
use nfc_payment_api.Prelude.Int.{pos, naira, ◌-ℤ◌}
use nfc_payment_api.Schema.{User, Transaction, TransactionStatus, TransactionType, PaymentProcessor}
use nfc_payment_api.External.Memory.{memory, memory-IsLawful}
use nfc_payment_api.Exec.{ok, ◌>>=◌}
use nfc_payment_api.Response.{TransactionWithUsers, null, succeeded}
use nfc_payment_api.World.{World}
use nfc_payment_api.Otp.{password_reset}
use nfc_payment_api.Otp.RoundTrip.{IsPending}
use nfc_payment_api.Otp.Sample.{clock, code, waiting, waiting_text, waiting_start, pending}
use nfc_payment_api.Reset.{reset_pin}
use nfc_payment_api.Reset.Laws.{renewed}
use nfc_payment_api.Ledger.{
  PageRequest, count, concerns, filtered, take, drop, paged, has_business, with_users,
  get_user_transactions, get_business_transactions,
}
use nfc_payment_api.Ledger.Laws.{page_at, answer, total, total_lists_all, page_is_own}
use nfc_payment_api.Ledger.Exposure.{rows_of, shown_code, business_reads_any_row, payer_resets_pin}
use nfc_payment_api.Samples.{customer}

abbrev gift : Transaction
gift = record {
  id = 0;
  transaction_reference = "first";
  status = TransactionStatus.successful;
  wallet_id = some 1;
  card_id = none;
  type = TransactionType.transfer;
  amount = naira 100;
  recipient_id = some 0;
  created_by_id = some 1;
  narration = none;
  processor_status = "successful";
  processor_trx_id = none;
  processor = PaymentProcessor.flutterwave;
  fee = pos 0;
  business_id = none;
  station_id = none;
}

abbrev later : Transaction
later = record gift { id = 1; transaction_reference = "second" }

abbrev given : World memory
given = record (waiting_start password_reset) { transactions = some gift ∷ some later ∷ [] }

abbrev all_dates : PageRequest
all_dates = record { from_date = none; to_date = none; take = none; start = pos 1 }

total_lists_all_example :
    let every : ℕ → PageRequest =
      λ n. record { from_date = none; to_date = none; take = some (pos n); start = pos 1 } in
    (listed : List TransactionWithUsers) × (time : ℕ) × (get_user_transactions memory 1
        (every (total memory given 1))
        given
      ≡ (ok (answer listed (total memory given 1)), given))
    × Mem (with_users memory given (time, gift)) listed
total_lists_all_example = total_lists_all memory given 1 memory-IsLawful 0 gift refl refl

-- Both rows, the latest first.
abbrev both : List TransactionWithUsers
both = with_users memory given (1, later) ∷ with_users memory given (0, gift) ∷ []

both_listed :
    get_user_transactions memory 1 (page_at all_dates 1 2) given ≡ (ok (answer both 2), given)
unfolding get_user_transactions filtered count take drop paged ◌>>=◌ ◌-ℤ◌
both_listed = refl

page_is_own_example :
    (given ≡ given) × ((x : TransactionWithUsers) → Mem x both → concerns 1 x.transaction ≡ true)
page_is_own_example =
    page_is_own memory given 1 (page_at all_dates 1 2) (answer both 2) given both 2 both_listed refl

abbrev owner : User
owner = record customer { business_id = some 0 }

business_reads_any_row_example :
    (listed : List TransactionWithUsers) × (time : ℕ) × (get_business_transactions memory owner
        (rows_of 1 2)
        given
      ≡ (
        ok (
            answer listed
              (count (λ x. has_business (some 0) x.1) (memory.listed given.transactions))),
        given,
      ))
    × Mem (with_users memory given (time, gift)) listed
unfolding count
business_reads_any_row_example =
    business_reads_any_row memory memory-IsLawful given owner 1 2 0 gift refl refl (omega arith)
      (omega arith)

given-IsPending :
    IsPending memory password_reset code given
      (waiting password_reset)
      (waiting_text password_reset)
given-IsPending =
    let p = pending password_reset in
    record { row = p.row; stored = p.stored; rest = p.rest; parts = p.parts }

payer_resets_pin_example :
    let every : ℕ → PageRequest =
      λ n. record { from_date = none; to_date = none; take = some (pos n); start = pos 1 } in
    (listed : List TransactionWithUsers) × (row : TransactionWithUsers) × (get_user_transactions
        memory 1
        (every (total memory given 1))
        given
      ≡ (ok (answer listed (total memory given 1)), given))
    × Mem row listed
    × (shown_code row ≡ some code)
    × ((reset_pin memory code "9876" given).0 ≡ ok (succeeded "Pin reset" null))
    × (memory.find 0 (reset_pin memory code "9876" given).1.users
        ≡ some (renewed memory "9876" (waiting password_reset)))
    × (memory.verify (memory.hash "9876") "1234" ≡ str_eq "9876" "1234")
payer_resets_pin_example =
    payer_resets_pin memory memory-IsLawful given clock 1 0 gift (waiting password_reset) code
      (waiting_text password_reset) "9876" "1234" refl refl refl given-IsPending (ground arith)
