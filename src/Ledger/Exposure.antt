-- ===== src/Ledger/Exposure.antt =====
-- What the queries of the ledger show to others: rows of any business, and whole rows of users,
-- src/transaction/transaction.service.ts, with `resetPin` of src/auth/auth.service.ts.
use mathlib.Core.List.{Mem}
use nfc_payment_api.Prelude.{
  ℕ, ◌≤◌, String, ◌≡◌, refl, true, Option, none, some, str_eq, List, arith,
}
use nfc_payment_api.Prelude.Int.{pos}
use nfc_payment_api.Schema.{User, Transaction}
use nfc_payment_api.External.{Env, IsLawful}
use nfc_payment_api.Exec.{ok}
use nfc_payment_api.Response.{TransactionWithUsers, null, succeeded}
use nfc_payment_api.World.{World}
use nfc_payment_api.Otp.{split, part, password_reset}
use nfc_payment_api.Otp.Text.{IsClock}
use nfc_payment_api.Otp.RoundTrip.{IsPending}
use nfc_payment_api.Reset.{reset_pin}
use nfc_payment_api.Reset.Laws.{renewed, reset_pin_replaces}
use nfc_payment_api.Ledger.{
  PageRequest, FilterRequest, count, concerns, has_business, with_users, get_user_transactions,
  get_business_transactions,
}
use nfc_payment_api.Ledger.Laws.{
  answer, rows, total, listed_page-eq, listed_page-complete, total_lists_all,
}

-- The first rows of a user.
abbrev pub rows_of : ℕ → ℕ → FilterRequest
rows_of k n = record {
  page = record { from_date = none; to_date = none; take = some (pos n); start = pos 1 };
  status = none;
  type = none;
  user_id = some k;
  business_id = none;
}

-- The code that a listed row shows of a pending one-time password of its recipient.
abbrev pub shown_code : TransactionWithUsers → Option (List ℕ)
shown_code x = elim x.recipient [
  | none ↦ none
  | some u ↦ elim u.otp [ none ↦ none | some text ↦ part 0 (split text) ]
]

module _ (env : Env) (law : IsLawful env) (w : World env) where
  -- To a user of any business, or of none, the query of business transactions lists each row that a
  -- user created or received, of whichever business the row is: if it is asked for that user, with no
  -- other filter, and for as many rows as there are. The user's business is only that of the total.
  pub business_reads_any_row :
      (user : User) (k n : ℕ) (id : ℕ) (t : Transaction)
      → env.find id w.transactions ≡ some t
      → concerns k t ≡ true
      → 1 ≤ n
      → count (λ x. concerns k x.1) (env.listed w.transactions) ≤ n
      → (listed : List TransactionWithUsers) × (time : ℕ) × (get_business_transactions env user
            (rows_of k n)
            w
          ≡ (
            ok (
                answer listed
                  (count (λ x. has_business user.business_id x.1) (env.listed w.transactions))),
            w,
          ))
        × Mem (with_users env w (time, t)) listed
  unfolding get_business_transactions
  business_reads_any_row user k n id t there theirs some_rows enough =
      let (time, m) = law.listed_complete w.transactions id t there in
      (
        rows env w (λ x. concerns k x.1) 0 n,
        time,
        rw
            (listed_page-eq env w (λ x. has_business user.business_id x.1) (λ x. concerns k x.1) 0 n
              some_rows)
            refl,
        listed_page-complete env w law (λ x. concerns k x.1) (λ x. concerns k x.1) n (λ x h. h)
            some_rows enough (time, t) theirs m,
      )

  -- While a reset of a user's PIN is pending, who once paid the user sets the PIN: the payer's own
  -- transactions list a row whose recipient is the whole user, the code stands at the start of the
  -- one-time password that is shown there, and a reset with the code stores the hash of whatever PIN the
  -- payer chooses, which verifies that PIN alone. A password lasts a minute at least.
  pub payer_resets_pin :
      (clock : IsClock env) (payer k : ℕ) (t : Transaction) (u : User) (code text : List ℕ)
      (pin other : String)
      → env.find k w.transactions ≡ some t
      → t.created_by_id ≡ some payer
      → t.recipient_id ≡ some u.id
      → IsPending env password_reset code w u text
      → 1 ≤ env.otp_minutes
      → let every : ℕ → PageRequest =
          λ n. record { from_date = none; to_date = none; take = some (pos n); start = pos 1 } in
        (listed : List TransactionWithUsers) × (row : TransactionWithUsers) × (get_user_transactions
            env payer
            (every (total env w payer))
            w
          ≡ (ok (answer listed (total env w payer)), w))
        × Mem row listed
        × (shown_code row ≡ some code)
        × ((reset_pin env code pin w).0 ≡ ok (succeeded "Pin reset" null))
        × (env.find u.id (reset_pin env code pin w).1.users ≡ some (renewed env pin u))
        × (env.verify (env.hash pin) other ≡ str_eq pin other)
  unfolding part
  payer_resets_pin clock payer k t u code text pin other there created received p long =
      let (listed, time, answered, m) = total_lists_all env w payer law k t there (ground arith) in
      let (reset, (stored, (checked, _))) =
        reset_pin_replaces env law clock code w u text p long pin pin other in
      (
        listed,
        with_users env w (time, t),
        answered,
        m,
        rw (received, p.row.listed, p.stored, p.parts) refl,
        reset,
        stored,
        checked,
      )
