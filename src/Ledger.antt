-- ===== src/Ledger.antt =====
-- The queries of the ledger: TransactionService, src/transaction/transaction.service.ts, and
-- `getTransactions` of src/business/business.service.ts. The full-text search is left out.
pub mod Pages
pub mod Laws
pub mod Exposure
mod Tests
use mathlib.Core.List.{map, reverse}
use nfc_payment_api.Prelude.{
  ℕ, zero, suc, ◌+◌, String, Bool, true, false, ◌&&◌, ◌||◌, Option, none, some, List, [], ◌∷◌,
  same_id, leb, if◌then◌else◌,
}
use nfc_payment_api.Prelude.Int.{ℤ, pos, negsuc, ◌-ℤ◌, eq_ℤ}
use nfc_payment_api.Schema.{User, Transaction, TransactionStatus, TransactionType}
use nfc_payment_api.External.{Env}
use nfc_payment_api.Exec.{
  Exec, Error, Result, ok, err, http, text, validation_error, pure, throw, gets, try_catch,
  rethrow_http, ◌>>=◌,
}
use nfc_payment_api.Response.{
  Response, TransactionWithUsers, transaction_page, transactions, refused, succeeded,
}
use nfc_payment_api.World.{World, find_of}

-- GetUserTransactionsDto
pub record PageRequest : Type 0 where
  pub from_date : Option ℕ
  pub to_date : Option ℕ
  pub take : Option ℤ
  pub start : ℤ

-- GetTransactionDto and GetBusinessTransactionsDto, which has no business
pub record FilterRequest : Type 0 where
  pub page : PageRequest
  pub status : Option TransactionStatus
  pub type : Option TransactionType
  pub user_id : Option ℕ
  pub business_id : Option ℕ

abbrev same_status : TransactionStatus → TransactionStatus → Bool
same_status TransactionStatus.successful TransactionStatus.successful = true
same_status TransactionStatus.failed TransactionStatus.failed = true
same_status TransactionStatus.pending TransactionStatus.pending = true
same_status _ _ = false

abbrev same_type : TransactionType → TransactionType → Bool
same_type TransactionType.fund_wallet TransactionType.fund_wallet = true
same_type TransactionType.fund_card TransactionType.fund_card = true
same_type TransactionType.withdrawal TransactionType.withdrawal = true
same_type TransactionType.payment TransactionType.payment = true
same_type TransactionType.transfer TransactionType.transfer = true
same_type TransactionType.referral_bonus TransactionType.referral_bonus = true
same_type _ _ = false

-- A condition on an undefined value is none.
abbrev allows : {A : Type 0} → (A → Bool) → Option A → Bool
allows p none = true
allows p (some a) = p a

-- `createdAt: { lte, gte }`
abbrev pub within : Option ℕ → Option ℕ → ℕ → Bool
within from to time = allows (λ t. leb t time) from && allows (λ t. leb time t) to

-- `OR: [{ createdById }, { recipientId }]`
abbrev pub concerns : ℕ → Transaction → Bool
concerns user t = same_id t.created_by_id (some user) || same_id t.recipient_id (some user)

-- Of undefined values no condition is left, and an OR of none finds nothing.
abbrev concerns_asked : Option ℕ → Transaction → Bool
concerns_asked none t = false
concerns_asked (some user) t = concerns user t

abbrev pub has_business : Option ℕ → Transaction → Bool
has_business k t = same_id t.business_id k

module _ {A : Type 0} where
  pub filtered : (A → Bool) → List A → List A
  filtered p [] = []
  filtered p (a ∷ l) = let rest = filtered p l in if p a then a ∷ rest else rest

  pub count : (A → Bool) → List A → ℕ
  count p [] = 0
  count p (a ∷ l) = let n = count p l in if p a then suc n else n

  pub take : ℕ → List A → List A
  take zero l = []
  take (suc n) [] = []
  take (suc n) (a ∷ l) = a ∷ take n l

  pub drop : ℕ → List A → List A
  drop zero l = l
  drop (suc n) [] = []
  drop (suc n) (a ∷ l) = drop n l

  -- `skip` and `take` of a query: it refuses a negative skip, and with a negative take it counts from
  -- the end.
  pub paged : ℤ → ℤ → List A → Result (List A)
  paged (negsuc k) n l = err validation_error
  paged (pos k) (pos n) l = ok (take n (drop k l))
  paged (pos k) (negsuc n) l = ok (reverse (take (suc n) (drop k (reverse l))))

-- Pages start at 1, and 0 is taken for 1.
abbrev pub skip_of : ℤ → ℤ
skip_of start = if eq_ℤ start (pos 0) then pos 0 else start -ℤ pos 1

abbrev refuse_unless_http : String → {S : Type 0} → Error → Exec S Response
refuse_unless_http m (http status n) = throw (http status n)
refuse_unless_http m e = pure (refused m)

module _ (env : Env) where
  abbrev pub with_users : World env → ℕ × Transaction → TransactionWithUsers
  with_users w x = record {
    transaction = x.1;
    created_by = find_of env w.users x.1.created_by_id;
    recipient = find_of env w.users x.1.recipient_id;
  }

  abbrev pub number_of_records : ℤ
  number_of_records = elim env.number_of_transactions [ none ↦ pos 20 | some n ↦ n ]

  -- 0 counts as none.
  abbrev pub take_of : Option ℤ → ℤ
  take_of none = number_of_records
  take_of (some n) = if eq_ℤ n (pos 0) then number_of_records else n

  abbrev count_rows : (ℕ × Transaction → Bool) → Exec (World env) ℕ
  count_rows p = gets (λ w. count p (env.listed w.transactions))

  abbrev find_many : (ℕ × Transaction → Bool) → ℤ → ℤ → Exec (World env) (List (ℕ × Transaction))
  find_many p skip n w = (paged skip n (filtered p (env.ordered p skip n w.transactions)), w)

  abbrev find_page :
      (ℕ × Transaction → Bool) → Option ℤ → ℤ → Exec (World env) (List TransactionWithUsers)
  find_page p n start = do
    rows ← find_many p (skip_of start) (take_of n)
    gets (λ w. map (with_users w) rows)

  abbrev pub listed_page :
      (counted found : ℕ × Transaction → Bool) → Option ℤ → ℤ → Exec (World env) Response
  listed_page counted found n start = do
    total ← count_rows counted
    rows ← find_page found n start
    pure (succeeded "Successfully retrieved transactions" (transaction_page rows total))

  -- The total counts the user's rows of all dates.
  pub get_user_transactions : ℕ → PageRequest → Exec (World env) Response
  get_user_transactions user dto =
      try_catch
        (listed_page (λ x. concerns user x.1)
          (λ x. within dto.from_date dto.to_date x.0 && concerns user x.1) dto.take dto.start)
        (rethrow_http (text "Failed to get transactions"))

  -- The payments at the station today.
  abbrev pub at_station_today : ℕ → ℕ × Transaction → Bool
  at_station_today k x =
      let (first, last) = env.day_bounds env.now in
      within (some first) (some last) x.0 && same_id x.1.station_id (some k)

  pub get_station_transactions : ℕ → Option ℤ → ℤ → Exec (World env) Response
  get_station_transactions k n start =
      try_catch (listed_page (at_station_today k) (at_station_today k) n start)
        (refuse_unless_http "Failed to get transactions")

  abbrev pub meets_filters : FilterRequest → ℕ × Transaction → Bool
  meets_filters dto x =
      allows (same_status x.1.status) dto.status
      && (allows (same_type x.1.type) dto.type && within dto.page.from_date dto.page.to_date x.0)

  abbrev filtered_page : FilterRequest → Exec (World env) Response
  filtered_page dto = elim dto.user_id [
    | some user ↦
        listed_page
          (λ x.
            meets_filters dto x
            && (allows (λ k. has_business (some k) x.1) dto.business_id && concerns user x.1))
          (λ x. meets_filters dto x && concerns user x.1) dto.page.take dto.page.start
    | none ↦ listed_page (meets_filters dto) (meets_filters dto) dto.page.take dto.page.start
  ]

  -- The business restricts the total alone, and only with a user.
  pub get_transactions : FilterRequest → Exec (World env) Response
  get_transactions dto =
      try_catch (filtered_page dto) (λ e. pure (refused "Failed to get transactions"))

  -- The business restricts the total alone.
  pub get_business_transactions : User → FilterRequest → Exec (World env) Response
  get_business_transactions user dto =
      try_catch
        (listed_page (λ x. has_business user.business_id x.1)
          (λ x. meets_filters dto x && concerns_asked dto.user_id x.1) dto.page.take dto.page.start)
        (rethrow_http (text "Failed to get transactions"))

  -- `getTransactions` of BusinessService: its pages start at 0, and 0 rows are none.
  pub get_own_payments : PageRequest → User → Exec (World env) Response
  get_own_payments dto user =
      try_catch
        (do
          rows ←
              find_many
                (λ x.
                  has_business user.business_id x.1
                  && (same_type x.1.type TransactionType.payment
                      && within dto.from_date dto.to_date x.0))
                dto.start (elim dto.take [ none ↦ pos 20 | some n ↦ n ])
          pure (
              succeeded "Transactions retrieved successfully" (transactions (map (λ x. x.1) rows))))
        (λ e. pure (refused "Failed to get transactions"))
