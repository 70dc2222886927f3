-- ===== src/External.antt =====
-- What the services call and do not implement: the database behind the Prisma client, argon2, the
-- clock, the configuration and the payment processor. Every definition takes such a record, and
-- `IsLawful` is what the theorems assume of the database.
pub mod Memory
pub mod Rows
use mathlib.Core.Option
use mathlib.Core.List.{Mem}
use mathlib.Core.List.{Permᴰ}
use nfc_payment_api.Prelude.{
  ℕ, String, ◌≡◌, ◌≢◌, Bool, true, str_eq, List, Option, none, some, ◌==◌, if◌then◌else◌,
}
use nfc_payment_api.Prelude.Int.{ℤ}
use nfc_payment_api.Schema.{Bank}

-- An answer of Flutterwave to a transfer request, with the amount and the reference of its data.
pub data TransferAnswer : Type 0 where
  -- the promise was rejected, or the answer has no data
  no_data : TransferAnswer
  -- the call itself threw, and there is no promise
  threw : TransferAnswer
  answered : (success : Bool) → (reference : String) → (amount : ℤ) → TransferAnswer

-- A transfer request to Flutterwave.
pub record Payout : Type 0 where
  pub amount : ℤ
  pub bank_code : String
  pub number : String
  pub reference : String

-- An answer of Flutterwave to a request for an account: its status, and the bank and the number.
pub record AccountAnswer : Type 0 where
  pub success : Bool
  pub bank_name : Option String
  pub account_number : Option String

-- The secrets that tokens of access and of refresh are signed with.
pub data TokenSecret : Type 0 where
  access refresh : TokenSecret

-- An answer of Paystack on the name of an account, which may be missing.
pub record ResolvedAccount : Type 0 where
  pub account_name : Option String
  pub message : String

-- An answer of Termii on a number: the status of its data, if it has data.
pub record NumberAnswer : Type 0 where
  pub data_status : Option String

pub record Env : Type 1 where
  -- a table of rows, by primary key
  pub Table : Type 0 → Type 0
  pub find : {Row : Type 0} → ℕ → Table Row → Option Row
  pub write : {Row : Type 0} → ℕ → Row → Table Row → Table Row
  pub remove : {Row : Type 0} → ℕ → Table Row → Table Row
  -- the rows that meet the test are removed
  pub remove_rows : {Row : Type 0} → (Row → Bool) → Table Row → Table Row
  -- the same change of every row
  pub map_rows : {Row : Type 0} → (Row → Row) → Table Row → Table Row
  pub find_first : {Row : Type 0} → (Row → Bool) → Table Row → Option Row
  -- the identifier that the next created row gets
  pub new_id : {Row : Type 0} → Table Row → ℕ
  -- argon2.verify(hash, plain)
  pub verify : String → String → Bool
  -- argon2.hash
  pub hash : String → String
  -- jwt.signAsync: the secret, the subject and the phone number
  pub sign : TokenSecret → ℕ → Option String → String
  -- uuidv4(), speakeasy.generateSecret, and speakeasy.totp.verify of a secret and a token
  pub new_device_id : String
  pub new_totp_secret : String
  pub totp_valid : String → String → Bool
  -- the milliseconds of the clock, and as `${Date.now()}` prints them
  pub now : ℕ
  pub printed_now : String
  -- whether the mail transport takes a message to the address
  pub mail_taken : Option String → Bool
  -- the sum over the rows that were created in the last two days and meet a test; null without any
  pub recent_sum : {Row : Type 0} → (Row → Bool) → (Row → ℤ) → Table Row → Option ℤ
  -- `(percentage / 100) * amount`, as the doubles of the language give it
  pub percent_of : ℕ → ℤ → ℤ
  -- check/dnd of Termii on a number; none if the request fails
  pub search_number : String → Option NumberAnswer
  -- the codes that Math.random makes one after the other, and how many are tried at most
  pub draw : ℕ → List ℕ
  pub tries : ℕ
  -- OTP_EXPIRATION_IN_MINUTES, and a date as text and back: Invalid Date is none
  pub otp_minutes : ℕ
  pub print_time : ℕ → List ℕ
  pub parse_time : List ℕ → Option ℕ
  -- the rows with the times of their creation, the latest first
  pub listed : {Row : Type 0} → Table Row → List (ℕ × Row)
  -- the order that a query with this filter, skip and take sees, the latest first: which of two rows of
  -- one time comes first may differ from query to query
  pub ordered : {Row : Type 0} → (ℕ × Row → Bool) → ℤ → ℤ → Table Row → List (ℕ × Row)
  -- the number that NUMBER_OF_TRANSACTIONS holds, if it is set
  pub number_of_transactions : Option ℤ
  -- the first and the last millisecond of a time's day, by the server's clock
  pub day_bounds : ℕ → ℕ × ℕ
  -- `toLowerCase`, and whether a text starts with another, by the database and in whichever case
  pub lower_case : String → String
  pub starts_insensitive : String → String → Bool
  -- `creditsPerReferral` of the configuration
  pub credits_per_referral : Option ℤ
  -- whether the cache holds the banks, and the row of a bank by its slug
  pub banks_cached : Bool
  pub find_bank : String → Option Bank
  -- bank/resolve of Paystack: the number and the code of the bank; none if the request fails
  pub resolve_account : String → String → Option ResolvedAccount
  -- NODE_ENV
  pub node_env : String
  -- flw.Transfer.initiate
  pub initiate_transfer : Payout → TransferAnswer
  -- flw.VirtualAcct.create: email, amount, reference; none if the promise is rejected
  pub create_account : Option String → ℤ → String → Option AccountAnswer
  -- flw.Transaction.verify: the status and the amount that Flutterwave has for a transaction
  pub verify_charge : ℕ → Option (String × ℤ)

-- A row that is kept by `remove_rows`.
abbrev pub kept_row : {Row : Type 0} → (Row → Bool) → Option Row → Option Row
kept_row p none = none
kept_row p (some r) = if p r then none else some r

pub record IsLawful (env : Env) : Type 1 where
  -- a hash verifies the text that it was made of, and no other
  pub verify-hash : (p q : String) → env.verify (env.hash p) q ≡ str_eq p q
  pub find-write :
      {Row : Type 0} (k : ℕ) (r : Row) (t : env.Table Row) (j : ℕ)
      → env.find j (env.write k r t) ≡ (if k == j then some r else env.find j t)
  pub find-remove :
      {Row : Type 0} (k : ℕ) (t : env.Table Row) (j : ℕ)
      → env.find j (env.remove k t) ≡ (if k == j then none else env.find j t)
  pub find-remove_rows :
      {Row : Type 0} (p : Row → Bool) (t : env.Table Row) (j : ℕ)
      → env.find j (env.remove_rows p t) ≡ kept_row p (env.find j t)
  pub find-map_rows :
      {Row : Type 0} (f : Row → Row) (t : env.Table Row) (j : ℕ)
      → env.find j (env.map_rows f t) ≡ Option.map f (env.find j t)
  pub find-new_id : {Row : Type 0} (t : env.Table Row) → env.find (env.new_id t) t ≡ none
  pub find_first_sound :
      {Row : Type 0} (p : Row → Bool) (t : env.Table Row) (r : Row)
      → env.find_first p t ≡ some r
      → (p r ≡ true) × ((k : ℕ) × (env.find k t ≡ some r))
  pub find_first_complete :
      {Row : Type 0} (p : Row → Bool) (t : env.Table Row) (k : ℕ) (r : Row)
      → env.find k t ≡ some r
      → p r ≡ true
      → env.find_first p t ≢ none
  pub listed_complete :
      {Row : Type 0} (t : env.Table Row) (k : ℕ) (r : Row)
      → env.find k t ≡ some r
      → (time : ℕ) × Mem (time, r) (env.listed t)
  pub ordered-listed :
      {Row : Type 0} (p : ℕ × Row → Bool) (k n : ℤ) (t : env.Table Row)
      → Permᴰ (env.ordered p k n t) (env.listed t)
