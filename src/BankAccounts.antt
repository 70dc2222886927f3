-- ===== src/BankAccounts.antt =====
-- The bank accounts of users and of businesses: `addBankAccount` and `getBankAccount` of
-- src/user/user.service.ts, and `addBankAccount` of src/business/business.service.ts.
pub mod Laws
pub mod Withdrawals
mod Tests
use Prim.Native.String.{◌++◌ as append}
use nfc_payment_api.Prelude.{
  ℕ, String, Bool, true, false, not, ◌&&◌, ◌||◌, Option, none, some, List, [], ◌∷◌, nonempty,
  str_eq, same_id, is_some, if◌then◌else◌,
}
use nfc_payment_api.Schema.{User, Business, Bank, BankAccount}
use nfc_payment_api.External.{Env, ResolvedAccount}
use nfc_payment_api.Exec.{
  Exec, Error, ok, err, text, type_error, validation_error, unique_violation, foreign_key_violation,
  record_not_found, pure, throw, gets, defined, try_catch, ◌>>=◌, ◌>>◌,
}
use nfc_payment_api.Regex.{codes}
use nfc_payment_api.Otp.{starts_with}
use nfc_payment_api.Response.{Response, null, bank_account, refused, succeeded}
use nfc_payment_api.World.{World}

-- AddBankAcountDto and AddBankAcountForBusinessDto
pub record AddBankAccount : Type 0 where
  pub bank_slug : String
  pub number : String

-- The names of a user who has both.
pub record FullName : Type 0 where
  pub first : String
  pub last : String

pub contains : List ℕ → List ℕ → Bool
contains [] p = starts_with p []
contains (c ∷ l) p = starts_with p (c ∷ l) || contains l p

-- `s.includes(p)`
abbrev pub includes_text : String → String → Bool
includes_text s p = contains (codes s) (codes p)

-- The accounts that are looked up: none of Access Bank, and none of four numbers.
abbrev pub is_looked_up : AddBankAccount → Bool
is_looked_up dto =
    not (str_eq dto.bank_slug "access-bank")
    && (not (str_eq dto.number "0690000031")
        && (not (str_eq dto.number "690000032")
            && (not (str_eq dto.number "690000033") && not (str_eq dto.number "690000034"))))

abbrev both_names : Option String → Option String → Option FullName
both_names (some first) (some last) = some (record { first = first; last = last })
both_names _ _ = none

abbrev pub full_name : User → Option FullName
full_name u = both_names (nonempty u.first_name) (nonempty u.last_name)

-- A name in a template string.
abbrev shown_name : Option String → String
shown_name none = "null"
shown_name (some s) = s

abbrev pub printed_name : User → String
printed_name u = append (shown_name u.first_name) (append " " (shown_name u.last_name))

-- `data?.account_name ? data.account_name : …`
abbrev pub name_or : Option String → String → String
name_or found other = elim (nonempty found) [ none ↦ other | some n ↦ n ]

abbrev renamed : Bank → String → String → BankAccount → BankAccount
renamed bank number name a = record a { bank = bank; number = number; account_name = name }

abbrev pub unresolved : String → Bool
unresolved message = includes_text message "Could not resolve account name"

module _ (env : Env) where
  -- The callback of the filter of the cached banks returns nothing, so none is found.
  abbrev pub bank_for : String → Option Bank
  bank_for slug = if env.banks_cached then none else env.find_bank slug

  abbrev pub same_name : String → FullName → Bool
  same_name account n =
      includes_text (env.lower_case account) (env.lower_case n.first)
      && includes_text (env.lower_case account) (env.lower_case n.last)

  abbrev pub request : AddBankAccount → Exec (World env) ResolvedAccount
  request dto = do
    bank ← defined (bank_for dto.bank_slug)
    defined (env.resolve_account dto.number bank.code)

  abbrev insert_account : Option Bank → BankAccount → Exec (World env) BankAccount
  insert_account none a w = (err foreign_key_violation, w)
  insert_account (some bank) a w =
      let row : BankAccount = record a { id = env.new_id w.bank_accounts; bank = bank } in
      (ok row, record w { bank_accounts = env.write row.id row w.bank_accounts })

  abbrev new_account : AddBankAccount → String → (business user : Option ℕ) → BankAccount
  new_account dto name business user = record {
    id = 0;
    bank = record { slug = dto.bank_slug; code = "" };
    number = dto.number;
    account_name = name;
    business_id = business;
    user_id = user;
  }

  -- `bankAccount.create`: one account for each owner.
  pub create_bank_account :
      (BankAccount → Bool) → AddBankAccount → BankAccount → Exec (World env) BankAccount
  create_bank_account owned dto a w =
      if is_some (env.find_first owned w.bank_accounts)
      then (err unique_violation, w)
      else insert_account (env.find_bank dto.bank_slug) a w

  abbrev write_account :
      Option Bank → AddBankAccount → String → Option BankAccount → Exec (World env) BankAccount
  write_account bank dto name none w = (err record_not_found, w)
  write_account none dto name (some a) w = (err foreign_key_violation, w)
  write_account (some bank) dto name (some a) w =
      let row = renamed bank dto.number name a in
      (ok row, record w { bank_accounts = env.write a.id row w.bank_accounts })

  -- `bankAccount.update` by the owner
  pub update_bank_account :
      (BankAccount → Bool) → AddBankAccount → String → Exec (World env) BankAccount
  update_bank_account owned dto name w =
      write_account (env.find_bank dto.bank_slug) dto name (env.find_first owned w.bank_accounts) w

  abbrev added : BankAccount → Response
  added a = succeeded "The bank account has been added successfully" (bank_account a)

  abbrev pub of_user : ℕ → BankAccount → Bool
  of_user k a = same_id a.user_id (some k)

  -- The user and the account are those of the request.
  abbrev pub store_own : AddBankAccount → User → Bool → Option String → Exec (World env) Response
  store_own dto user has_account found = do
    let name = name_or found (printed_name user)
    a ←
        if has_account
        then update_bank_account (of_user user.id) dto name
        else create_bank_account (of_user user.id) dto (new_account dto name none (some user.id))
    pure (added a)

  abbrev pub store_resolved :
      AddBankAccount → User → Bool → FullName → ResolvedAccount → Exec (World env) Response
  store_resolved dto user has_account n answer = do
    account ← defined answer.account_name
    if not (same_name account n)
        then pure (refused "Account name does not match user's name")
        else if unresolved answer.message
        then pure (refused "Invalid Bank Account. please check the account number and try again")
        else store_own dto user has_account (some account)

  abbrev pub add_named : AddBankAccount → User → Bool → Option FullName → Exec (World env) Response
  add_named dto user has_account none =
      pure (refused "Please ensure that you have set your first name and last name in your profile")
  add_named dto user has_account (some n) =
      if is_looked_up dto
      then (do answer ← request dto; store_resolved dto user has_account n answer)
      else store_own dto user has_account none

  pub add_bank_account : AddBankAccount → User → (has_account : Bool) → Exec (World env) Response
  add_bank_account dto user has_account =
      try_catch (add_named dto user has_account (full_name user))
        (λ e. pure (refused "There was a problem adding the account"))

  -- `getBankAccount`: by the owner.
  pub get_bank_account : ℕ → Exec (World env) Response
  get_bank_account k = gets (λ w. elim (env.find_first (of_user k) w.bank_accounts) [
    | none ↦ succeeded "You have not added a bank account yet" null
    | some a ↦ succeeded "Bank account retrieved successfully" (bank_account a)
  ])

  abbrev pub of_business : ℕ → BankAccount → Bool
  of_business k a = same_id a.business_id (some k)

  -- An update without a resolved name keeps the name.
  abbrev store_for_business :
      AddBankAccount → User → ℕ → Option BankAccount → Option String → Exec (World env) Response
  store_for_business dto user k none found = do
    a ←
        create_bank_account (of_business k) dto
          (new_account dto (name_or found (printed_name user)) (some k) none)
    pure (added a)
  store_for_business dto user k (some old) found = do
    a ←
        update_bank_account (of_business k) dto
          (elim found [ none ↦ old.account_name | some name ↦ name ])
    pure (added a)

  abbrev store_found :
      AddBankAccount → User → ℕ → Option BankAccount → ResolvedAccount → Exec (World env) Response
  store_found dto user k old answer =
      if unresolved answer.message
      then pure (refused "Invalid Bank Account. please check the account number and try again")
      else store_for_business dto user k old answer.account_name

  abbrev add_for :
      AddBankAccount → User → Option Business → Option BankAccount → Exec (World env) Response
  add_for dto user none old = pure (refused "This user does not have a business")
  add_for dto user (some business) old =
      if is_looked_up dto
      then (do answer ← request dto; store_found dto user business.id old answer)
      else store_for_business dto user business.id old none

  abbrev business_accounts : Option ℕ → Exec (World env) (Option Business)
  business_accounts none = throw validation_error
  business_accounts (some k) = gets (λ w. env.find k w.businesses)

  abbrev account_of : Option Business → World env → Option BankAccount
  account_of none w = none
  account_of (some b) w = env.find_first (of_business b.id) w.bank_accounts

  -- The name of the account is not compared with any.
  pub add_business_account : AddBankAccount → User → Exec (World env) Response
  add_business_account dto user =
      try_catch
        (do
          business ← business_accounts user.business_id
          old ← gets (account_of business)
          add_for dto user business old)
        (λ e. pure (refused "There was a problem adding the account"))
