-- ===== src/BankAccounts/Laws.antt =====
-- Which bank accounts a user can add, src/user/user.service.ts.
use nfc_payment_api.Prelude.{
  String, ◌≡◌, refl, Bool, ◌&&◌, true, false, none, some, is_some, arith, Option-cases, inl, inr,
}
use nfc_payment_api.Schema.{User, Bank, BankAccount}
use nfc_payment_api.External.{Env, IsLawful, ResolvedAccount}
use nfc_payment_api.Exec.{ok, ◌>>=◌}
use nfc_payment_api.Response.{Response, bank_account, refused, succeeded}
use nfc_payment_api.World.{World}
use nfc_payment_api.BankAccounts.{
  AddBankAccount, FullName, is_looked_up, full_name, printed_name, bank_for, same_name,
  includes_text, new_account, of_user, create_bank_account, add_bank_account,
}

and_split : (a b : Bool) → (a && b) ≡ true → (a ≡ true) × (b ≡ true)
and_split true true both = (refl, refl)
and_split true false both = absurd (ground arith)
and_split false b both = absurd (ground arith)

module _ (env : Env) (law : IsLawful env) (dto : AddBankAccount) (user : User) (n : FullName)
    (w : World env) (named : full_name user ≡ some n) where
  abbrev pub unchecked : Bank → BankAccount
  unchecked bank = record (new_account env dto (printed_name user) none (some user.id)) {
    id = env.new_id w.bank_accounts;
    bank = bank;
  }

  -- A user without a bank account adds any number at Access Bank, or one of four numbers at any bank:
  -- nobody is asked whether the account exists or whose it is, and it is stored under the user's own
  -- name. The user has both names, and the bank is known.
  pub unchecked_account_is_added :
      (bank : Bank)
      → is_looked_up dto ≡ false
      → env.find_bank dto.bank_slug ≡ some bank
      → is_some (env.find_first (of_user env user.id) w.bank_accounts) ≡ false
      → let r = add_bank_account env dto user false w in
        (r.0
          ≡ ok (
              succeeded "The bank account has been added successfully"
                (bank_account (unchecked bank))))
        × (env.find (env.new_id w.bank_accounts) r.1.bank_accounts ≡ some (unchecked bank))
        × ((unchecked bank).number ≡ dto.number)
  unfolding add_bank_account create_bank_account ◌>>=◌
  unchecked_account_is_added bank skipped known first =
      let row =
        law.find-write (env.new_id w.bank_accounts) (unchecked bank) w.bank_accounts
          (env.new_id w.bank_accounts) in
      (ground (arith), ground (arith), refl)

  both_names :
      (account : String)
      → same_name env account n ≡ true
      → (includes_text (env.lower_case account) (env.lower_case n.first) ≡ true)
        × (includes_text (env.lower_case account) (env.lower_case n.last) ≡ true)
  both_names account same = and_split _ _ same

  -- An account that is added for a user who has both names, at another bank than Access Bank and with
  -- none of the four exempt numbers, was looked up by its number and the code of its bank, and the name
  -- that was found contains both names of the user, in whichever case. The bank was not in the cache.
  pub added_account_is_own :
      (has_account : Bool) (r : Response) (w' : World env)
      → is_looked_up dto ≡ true
      → add_bank_account env dto user has_account w ≡ (ok r, w')
      → r.success ≡ true
      → (bank : Bank) × (answer : ResolvedAccount) × (account : String) × (env.find_bank
            dto.bank_slug
          ≡ some bank)
        × (env.resolve_account dto.number bank.code ≡ some answer)
        × (answer.account_name ≡ some account)
        × (includes_text (env.lower_case account) (env.lower_case n.first) ≡ true)
        × (includes_text (env.lower_case account) (env.lower_case n.last) ≡ true)
        × (env.banks_cached ≡ false)
  unfolding add_bank_account ◌>>=◌
  added_account_is_own has_account r w' looked_up answered success =
      elim (Option-cases (bank_for env dto.bank_slug)) [
        | inl unknown ↦ absurd (ground arith)
        | inr (bank, found) ↦ elim (Option-cases (env.resolve_account dto.number bank.code)) [
          | inl silent ↦ absurd (ground arith)
          | inr (answer, resolved) ↦ elim (Option-cases answer.account_name) [
            | inl nameless ↦ absurd (ground arith)
            | inr (account, given) ↦
                let names = both_names account (ground arith) in
                (
                  bank,
                  answer,
                  account,
                  ground arith,
                  resolved,
                  given,
                  names.0,
                  names.1,
                  ground arith,
                )
          ]
        ]
      ]

  -- While the cache holds the banks, no account that has to be looked up is added: the answer is that
  -- there was a problem, and nothing changes.
  pub cached_banks_add_none :
      (has_account : Bool)
      → is_looked_up dto ≡ true
      → env.banks_cached ≡ true
      → add_bank_account env dto user has_account w
        ≡ (ok (refused "There was a problem adding the account"), w)
  unfolding add_bank_account ◌>>=◌
  cached_banks_add_none has_account looked_up cached = ground (arith)
