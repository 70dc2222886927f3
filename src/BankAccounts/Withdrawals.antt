-- ===== src/BankAccounts/Withdrawals.antt =====
-- The bank account of a user who withdraws: `addBankAccount` of src/user/user.service.ts, and
-- `userWithdraw` of src/wallet/wallet.service.ts, which reads the column `bankAccountId` of the user.
use nfc_payment_api.Prelude.{
  ℕ, ◌≡◌, refl, Bool, true, false, not, Option, none, some, String, arith, Option-cases, inl, inr,
  if◌then◌else◌, ◌∙◌,
}
use nfc_payment_api.Schema.{User}
use nfc_payment_api.External.{Env, ResolvedAccount}
use nfc_payment_api.Exec.{Exec, Error, Result, ok, err, caught, ◌>>=◌}
use nfc_payment_api.Response.{Response, UserWithWallet, refused}
use nfc_payment_api.World.{World}
use nfc_payment_api.Withdrawal.{WithdrawIntoBankAccount, user_withdraw}
use nfc_payment_api.Withdrawal.Laws.{withdraw_needs_bank_account_id}
use nfc_payment_api.Payment.Inactive.{is_success}
use nfc_payment_api.BankAccounts.{
  AddBankAccount, FullName, full_name, is_looked_up, same_name, unresolved, bank_for, request,
  store_own, store_resolved, add_named, create_bank_account, update_bank_account, add_bank_account,
}

module _ (env : Env) where
  if_users :
      (b : Bool) (m n : Exec (World env) Response) (w : World env)
      → (m w).1.users ≡ w.users
      → (n w).1.users ≡ w.users
      → ((if b then m else n) w).1.users ≡ w.users
  if_users true m n w first second = first
  if_users false m n w first second = second

  stored_users :
      (dto : AddBankAccount) (user : User) (has_account : Bool) (found : Option String)
      (w : World env)
      → (store_own env dto user has_account found w).1.users ≡ w.users
  unfolding create_bank_account update_bank_account ◌>>=◌
  stored_users dto user true found w = ground arith
  stored_users dto user false found w = ground arith

  resolved_users :
      (dto : AddBankAccount) (user : User) (has_account : Bool) (n : FullName)
      (answer : ResolvedAccount) (w : World env)
      → (store_resolved env dto user has_account n answer w).1.users ≡ w.users
  unfolding ◌>>=◌
  resolved_users dto user has_account n answer w = elim (Option-cases answer.account_name) [
    | inl nameless ↦ rw nameless refl
    | inr (account, given) ↦
        let own = stored_users dto user has_account (some account) w in
        rw given (
          if_users (not (same_name env account n)) _ _ w refl
            (if_users (unresolved answer.message) _ _ w refl own))
  ]

  looked_up_users :
      (dto : AddBankAccount) (user : User) (has_account : Bool) (n : FullName) (w : World env)
      → ((request env dto >>= λ answer. store_resolved env dto user has_account n answer) w).1.users
        ≡ w.users
  unfolding ◌>>=◌
  looked_up_users dto user has_account n w = elim (Option-cases (bank_for env dto.bank_slug)) [
    | inl unknown ↦ rw unknown refl
    | inr (bank, found) ↦ elim (Option-cases (env.resolve_account dto.number bank.code)) [
      | inl silent ↦ rw (found, silent) refl
      | inr (answer, resolved) ↦
          rw (found, resolved) (resolved_users dto user has_account n answer w)
    ]
  ]

  named_users :
      (dto : AddBankAccount) (user : User) (has_account : Bool) (o : Option FullName)
      (w : World env)
      → (add_named env dto user has_account o w).1.users ≡ w.users
  unfolding ◌>>=◌
  named_users dto user has_account none w = refl
  named_users dto user has_account (some n) w =
      if_users (is_looked_up dto) _ _ w (looked_up_users dto user has_account n w)
        (stored_users dto user has_account none w)

  caught_users :
      {A : Type 0} (r : Result A × World env) (h : Error → Result A)
      → (caught (λ e v. (h e, v)) r.0 r.1).1.users ≡ r.1.users
  caught_users (ok a, w) h = refl
  caught_users (err e, w) h = refl

  pub added_users :
      (dto : AddBankAccount) (user : User) (has_account : Bool) (w : World env)
      → (add_bank_account env dto user has_account w).1.users ≡ w.users
  unfolding add_bank_account
  added_users dto user has_account w =
      caught_users (add_named env dto user has_account (full_name user) w)
        (λ e. ok (refused "There was a problem adding the account"))
      ∙ named_users dto user has_account (full_name user) w

  -- A user whose row names no bank account withdraws nothing after adding one, whatever was answered to
  -- the addition: with the user as the database has it then, no withdrawal succeeds, and none asks
  -- anything of the processor or changes anything.
  pub added_account_withdraws_nothing :
      (account : AddBankAccount) (u : User) (has_account : Bool) (w : World env) (k : ℕ)
      (user : UserWithWallet) (dto : WithdrawIntoBankAccount)
      → env.find k w.users ≡ some u
      → u.bank_account_id ≡ none
      → let added = (add_bank_account env account u has_account w).1 in
        env.find k added.users ≡ some user.user
        → (is_success (user_withdraw env user dto added).0 ≡ false)
          × ((user_withdraw env user dto added).1 ≡ added)
  added_account_withdraws_nothing account u has_account w k user dto listed unnamed read =
      let kept = added_users account u has_account w in
      let same : user.user.bank_account_id ≡ none = ground (arith, kept) in
      withdraw_needs_bank_account_id env user dto (add_bank_account env account u has_account w).1
        same
