-- ===== src/Registration/Referral/Laws.antt =====
-- What the bonus of a referral changes, src/auth/events/referral-code-validated.event.ts.
use nfc_payment_api.Prelude.{
  ℕ, String, ◌≡◌, true, false, some, same_id, same_text, is_some, ◌==◌, arith, if◌then◌else◌,
}
use nfc_payment_api.Prelude.Int.{ℤ}
use nfc_payment_api.Schema.{User, Wallet, Transaction, TransactionType}
use nfc_payment_api.External.{Env, IsLawful}
use nfc_payment_api.Exec.{ok, ◌>>=◌}
use nfc_payment_api.Reference.{generate}
use nfc_payment_api.World.{World, find_reference, create_transaction}
use nfc_payment_api.World.Balances.{add_balance}
use nfc_payment_api.Registration.Referral.{bonus_row, handle_referral}

module _ (env : Env) (law : IsLawful env) (code : String) (user : ℕ) (w : World env)
    (referrer : User) (wallet : Wallet) (credits : ℤ)
    (found : env.find_first (λ u. same_text u.username (some code)) w.users ≡ some referrer)
    (member : env.find referrer.id w.users ≡ some referrer)
    (owned : env.find_first (λ x. same_id x.user_id (some referrer.id)) w.wallets ≡ some wallet)
    (listed : env.find wallet.id w.wallets ≡ some wallet)
    (configured : env.credits_per_referral ≡ some credits) where
  abbrev pub bonus : Transaction
  bonus = record (bonus_row (generate env TransactionType.referral_bonus) credits referrer.id) {
    id = env.new_id w.transactions;
  }

  -- A user whose username another gives as the referral code is credited with the configured bonus, at
  -- each such sign-up. The bonus is recorded only if its reference is new: references are made of the
  -- milliseconds, and the credit stands without a record otherwise.
  pub referral_credits :
      (referrer.id == user) ≡ false
      → let r = handle_referral env code user w in
        (r.0 ≡ ok tt)
        × (env.find wallet.id r.1.wallets ≡ some (add_balance credits wallet))
        × (r.1.transactions ≡ (
            if is_some (find_reference env w bonus.transaction_reference)
            then w.transactions
            else env.write bonus.id bonus w.transactions))
  unfolding handle_referral create_transaction ◌>>=◌
  referral_credits other =
      let credited = law.find-write wallet.id (add_balance credits wallet) w.wallets wallet.id in
      (ground (arith), ground (arith), ground (arith))

  -- A user who gives the own username is credited with nothing.
  pub own_referral : (referrer.id == user) ≡ true → handle_referral env code user w ≡ (ok tt, w)
  unfolding handle_referral ◌>>=◌
  own_referral same = ground arith
