-- ===== src/Registration/Referral.antt =====
-- The bonus of a referral: the listener of src/auth/events/referral-code-validated.event.ts.
pub mod Laws
use nfc_payment_api.Prelude.{
  ℕ, ◌+◌, String, Bool, Option, none, some, same_id, same_text, if◌then◌else◌,
}
use nfc_payment_api.Prelude.Int.{ℤ, pos}
use nfc_payment_api.Schema.{User, Transaction, TransactionStatus, TransactionType, PaymentProcessor}
use nfc_payment_api.External.{Env}
use nfc_payment_api.Exec.{Exec, pure, gets, defined, try_catch, ◌>>=◌, ◌>>◌}
use nfc_payment_api.Reference.{generate}
use nfc_payment_api.World.{World, update_wallet, create_transaction}
use nfc_payment_api.World.Balances.{add_balance}

abbrev pub bonus_row : String → ℤ → ℕ → Transaction
bonus_row reference amount referrer = record {
  id = 0;
  transaction_reference = reference;
  status = TransactionStatus.successful;
  wallet_id = none;
  card_id = none;
  type = TransactionType.referral_bonus;
  amount = amount;
  recipient_id = some referrer;
  created_by_id = none;
  narration = none;
  processor_status = "failed";
  processor_trx_id = none;
  processor = PaymentProcessor.flutterwave;
  fee = pos 0;
  business_id = none;
  station_id = none;
}

abbrev id_of : Option User → Option ℕ
id_of none = none
id_of (some u) = some u.id

module _ (env : Env) where
  abbrev pay_bonus : Option User → Exec (World env) (Unit {0})
  pay_bonus found = do
    referrer ← defined found
    owned ← gets (λ w. env.find_first (λ x. same_id x.user_id (some referrer.id)) w.wallets)
    wallet ← defined owned
    credits ← defined env.credits_per_referral
    update_wallet env wallet.id (add_balance credits)
    row ←
        create_transaction env
          (bonus_row (generate env TransactionType.referral_bonus) credits referrer.id)
    pure tt

  -- Of a code that is no username, the wallets are read all the same. Errors are logged.
  pub handle_referral : String → ℕ → Exec (World env) (Unit {0})
  handle_referral code user =
      try_catch
        (do
          found ← gets (λ w. env.find_first (λ u. same_text u.username (some code)) w.users)
          if same_id (id_of found) (some user) then pure tt else pay_bonus found)
        (λ e. pure tt)
