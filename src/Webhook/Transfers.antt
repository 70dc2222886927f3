-- ===== src/Webhook/Transfers.antt =====
-- Deliveries of the outcome of a transfer to a bank, `Transfer` in src/webhooks/webhooks.service.ts.
use mathlib.Core.Option
use nfc_payment_api.Prelude.{
  ℕ, String, ◌≡◌, refl, true, false, some, ◌==◌, arith, str_eq, if◌then◌else◌,
}
use nfc_payment_api.Prelude.Int.{◌+ℤ◌, ◌-ℤ◌}
use nfc_payment_api.Schema.{Wallet, Transaction}
use nfc_payment_api.External.{Env, IsLawful}
use nfc_payment_api.Exec.{◌>>=◌}
use nfc_payment_api.WebhookPayload.{FlutterwaveData}
use nfc_payment_api.World.{World}
use nfc_payment_api.World.Balances.{balance_at, add_balance, take_balance}
use nfc_payment_api.World.References.{IsSole, IsSole-find_reference, IsSole-write}
use nfc_payment_api.Webhook.{
  mark_failed, mark_paid_out, handle_transfer, handle_flutterwave, flutterwave_webhook,
}

module _ (env : Env) where
  -- The delivery of a transfer's outcome, as the processor repeats it until it is answered.
  abbrev pub notified : FlutterwaveData → World env → World env
  notified d w = (flutterwave_webhook env "transfer.completed" "Transfer" (some d) w).1

  -- A row that waits for the outcome of the delivery, and its wallet.
  pub record IsAwaited (d : FlutterwaveData) (w : World env) (ref : String) (t : Transaction)
      (k : ℕ) (b : Wallet) : Type 0 where
    pub reported : d.reference ≡ some ref
    pub sole : IsSole env w ref t
    pub paid_from : t.wallet_id ≡ some k
    pub wallet : env.find k w.wallets ≡ some b

module _ (env : Env) (law : IsLawful env) where
  module _ (d : FlutterwaveData) (w : World env) (ref : String) (t : Transaction) (k : ℕ)
      (b : Wallet) (a : IsAwaited env d w ref t k b) where
    failed_writes :
        str_eq d.status "SUCCESSFUL" ≡ false
        → str_eq d.status "FAILED" ≡ true
        → ((notified env d w).wallets ≡ env.write k (add_balance t.amount b) w.wallets)
          × ((notified env d w).transactions ≡ env.write t.id (mark_failed t) w.transactions)
    unfolding flutterwave_webhook handle_flutterwave handle_transfer ◌>>=◌
    failed_writes other status =
        let found = IsSole-find_reference env law w ref t a.sole in
        (ground (arith, found, a.sole.listed), ground (arith, found, a.sole.listed))

    success_writes :
        str_eq d.status "SUCCESSFUL" ≡ true
        → ((notified env d w).wallets ≡ env.write k (take_balance d.fee b) w.wallets)
          × ((notified env d w).transactions
              ≡ env.write t.id (mark_paid_out d.fee t) w.transactions)
    unfolding flutterwave_webhook handle_flutterwave handle_transfer ◌>>=◌
    success_writes status =
        let found = IsSole-find_reference env law w ref t a.sole in
        (ground (arith, found, a.sole.listed), ground (arith, found, a.sole.listed))

    pub failed_balance :
        str_eq d.status "SUCCESSFUL" ≡ false
        → str_eq d.status "FAILED" ≡ true
        → (j : ℕ)
        → balance_at env (notified env d w) j ≡ (
            if k == j
            then Option.map (λ x. x +ℤ t.amount) (balance_at env w j)
            else balance_at env w j)
    failed_balance other status j = ground (
      arith,
      failed_writes other status,
      a.wallet,
      law.find-write k (add_balance t.amount b) w.wallets j,
    )

    success_balance :
        str_eq d.status "SUCCESSFUL" ≡ true
        → (j : ℕ)
        → balance_at env (notified env d w) j ≡ (
            if k == j
            then Option.map (λ x. x -ℤ d.fee) (balance_at env w j)
            else balance_at env w j)
    success_balance status j = ground (
      arith,
      success_writes status,
      a.wallet,
      law.find-write k (take_balance d.fee b) w.wallets j,
    )

    failed-IsAwaited :
        str_eq d.status "SUCCESSFUL" ≡ false
        → str_eq d.status "FAILED" ≡ true
        → IsAwaited env d (notified env d w) ref (mark_failed t) k (add_balance t.amount b)
    failed-IsAwaited other status =
        let (wallets, rows) = failed_writes other status in
        record {
          reported = a.reported;
          sole =
              IsSole-write env law w (notified env d w) ref t (mark_failed t) a.sole refl refl rows;
          paid_from = a.paid_from;
          wallet = ground (arith, wallets, law.find-write k (add_balance t.amount b) w.wallets k);
        }

    success-IsAwaited :
        str_eq d.status "SUCCESSFUL" ≡ true
        → IsAwaited env d (notified env d w) ref (mark_paid_out d.fee t) k (take_balance d.fee b)
    success-IsAwaited status =
        let (wallets, rows) = success_writes status in
        record {
          reported = a.reported;
          sole =
              IsSole-write env law w (notified env d w) ref t (mark_paid_out d.fee t) a.sole refl
                refl rows;
          paid_from = a.paid_from;
          wallet = ground (arith, wallets, law.find-write k (take_balance d.fee b) w.wallets k);
        }

    -- The report of a failed transfer gives the row's amount back to its wallet, changes no other
    -- balance and marks the row as failed, whatever the row's status was.
    pub failed_transfer_refunds :
        str_eq d.status "SUCCESSFUL" ≡ false
        → str_eq d.status "FAILED" ≡ true
        → (j : ℕ)
        → (balance_at env (notified env d w) j ≡ (
            if k == j
            then Option.map (λ x. x +ℤ t.amount) (balance_at env w j)
            else balance_at env w j))
          × (env.find t.id (notified env d w).transactions ≡ some (mark_failed t))
    failed_transfer_refunds other status j =
        (failed_balance other status j, (failed-IsAwaited other status).sole.listed)

    -- The report of a successful transfer takes its fee from the wallet, changes no other balance,
    -- and marks the row as successful with that fee, whatever the row's status was.
    pub successful_transfer_charges_fee :
        str_eq d.status "SUCCESSFUL" ≡ true
        → (j : ℕ)
        → (balance_at env (notified env d w) j ≡ (
            if k == j
            then Option.map (λ x. x -ℤ d.fee) (balance_at env w j)
            else balance_at env w j))
          × (env.find t.id (notified env d w).transactions ≡ some (mark_paid_out d.fee t))
    successful_transfer_charges_fee status j =
        (success_balance status j, (success-IsAwaited status).sole.listed)

  module _ (d : FlutterwaveData) (w : World env) (ref : String) (t : Transaction) (k : ℕ)
      (b : Wallet) (a : IsAwaited env d w ref t k b) where
    -- A repeated report is not recognised: two deliveries of one failed transfer give the amount
    -- back twice.
    pub repeated_refund :
        str_eq d.status "SUCCESSFUL" ≡ false
        → str_eq d.status "FAILED" ≡ true
        → balance_at env (notified env d (notified env d w)) k
          ≡ some (b.balance +ℤ t.amount +ℤ t.amount)
    repeated_refund other status =
        let again = failed-IsAwaited d w ref t k b a other status in
        ground (
          arith,
          failed_balance d (notified env d w) ref (mark_failed t) k (add_balance t.amount b) again
              other status k,
          again.wallet,
        )

    -- Two deliveries of one successful transfer take the fee twice.
    pub repeated_fee :
        str_eq d.status "SUCCESSFUL" ≡ true
        → balance_at env (notified env d (notified env d w)) k ≡ some (b.balance -ℤ d.fee -ℤ d.fee)
    repeated_fee status =
        let again = success-IsAwaited d w ref t k b a status in
        ground (
          arith,
          success_balance d (notified env d w) ref (mark_paid_out d.fee t) k (take_balance d.fee b)
              again status k,
          again.wallet,
        )
