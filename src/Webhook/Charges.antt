-- ===== src/Webhook/Charges.antt =====
-- Deliveries of a charge, `BANK_TRANSFER_TRANSACTION` in src/webhooks/webhooks.service.ts, and the
-- listener of the event that they emit, src/webhooks/events/bank-transfer.event.ts.
use nfc_payment_api.Prelude.{
  ℕ, String, ◌≡◌, refl, true, false, Option, none, some, List, [], ◌∷◌, ◌++◌, ◌&&◌, arith, str_eq,
  is_some, Option-cases, Bool-cases, inl, inr, ap,
}
use nfc_payment_api.Prelude.Int.{ℤ}
use nfc_payment_api.Schema.{Wallet, Transaction, PaymentProcessor, flutterwave}
use nfc_payment_api.External.{Env, IsLawful}
use nfc_payment_api.Exec.{◌>>=◌}
use nfc_payment_api.Response.{UserWithWallet}
use nfc_payment_api.WebhookPayload.{FlutterwaveData}
use nfc_payment_api.World.{
  World, Event, charge_completed, charge_failed, wallet_funded, find_reference, create_transaction,
}
use nfc_payment_api.World.Balances.{add_balance}
use nfc_payment_api.World.References.{IsSole, IsSole-find_reference}
use nfc_payment_api.Webhook.{
  mark_charged, verify_transaction, user_of, handle_charge, handle_flutterwave, flutterwave_webhook,
  complete_row, complete_new, complete_charge, handle_charge_completed, listen,
}

append_nil : {A : Type 0} (l : List A) → l ≡ l ++ []
append_nil [] = refl
append_nil (x ∷ l) = ap (λ r. x ∷ r) (append_nil l)

module _ (env : Env) where
  -- The listeners of a list of events, in order.
  abbrev pub run_each : List Event → World env → World env
  run_each [] w = w
  run_each (e ∷ es) w = run_each es (listen env e w).1

  -- The delivery of a charge.
  abbrev pub charged : String → FlutterwaveData → World env → World env
  charged event d w = (flutterwave_webhook env event "BANK_TRANSFER_TRANSACTION" (some d) w).1

  -- A new row is not made under a reference that the ledger has: the listener writes nothing.
  known_reference :
      (status : String) (amount : ℤ) (ref : String) (id : ℕ) (user : Option UserWithWallet)
      (processor : PaymentProcessor) (w : World env)
      → is_some (find_reference env w ref) ≡ true
      → (listen env (charge_completed status amount (some ref) id user processor none) w).1 ≡ w
  unfolding listen handle_charge_completed complete_charge complete_new create_transaction ◌>>=◌
  known_reference status amount ref id user processor w known = ground arith

  charge_failed_listener :
      (status : String) (amount : ℤ) (ref : Option String) (id : ℕ) (user : Option UserWithWallet)
      (processor : PaymentProcessor) (trx : Option ℕ) (w : World env)
      → (listen env (charge_failed status amount ref id user processor trx) w).1 ≡ w
  unfolding listen
  charge_failed_listener status amount ref id user processor trx w = refl

  -- A charge that the ledger has as processed counts no more: whatever a delivery of it reports, its
  -- events' listeners change nothing in any state whose ledger has the reference, and the delivery
  -- changes no balance and no row itself.
  pub replayed_charge :
      (event : String) (d : FlutterwaveData) (w w₁ : World env) (ref : String) (t : Transaction)
      → d.trx_ref ≡ some ref
      → find_reference env w ref ≡ some t
      → str_eq d.status t.processor_status ≡ true
      → is_some (find_reference env w₁ ref) ≡ true
      → ((charged event d w).wallets ≡ w.wallets)
        × ((charged event d w).transactions ≡ w.transactions)
        × ((es : List Event) × ((charged event d w).events ≡ w.events ++ es)
            × (run_each es w₁ ≡ w₁))
  unfolding flutterwave_webhook handle_flutterwave handle_charge ◌>>=◌
  replayed_charge event d w w₁ ref t named found processed known = (
    ground arith,
    ground arith,
    elim (Option-cases d.customer_email) [
      | inl absent ↦ ([], ground (arith, append_nil w.events), refl)
      | inr (email, given) ↦ elim (Bool-cases (verify_transaction env d.id d.amount)) [
        | inr unverified ↦ ([], ground (arith, append_nil w.events), refl)
        | inl verified ↦
            elim (Bool-cases (str_eq event "charge.completed" && str_eq d.status "successful")) [
              | inl completed ↦ (
                charge_completed d.status d.amount (some ref) d.id (user_of env w email) flutterwave
                      none
                    ∷ [],
                ground arith,
                known_reference d.status d.amount ref d.id (user_of env w email) flutterwave w₁
                    known,
              )
              | inr other ↦ (
                charge_failed d.status d.amount (some ref) d.id (user_of env w email) flutterwave
                      (some t.id)
                    ∷ [],
                ground arith,
                charge_failed_listener d.status d.amount (some ref) d.id (user_of env w email)
                    flutterwave (some t.id) w₁,
              )
            ]
      ]
    ],
  )

  -- The listeners of every pending event, each of which may emit others.
  abbrev pub settled : World env → World env
  settled w = run_each w.events (record w { events = [] })

  -- The delivery of a verified charge whose row still waits for it.
  pub record IsExpected (d : FlutterwaveData) (w : World env) (ref : String) (t : Transaction)
      (u : UserWithWallet) (wallet b : Wallet) : Type 0 where
    pub email : String
    pub verified : verify_transaction env d.id d.amount ≡ true
    pub completed : str_eq d.status "successful" ≡ true
    pub named : d.trx_ref ≡ some ref
    pub sole : IsSole env w ref t
    pub new : str_eq d.status t.processor_status ≡ false
    pub given : d.customer_email ≡ some email
    pub known : user_of env w email ≡ some u
    pub holds : u.wallet ≡ some wallet
    pub listed : env.find wallet.id w.wallets ≡ some b

  abbrev pub expected_event : FlutterwaveData → String → Transaction → UserWithWallet → Event
  expected_event d ref t u =
      charge_completed d.status d.amount (some ref) d.id (some u) flutterwave (some t.id)

  module _ (law : IsLawful env) where
    pub charged-expected_event :
        (d : FlutterwaveData) (w : World env) (ref : String) (t : Transaction) (u : UserWithWallet)
        (wallet b : Wallet)
        → IsExpected d w ref t u wallet b
        → ((charged "charge.completed" d w).events ≡ w.events ++ expected_event d ref t u ∷ [])
          × ((charged "charge.completed" d w).wallets ≡ w.wallets)
          × ((charged "charge.completed" d w).transactions ≡ w.transactions)
          × ((charged "charge.completed" d w).users ≡ w.users)
    unfolding flutterwave_webhook handle_flutterwave handle_charge ◌>>=◌
    charged-expected_event d w ref t u wallet b x =
        let found = IsSole-find_reference env law w ref t x.sole in
        (ground (arith, found), ground (arith, found), ground (arith, found), ground (arith, found))

    -- The listener of such an event credits the wallet, and marks the row.
    pub listened :
        (d : FlutterwaveData) (w : World env) (ref : String) (t a : Transaction)
        (u : UserWithWallet) (wallet b : Wallet)
        → u.wallet ≡ some wallet
        → env.find wallet.id w.wallets ≡ some b
        → env.find t.id w.transactions ≡ some a
        → let w' = (listen env (expected_event d ref t u) w).1 in
          (w'.wallets ≡ env.write wallet.id (add_balance d.amount b) w.wallets)
          × (w'.transactions ≡ env.write t.id (mark_charged d.status a) w.transactions)
          × ((row : Option Transaction) × (w'.events
                ≡ w.events ++ wallet_funded d.amount u.user.id row wallet.balance ∷ []))
    unfolding listen handle_charge_completed complete_charge complete_row ◌>>=◌
    listened d w ref t a u wallet b holds listed row = (
      ground arith,
      ground arith,
      (env.find t.id (listen env (expected_event d ref t u) w).1.transactions, ground arith),
    )
