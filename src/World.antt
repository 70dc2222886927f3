-- ===== src/World.antt =====
-- The state that the services share: the tables of the database, the requests to the processor and
-- the events whose listeners have not run.
pub mod Balances
pub mod References
use nfc_payment_api.Prelude.{
  ℕ, String, Bool, true, Option, none, some, List, [], ◌∷◌, ◌++◌, ◌&&◌, str_eq, is_some,
  if◌then◌else◌,
}
use nfc_payment_api.Prelude.Int.{ℤ}
use nfc_payment_api.Schema.{
  User, Station, Business, BankAccount, Wallet, Card, CardHistory, UserHistory, Report, Chat,
  Transaction, PaymentProcessor,
}
use nfc_payment_api.External.{Env, Payout}
use nfc_payment_api.Response.{UserWithWallet}
use nfc_payment_api.WebhookPayload.{WebhookPayload}
use nfc_payment_api.Exec.{
  Exec, Result, ok, err, record_not_found, unique_violation, foreign_key_violation,
}

-- What a service hands to the event emitter; the listeners run later.
pub data Event : Type 0 where
  -- amount, sender, recipient, business, balances of both
  wallet_credited : ℤ → Option ℕ → Option ℕ → Option ℕ → ℤ → ℤ → Event
  -- charge.completed: status, amount, reference, the processor's identifier, user, processor, and
  -- the ledger row
  charge_completed :
      String → ℤ → Option String → ℕ → Option UserWithWallet → PaymentProcessor → Option ℕ → Event
  charge_failed :
      String → ℤ → Option String → ℕ → Option UserWithWallet → PaymentProcessor → Option ℕ → Event
  -- wallet.funded: amount, user, row, the balance before
  wallet_funded : ℤ → ℕ → Option Transaction → ℤ → Event
  -- wallet.charged, and charge.failed of a transfer: amount, user, row, the balance before
  wallet_charged : ℤ → Option ℕ → Transaction → ℤ → Event
  -- the mail of `verifyWithOtp`, which signing in does not wait for
  two_factor_requested : ℕ → Event
  -- referralCode.validated: the code, and who signed up with it
  referral_validated : String → ℕ → Event
  transfer_failed : ℤ → Option ℕ → Transaction → ℤ → Event

pub record World (env : Env) : Type 0 where
  pub users : env.Table User
  pub stations : env.Table Station
  pub businesses : env.Table Business
  pub bank_accounts : env.Table BankAccount
  pub wallets : env.Table Wallet
  pub cards : env.Table Card
  pub transactions : env.Table Transaction
  pub card_histories : List CardHistory
  pub user_histories : List UserHistory
  pub reports : List Report
  pub chats : List Chat
  pub webhooks : List WebhookPayload
  -- the transfers that were requested of the processor
  pub payouts : List Payout
  pub events : List Event

module _ (env : Env) where
  abbrev pub emit : Event → Exec (World env) (Unit {0})
  emit e w = (ok tt, record w { events = w.events ++ e ∷ [] })

  -- `update({ where: { id }, data })`: P2025 if there is no such row
  abbrev pub update_row :
      {Row : Type 0} → ℕ → (Row → Row) → env.Table Row → Option Row → Result (env.Table Row)
  update_row k f t none = err record_not_found
  update_row k f t (some r) = ok (env.write k (f r) t)

  abbrev put_wallets : Result (env.Table Wallet) → Exec (World env) (Unit {0})
  put_wallets (ok t) w = (ok tt, record w { wallets = t })
  put_wallets (err e) w = (err e, w)

  abbrev pub update_wallet : ℕ → (Wallet → Wallet) → Exec (World env) (Unit {0})
  update_wallet k f w = put_wallets (update_row k f w.wallets (env.find k w.wallets)) w

  abbrev pub put_users : Result (env.Table User) → Exec (World env) (Unit {0})
  put_users (ok t) w = (ok tt, record w { users = t })
  put_users (err e) w = (err e, w)

  abbrev pub update_user : ℕ → (User → User) → Exec (World env) (Unit {0})
  update_user k f w = put_users (update_row k f w.users (env.find k w.users)) w

  abbrev put_cards : Result (env.Table Card) → Exec (World env) (Unit {0})
  put_cards (ok t) w = (ok tt, record w { cards = t })
  put_cards (err e) w = (err e, w)

  abbrev pub update_card : ℕ → (Card → Card) → Exec (World env) (Unit {0})
  update_card k f w = put_cards (update_row k f w.cards (env.find k w.cards)) w

  abbrev put_stations : Result (env.Table Station) → Exec (World env) (Unit {0})
  put_stations (ok t) w = (ok tt, record w { stations = t })
  put_stations (err e) w = (err e, w)

  abbrev pub update_station : ℕ → (Station → Station) → Exec (World env) (Unit {0})
  update_station k f w = put_stations (update_row k f w.stations (env.find k w.stations)) w

  abbrev put_transactions : Result (env.Table Transaction) → Exec (World env) (Unit {0})
  put_transactions (ok t) w = (ok tt, record w { transactions = t })
  put_transactions (err e) w = (err e, w)

  abbrev pub update_transaction : ℕ → (Transaction → Transaction) → Exec (World env) (Unit {0})
  update_transaction k f w =
      put_transactions (update_row k f w.transactions (env.find k w.transactions)) w

  -- The row that a nullable foreign key names.
  abbrev pub find_of : {Row : Type 0} → env.Table Row → Option ℕ → Option Row
  find_of t none = none
  find_of t (some k) = env.find k t

  -- A foreign key is null or names a row.
  abbrev pub resolves : {Row : Type 0} → env.Table Row → Option ℕ → Bool
  resolves t none = true
  resolves t (some k) = is_some (env.find k t)

  -- The foreign keys of `Transaction`.
  abbrev pub references_resolve : World env → Transaction → Bool
  references_resolve w t =
      resolves w.wallets t.wallet_id
      && (resolves w.cards t.card_id
          && (resolves w.users t.recipient_id
              && (resolves w.users t.created_by_id
                  && (resolves w.businesses t.business_id && resolves w.stations t.station_id))))

  abbrev pub find_reference : World env → String → Option Transaction
  find_reference w ref = env.find_first (λ t. str_eq t.transaction_reference ref) w.transactions

  -- `transaction.create`: the reference is unique, and the foreign keys are enforced.
  unfoldable pub create_transaction : Transaction → Exec (World env) Transaction
  create_transaction t w =
      if is_some (find_reference w t.transaction_reference)
      then (err unique_violation, w)
      else if references_resolve w t
      then (let row : Transaction = record t { id = env.new_id w.transactions } in
          (ok row, record w { transactions = env.write row.id row w.transactions }))
      else (err foreign_key_violation, w)
