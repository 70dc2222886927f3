-- ===== src/Payment.antt =====
-- PaymentService, src/payment/payment.service.ts. A request runs to its end with no other
-- request in between; what the guards read of the caller is an argument.
pub mod Guards
pub mod Moves
pub mod Collect
pub mod Effects
pub mod Entries
pub mod Merchants
pub mod Stations
pub mod Inactive
mod Tests
use nfc_payment_api.Prelude.{
  ℕ, String, ◌+◌, ◌/◌, not, Option, none, some, ◌==◌, same_id, is_some, if◌then◌else◌,
}
use nfc_payment_api.Prelude.Int.{ℤ, pos, ◌+ℤ◌, ◌-ℤ◌, ltb_ℤ, naira, is_whole}
use nfc_payment_api.Schema.{
  User, Station, Wallet, Card, Transaction, TransactionType, successful, flutterwave,
}
use nfc_payment_api.External.{Env}
use nfc_payment_api.Exec.{
  Exec, Result, ok, err, http, validation_error, text, daily_limit_left, pure, throw, gets, defined,
  throw_if, try_catch, all_or_nothing, rethrow_http, ◌>>=◌, ◌>>◌,
}
use nfc_payment_api.Response.{Response, transaction, refused, succeeded}
use nfc_payment_api.World.{
  World, wallet_credited, emit, update_wallet, update_card, update_station, find_of,
  create_transaction,
}
use nfc_payment_api.World.Balances.{add_balance}
use nfc_payment_api.Reference.{generate}

-- `Station & User`: a station has a `dailyBalance`, a user has none.
pub data Entity : Type 0 where
  station : Station → Entity
  user : User → Entity

abbrev pub entity_id : Entity → ℕ
entity_id (station s) = s.id
entity_id (user u) = u.id

abbrev pub entity_business_id : Entity → Option ℕ
entity_business_id (station s) = some s.business_id
entity_business_id (user u) = u.business_id

-- CreatePaymentDto
pub record CreatePayment : Type 0 where
  pub amount : ℤ
  pub card_id : ℕ
  pub private_key : String
  pub password : Option String

-- The day of a time in Africa/Lagos, an hour ahead of UTC; `new Date(null)` is the time 0.
abbrev pub local_day : Option ℕ → ℕ
local_day none = 3600000 / 86400000
local_day (some ms) = (ms + 3600000) / 86400000

-- A null balance stays null.
abbrev pub minus : Option ℤ → ℤ → Option ℤ
minus none a = none
minus (some b) a = some (b -ℤ a)

abbrev pub spend : ℤ → Card → Card
spend a c = record c { balance = minus c.balance a }

abbrev pub add_daily : ℤ → Station → Station
add_daily a s = record s { daily_balance = s.daily_balance +ℤ a }

abbrev usable_card : Option Card → Result Card
usable_card none = err (http 404 (text "Card not found"))
usable_card (some c) =
    if not (is_some c.user_id)
    then err (http 404 (text "Card not found"))
    else if not c.active
    then err (http 404 (text "Card is inactive"))
    else ok c

module _ (env : Env) where
  -- The wallet that is credited, and the amount, which a station may fix.
  pub collector : Entity → ℤ → Exec (World env) (Option Wallet × ℤ)
  collector (station s) amount = do
    row ← gets (λ w. env.find s.id w.stations)
    current ← defined row
    business ← gets (λ w. env.find current.business_id w.businesses)
    owner ← defined business
    wallet ← gets (λ w. env.find_first (λ x. same_id x.business_id (some owner.id)) w.wallets)
    pure (wallet, if current.amount_is_fixed then current.amount else amount)
  collector (user u) amount = do
    wallet ← gets (λ w. env.find_first (λ x. same_id x.user_id (some u.id)) w.wallets)
    pure (wallet, amount)

  unfoldable pub find_card : ℕ → Exec (World env) Card
  find_card id w = (usable_card (env.find id w.cards), w)

  abbrev check_password : Card → Option String → Exec (World env) (Unit {0})
  check_password c given = do
    found ← gets (λ w. find_of env w.users c.user_id)
    owner ← defined found
    hash ← defined owner.hash
    password ← defined given
    throw_if (not (env.verify hash password)) (http 403 (text "Incorrect password"))

  -- The card's secret, and above 500 naira the owner's PIN; the amount tested is the requested one.
  pub authorise : CreatePayment → Card → Exec (World env) (Unit {0})
  authorise dto c = do
    throw_if (not (env.verify c.hash dto.private_key)) (http 403 (text "private key is invalid"))
    if ltb_ℤ (naira 500) dto.amount then check_password c dto.password else pure tt

  abbrev available_balance : Option ℤ → Option Wallet → Exec (World env) ℤ
  available_balance (some b) wallet = pure b
  available_balance none wallet = do w ← defined wallet; pure w.balance

  -- What the wallet has spent today: the count starts anew with the first payment of a day.
  abbrev pub spent_today : Wallet → ℤ
  spent_today w =
      if local_day w.latest_transaction_timestamp == local_day (some env.now)
      then w.total_transaction_amount_today
      else pos 0

  -- A column of type `Int` takes whole numbers only.
  abbrev pub spend_from_wallet : ℤ → ℤ → Wallet → Wallet
  spend_from_wallet spent amount w = record w {
    balance = w.balance -ℤ amount;
    latest_transaction_timestamp = some env.now;
    total_transaction_amount_today = spent +ℤ amount;
  }

  pub move_money : ℕ → Card → Option Wallet → Wallet → ℤ → Exec (World env) (Unit {0})
  move_money id c user_wallet wallet amount = elim c.balance [
    | some b ↦
        all_or_nothing
          (do update_card env c.id (spend amount); update_wallet env wallet.id (add_balance amount))
    | none ↦ do
      payer ← defined user_wallet
      let spent = spent_today payer
      throw_if (ltb_ℤ (naira 50000) (spent +ℤ amount))
          (http 403 (daily_limit_left (naira 50000 -ℤ spent)))
      all_or_nothing (do
        throw_if (not (is_whole (spent +ℤ amount))) validation_error
        update_wallet env payer.id (spend_from_wallet spent amount)
        update_wallet env wallet.id (add_balance amount)
        update_station env id (add_daily amount))
  ]

  abbrev pub payment_row : Entity → Card → Wallet → Wallet → ℤ → Transaction
  payment_row e c payer wallet amount = record {
    id = 0;
    transaction_reference = generate env TransactionType.payment;
    status = successful;
    wallet_id = some payer.id;
    card_id = some c.id;
    type = TransactionType.payment;
    amount = amount;
    recipient_id = wallet.user_id;
    created_by_id = c.user_id;
    narration = none;
    processor_status = "failed";
    processor_trx_id = none;
    processor = flutterwave;
    fee = pos 0;
    business_id = entity_business_id e;
    station_id = some (entity_id e);
  }

  pub record_payment : Entity → Card → Option Wallet → Wallet → ℤ → Exec (World env) Response
  record_payment e c user_wallet wallet amount = do
    payer ← defined user_wallet
    row ← create_transaction env (payment_row e c payer wallet amount)
    emit env (
        wallet_credited amount payer.user_id wallet.user_id (entity_business_id e) payer.balance
          wallet.balance)
    pure (succeeded "Payment Successful" (transaction row))

  -- What is read and checked before any write: the card, and the wallet behind it.
  pub approve : CreatePayment → ℤ → Exec (World env) (Card × Option Wallet)
  approve dto amount = do
    c ← find_card dto.card_id
    authorise dto c
    user_wallet ← gets (λ w. find_of env w.wallets c.wallet_id)
    available ← available_balance c.balance user_wallet
    throw_if (ltb_ℤ available amount) (http 404 (text "Insufficient balance"))
    pure (c, user_wallet)

  pub settle : Entity → Wallet → ℤ → Card × Option Wallet → Exec (World env) Response
  settle e wallet amount (c, user_wallet) = do
    move_money (entity_id e) c user_wallet wallet amount
    record_payment e c user_wallet wallet amount

  pub charge_card : Entity → CreatePayment → Option Wallet × ℤ → Exec (World env) Response
  charge_card e dto (none, amount) = pure (refused "Wallet not found")
  charge_card e dto (some wallet, amount) = do
    approved ← approve dto amount
    settle e wallet amount approved

  pub collect : Entity → CreatePayment → Exec (World env) Response
  collect e dto = do
    throw_if (ltb_ℤ (naira 15000) dto.amount)
        (http 403 (text "Sorry, you cannot send more than ₦15,000 at a time."))
    target ← collector e dto.amount
    charge_card e dto target

  pub collect_payment : Entity → CreatePayment → Exec (World env) Response
  unfolding collect
  collect_payment e dto = try_catch (collect e dto) (rethrow_http (text "Payment failed"))
