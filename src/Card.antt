-- ===== src/Card.antt =====
-- The life of a card: CardService, src/card/card.service.ts, with SendCardEmailHelper,
-- src/card/helpers/send-email.helper.ts.
pub mod Agents
pub mod Unique
pub mod Laws
mod Tests
use mathlib.Core.List
use nfc_payment_api.Prelude.{
  ℕ, String, Bool, true, false, not, ◌&&◌, Option, none, some, List, [], ◌∷◌, ◌++◌, ◌==◌, str_eq,
  same_id, is_some, nonempty, if◌then◌else◌,
}
use nfc_payment_api.Schema.{User, Card, CardHistory, CardAction, Transaction}
use nfc_payment_api.External.{Env}
use nfc_payment_api.Exec.{
  Exec, Error, Result, ok, err, http, text, unique_violation, foreign_key_violation,
  record_not_found, validation_error, pure, throw, gets, defined, throw_if, try_catch, ◌>>=◌, ◌>>◌,
}
use nfc_payment_api.Response.{
  Response, UserWithWallet, Payload, null, whole_card, card_less_hash, refused, succeeded,
}
use nfc_payment_api.World.{World, update_card, resolves}

-- AddNFCCardDto
pub record AddNfcCard : Type 0 where
  pub nfc_card_number : String
  pub pin : Option String
  pub wallet_id : Option ℕ
  pub name : Option String

-- UpdateNFCCardDto
pub record UpdateNfcCard : Type 0 where
  pub nfc_card_number : Option String
  pub pin : Option String
  pub name : Option String
  pub active : Option Bool

-- A field that is undefined is not changed.
abbrev or_kept {ℓ} : {A : Type ℓ} → Option A → A → A
or_kept none a = a
or_kept (some b) a = b

abbrev or_kept_name : Option String → Option String → Option String
or_kept_name none a = a
or_kept_name (some b) a = some b

abbrev pub attach_to : ℕ → ℕ → Option String → Card → Card
attach_to wallet_id user_id name c = record c {
  wallet_id = some wallet_id;
  active = true;
  name = or_kept_name name c.name;
  user_id = some user_id;
}

abbrev pub detach : Card → Card
detach c = record c { user_id = none; name = none }

abbrev pub change : UpdateNfcCard → Card → Card
change dto c = record c {
  nfc_card_number = or_kept dto.nfc_card_number c.nfc_card_number;
  name = or_kept_name dto.name c.name;
  active = or_kept dto.active c.active;
}

-- `onDelete: Cascade` of the histories, and the key of the ledger rows that becomes null
abbrev pub keep_others : ℕ → List CardHistory → List CardHistory
keep_others k [] = []
keep_others k (h ∷ t) = if h.card_id == k then keep_others k t else h ∷ keep_others k t

abbrev pub clear_card : ℕ → Transaction → Transaction
clear_card k t = record t { card_id = if same_id t.card_id (some k) then none else t.card_id }

-- The handlers of the errors.
abbrev forbid_unless_403 : String → {S : Type 0} → Error → Exec S Response
forbid_unless_403 m (http status n) =
    if status == 403 then throw (http 403 n) else throw (http 403 (text m))
forbid_unless_403 m _ = throw (http 403 (text m))

abbrev forbid_update : {S : Type 0} → Error → Exec S Response
forbid_update unique_violation = throw (http 403 (text "This Nfc Card Number is already taken"))
forbid_update e = forbid_unless_403 "There was a problem updating the card" e

abbrev existing : {S : Type 0} → Option Card → Exec S Card
existing none = throw record_not_found
existing (some c) = pure c

module _ (env : Env) where
  abbrev pub card_numbered : String → World env → Option Card
  card_numbered number w = env.find_first (λ c. str_eq c.nfc_card_number number) w.cards

  pub create_history : CardHistory → Exec (World env) (Unit {0})
  create_history h w =
      if is_some (env.find h.created_by_id w.users) && is_some (env.find h.card_id w.cards)
      then (ok tt, record w { card_histories = w.card_histories ++ h ∷ [] })
      else (err foreign_key_violation, w)

  -- The first name, or if there is none the username, is read for the greeting.
  abbrev greeted : User → Option String
  greeted u = elim (nonempty u.first_name) [ none ↦ u.username | some n ↦ some n ]

  pub send_card_email : User → Exec (World env) (Unit {0})
  send_card_email u = do
    name ← defined (greeted u)
    throw_if (not (env.mail_taken u.email)) (http 503 (text "Error sending mail"))

  -- With no PIN given, none is asked for.
  pub pin_matches : Option String → Option String → Exec (World env) Bool
  pin_matches hash none = pure true
  pin_matches hash (some pin) = do h ← defined hash; pure (env.verify h pin)

  abbrev wallet_for : UserWithWallet → Option ℕ → Exec (World env) ℕ
  wallet_for user (some k) = pure k
  wallet_for user none = do wallet ← defined user.wallet; pure wallet.id

  pub attach_row : ℕ → ℕ → AddNfcCard → Exec (World env) Card
  attach_row wallet_id user_id dto = do
    found ← gets (card_numbered dto.nfc_card_number)
    c ← existing found
    known ← gets (λ w. is_some (env.find wallet_id w.wallets) && is_some (env.find user_id w.users))
    throw_if (not known) foreign_key_violation
    update_card env c.id (attach_to wallet_id user_id dto.name)
    pure (attach_to wallet_id user_id dto.name c)

  pub attach : ℕ → UserWithWallet → AddNfcCard → Exec (World env) Response
  attach action_by user dto = do
    wallet_id ← wallet_for user dto.wallet_id
    updated ← attach_row wallet_id user.user.id dto
    create_history
        (record { created_by_id = action_by; card_id = updated.id; action = CardAction.attach })
    send_card_email user.user
    pure (succeeded "Card added successfully" (card_less_hash updated))

  pub add_nfc_card : ℕ → UserWithWallet → AddNfcCard → Exec (World env) Response
  add_nfc_card action_by user dto =
      try_catch
        (do
          matches ← pin_matches user.user.hash (nonempty dto.pin)
          if matches then attach action_by user dto else pure (refused "Incorrect pin"))
        (λ e. pure (refused "There was a problem adding the card"))

  -- Whose card it is is not asked.
  pub detach_card : ℕ → User → Exec (World env) Response
  detach_card card_id user = do
    update_card env card_id detach
    create_history
        (record { created_by_id = user.id; card_id = card_id; action = CardAction.dettach })
    send_card_email user
    pure (succeeded "Card removed successfully" null)

  pub remove_nfc_card : ℕ → User → Exec (World env) Response
  remove_nfc_card card_id user =
      try_catch (detach_card card_id user)
        (forbid_unless_403 "There was a problem removing the card")

  abbrev taken : Option String → Card → World env → Bool
  taken none c w = false
  taken (some number) c w = elim (card_numbered number w) [
    | none ↦ false
    | some d ↦ not (d.id == c.id)
  ]

  abbrev record_activity : UpdateNfcCard → User → Card → Exec (World env) (Unit {0})
  record_activity dto user c = elim dto.active [
    | none ↦ pure tt
    | some true ↦
        create_history
          (record { created_by_id = user.id; card_id = c.id; action = CardAction.enable })
    | some false ↦
        create_history
          (record { created_by_id = user.id; card_id = c.id; action = CardAction.disable })
  ]

  -- The whole request is spread into the update; a PIN in it is a column that `Card` has not.
  pub change_card : UpdateNfcCard → User → Card → Exec (World env) Response
  change_card dto user c = do
    throw_if (is_some dto.pin) validation_error
    clash ← gets (taken dto.nfc_card_number c)
    throw_if clash unique_violation
    update_card env c.id (change dto)
    record_activity dto user c
    pure (succeeded "Card updated successfully" (whole_card (change dto c)))

  pub update_own : UpdateNfcCard → User → Option Card → Exec (World env) Response
  update_own dto user none = pure (refused "Card not found")
  update_own dto user (some c) =
      if same_id c.user_id (some user.id)
      then change_card dto user c
      else pure (refused "You are not allowed to update this card")

  pub update_nfc_card : UpdateNfcCard → User → String → Exec (World env) Response
  update_nfc_card dto user number =
      try_catch
        (do
          matches ← pin_matches user.hash (nonempty dto.pin)
          found ← gets (card_numbered number)
          if matches then update_own dto user found else pure (refused "Incorrect pin"))
        forbid_update

  abbrev delete_row : ℕ → Option Card → Exec (World env) (Unit {0})
  delete_row k none w = (err record_not_found, w)
  delete_row k (some c) w = (
    ok tt,
    record w {
      cards = env.remove k w.cards;
      card_histories = keep_others k w.card_histories;
      transactions = env.map_rows (clear_card k) w.transactions;
    },
  )

  pub delete_nfc_card : ℕ → ℕ → Exec (World env) Response
  delete_nfc_card card_id user_id =
      try_catch
        (do
          found ← gets (λ w. env.find card_id w.cards)
          delete_row card_id found
          create_history
              (record { created_by_id = user_id; card_id = card_id; action = CardAction.delete })
          pure (succeeded "Card deleted successfully" null))
        (λ e. pure (refused "There was a problem updating the card"))
