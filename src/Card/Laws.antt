-- ===== src/Card/Laws.antt =====
-- What the operations on a card do to it, and to the payments that it can make.
use nfc_payment_api.Prelude.{
  ℕ, String, ◌≡◌, ◌⊎◌, true, false, Option, none, some, is_some, inl, inr, arith,
}
use nfc_payment_api.Schema.{User, Card, CardHistory}
use nfc_payment_api.External.{Env, IsLawful}
use nfc_payment_api.Exec.{ok, err, http, text, pure, ◌>>=◌, ◌>>◌}
use nfc_payment_api.Exec.Laws.{bind-eq-ok, Result-cases}
use nfc_payment_api.Response.{Response, UserWithWallet, null, card_less_hash, refused, succeeded}
use nfc_payment_api.World.{World}
use nfc_payment_api.Payment.Inactive.{is_success, inactive_card_cannot_pay}
use nfc_payment_api.Payment.{Entity, CreatePayment, collect_payment, find_card}
use nfc_payment_api.Card.{
  AddNfcCard, UpdateNfcCard, attach_to, detach, change, card_numbered, greeted, create_history,
  send_card_email, pin_matches, attach_row, attach, add_nfc_card, detach_card, remove_nfc_card,
  change_card, update_own, update_nfc_card, delete_nfc_card, wallet_for,
}

module _ (env : Env) (law : IsLawful env) where
  wallet_for_keeps :
      (user : UserWithWallet) (given : Option ℕ) (w w' : World env) (k : ℕ)
      → wallet_for env user given w ≡ (ok k, w')
      → w ≡ w'
  unfolding ◌>>=◌
  wallet_for_keeps user none w w' k h = ground arith
  wallet_for_keeps user (some j) w w' k h = ground arith

  -- The history and the mail leave the cards.
  reported_cards :
      (h : CardHistory) (user : User) (c : Card) (w w' : World env) (r : Response)
      → (do
        create_history env h
        send_card_email env user
        pure (succeeded "Card added successfully" (card_less_hash c)))
          w
        ≡ (ok r, w')
      → w'.cards ≡ w.cards
  unfolding create_history send_card_email ◌>>=◌
  reported_cards h user c w w' r e = ground arith

  attach-attach_row :
      (action_by : ℕ) (user : UserWithWallet) (dto : AddNfcCard) (w w' : World env) (r : Response)
      → attach env action_by user dto w ≡ (ok r, w')
      → (k : ℕ) × (u : Card) × (w₁ : World env) × (attach_row env k user.user.id dto w ≡ (ok u, w₁))
        × (w'.cards ≡ w₁.cards)
  unfolding attach
  attach-attach_row action_by user dto w w' r h =
      let (k, w₀, chosen, h₁) = bind-eq-ok _ _ _ h in
      let (u, w₁, attached, h₂) = bind-eq-ok _ _ _ h₁ in
      (
        k,
        u,
        w₁,
        rw (wallet_for_keeps user dto.wallet_id w w₀ k chosen) attached,
        reported_cards _ user.user u w₁ w' r h₂,
      )

  attach_row_writes :
      (k user_id : ℕ) (dto : AddNfcCard) (w w₁ : World env) (c u : Card)
      → card_numbered env dto.nfc_card_number w ≡ some c
      → env.find c.id w.cards ≡ some c
      → attach_row env k user_id dto w ≡ (ok u, w₁)
      → (w₁.cards ≡ env.write c.id (attach_to k user_id dto.name c) w.cards)
        × (is_some (env.find k w.wallets) ≡ true)
  unfolding attach_row ◌>>=◌
  attach_row_writes k user_id dto w w₁ c u numbered listed h = (ground arith, ground arith)

  add_nfc_card-attach :
      (action_by : ℕ) (user : UserWithWallet) (dto : AddNfcCard) (w w' : World env) (r : Response)
      → add_nfc_card env action_by user dto w ≡ (ok r, w')
      → r.success ≡ true
      → attach env action_by user dto w ≡ (ok r, w')
  unfolding add_nfc_card pin_matches ◌>>=◌
  add_nfc_card-attach action_by user dto w w' r h s = ground arith

  -- A card that is attached with success can pay: `find_card` finds it, active, owned by the user
  -- it was attached to, on one of the wallets.
  pub attached_card_is_usable :
      (action_by : ℕ) (user : UserWithWallet) (dto : AddNfcCard) (w w' : World env) (r : Response)
      (c : Card)
      → card_numbered env dto.nfc_card_number w ≡ some c
      → env.find c.id w.cards ≡ some c
      → add_nfc_card env action_by user dto w ≡ (ok r, w')
      → r.success ≡ true
      → (k : ℕ) × ((find_card env c.id w').0 ≡ ok (attach_to k user.user.id dto.name c))
        × (is_some (env.find k w.wallets) ≡ true)
  unfolding find_card
  attached_card_is_usable action_by user dto w w' r c numbered listed h s =
      let (k, u, w₁, row, cards) =
        attach-attach_row action_by user dto w w' r
          (add_nfc_card-attach action_by user dto w w' r h s) in
      let (written, known) = attach_row_writes k user.user.id dto w w₁ c u numbered listed row in
      (
        k,
        ground (
          arith,
          cards,
          written,
          law.find-write c.id (attach_to k user.user.id dto.name c) w.cards c.id,
        ),
        known,
      )

  -- Any user who is known, has a name for the greeting and takes mail removes any card: whoever
  -- owned it, the card then has no owner and is refused at its next payment.
  pub anyone_removes_a_card :
      (card_id : ℕ) (user u : User) (w : World env) (c : Card) (name : String)
      → env.find card_id w.cards ≡ some c
      → env.find user.id w.users ≡ some u
      → greeted env user ≡ some name
      → env.mail_taken user.email ≡ true
      → ((remove_nfc_card env card_id user w).0 ≡ ok (succeeded "Card removed successfully" null))
        × ((find_card env card_id (remove_nfc_card env card_id user w).1).0
            ≡ err (http 404 (text "Card not found")))
  unfolding remove_nfc_card detach_card create_history send_card_email find_card ◌>>=◌
  anyone_removes_a_card card_id user u w c name listed known named mailed =
      let at_card = law.find-write card_id (detach c) w.cards card_id in
      (ground (arith, at_card), ground (arith, at_card))

  disabled_listed :
      (dto : UpdateNfcCard) (user : User) (number : String) (w w' : World env) (r : Response)
      (c : Card)
      → card_numbered env number w ≡ some c
      → env.find c.id w.cards ≡ some c
      → update_nfc_card env dto user number w ≡ (ok r, w')
      → r.success ≡ true
      → env.find c.id w'.cards ≡ some (change dto c)
  unfolding update_nfc_card update_own change_card pin_matches create_history ◌>>=◌
  disabled_listed dto user number w w' r c numbered listed h s =
      ground (arith, law.find-write c.id (change dto c) w.cards c.id)

  -- With a card that its owner disables with success, no collection at a station or by a user succeeds,
  -- whatever secret and PIN it carries, and it changes nothing.
  pub disabled_card_cannot_pay :
      (dto : UpdateNfcCard) (user : User) (number : String) (w w' : World env) (r : Response)
      (c : Card)
      → dto.active ≡ some false
      → card_numbered env number w ≡ some c
      → env.find c.id w.cards ≡ some c
      → update_nfc_card env dto user number w ≡ (ok r, w')
      → r.success ≡ true
      → (e : Entity) (payment : CreatePayment) → payment.card_id ≡ c.id
      → (is_success (collect_payment env e payment w').0 ≡ false)
        × ((collect_payment env e payment w').1 ≡ w')
  disabled_card_cannot_pay dto user number w w' r c off numbered listed h s e payment with_it =
      inactive_card_cannot_pay env e payment w' (change dto c)
        (rw with_it (disabled_listed dto user number w w' r c numbered listed h s)) (ground arith)

  -- A request to update a card that carries a PIN, right or wrong, changes nothing, and is answered
  -- with a status of 403 or with a failure.
  pub update_with_pin_fails :
      (dto : UpdateNfcCard) (user : User) (number : String) (w : World env) (pin : String)
      → dto.pin ≡ some pin
      → ((update_nfc_card env dto user number w).1 ≡ w)
        × (((update_nfc_card env dto user number w).0
              ≡ err (http 403 (text "There was a problem updating the card")))
            ⊎ ((r : Response) × ((update_nfc_card env dto user number w).0 ≡ ok r)
                × (r.success ≡ false)))
  unfolding update_nfc_card update_own change_card pin_matches ◌>>=◌
  update_with_pin_fails dto user number w pin given = (
    ground arith,
    elim (Result-cases (update_nfc_card env dto user number w).0) [
      | inl (r, h) ↦ inr (r, h, ground arith)
      | inr (e, h) ↦ inl (ground arith)
    ],
  )

  -- A card in the table that is deleted is gone, and the answer is a failure: the history of the
  -- deletion would refer to the card.
  pub deleted_card_is_reported_kept :
      (card_id user_id : ℕ) (w : World env) (c : Card)
      → env.find card_id w.cards ≡ some c
      → ((delete_nfc_card env card_id user_id w).0
          ≡ ok (refused "There was a problem updating the card"))
        × (env.find card_id (delete_nfc_card env card_id user_id w).1.cards ≡ none)
  unfolding delete_nfc_card create_history ◌>>=◌
  deleted_card_is_reported_kept card_id user_id w c listed =
      let gone = law.find-remove card_id w.cards card_id in
      (ground (arith, gone), ground (arith, gone))
