-- ===== src/Card/Agents/Laws.antt =====
-- What the one-time password of a card permits an agent, src/card/card.service.ts.
use nfc_payment_api.Prelude.{
  ℕ, ◌≤◌, String, ◌≡◌, true, false, none, some, List, [], ◌∷◌, ◌++◌, nonempty, same_id, is_some,
  if◌then◌else◌, arith,
}
use nfc_payment_api.Schema.{User, Card, CardAction}
use nfc_payment_api.External.{Env, IsLawful}
use nfc_payment_api.Exec.{ok, ◌>>=◌}
use nfc_payment_api.Response.{UserWithWallet, found_user, null, refused, succeeded}
use nfc_payment_api.UserLookup.{get_user_by_unique_identifier}
use nfc_payment_api.World.{World}
use nfc_payment_api.Otp.{add_card, disable_card, otp_starts, with_otp}
use nfc_payment_api.Otp.Text.{IsClock}
use nfc_payment_api.Otp.RoundTrip.{IsPending, verifies, unknown_code}
use nfc_payment_api.Card.{
  AddNfcCard, attach_to, card_numbered, create_history, pin_matches, attach_row, attach,
  send_card_email, add_nfc_card,
}
use nfc_payment_api.Card.Agents.{bare, deactivate, agent_attach_nfc_card, agent_disable_nfc_card}

module _ (env : Env) (law : IsLawful env) (w : World env) (c : Card) (number : String)
    (numbered : card_numbered env number w ≡ some c) (listed : env.find c.id w.cards ≡ some c)
    (agent : ℕ) (known : is_some (env.find agent w.users) ≡ true) where
  -- The card is attached before the greeting fails, for the lack of a name.
  pub bare_attached :
      (u : UserWithWallet) (dto : AddNfcCard) (k : ℕ)
      → dto.nfc_card_number ≡ number
      → nonempty dto.pin ≡ none
      → dto.wallet_id ≡ some k
      → is_some (env.find k w.wallets) ≡ true
      → is_some (env.find u.user.id w.users) ≡ true
      → add_nfc_card env agent (bare u) dto w ≡ (
        ok (refused "There was a problem adding the card"),
        record w {
          cards = env.write c.id (attach_to k u.user.id dto.name c) w.cards;
          card_histories =
              w.card_histories
              ++ record { created_by_id = agent; card_id = c.id; action = CardAction.attach } ∷ [];
        },
      )
  unfolding add_nfc_card attach attach_row pin_matches create_history send_card_email ◌>>=◌
  bare_attached u dto k same unasked chosen there member =
      ground (arith, law.find-write c.id (attach_to k u.user.id dto.name c) w.cards c.id)

  -- An agent attaches a card to a user with a one-time password that was never made, and the answer is
  -- a failure, though the card has been attached. The request names a wallet and has no PIN; the card,
  -- the wallet, the user and the agent are in the database.
  pub agent_attaches_with_any_code :
      (u : UserWithWallet) (dto : AddNfcCard) (k : ℕ) (identifier message : String) (otp : List ℕ)
      → ((j : ℕ) (r : User) → env.find j w.users ≡ some r → otp_starts otp r ≡ false)
      → get_user_by_unique_identifier env identifier w ≡ (ok (succeeded message (found_user u)), w)
      → dto.nfc_card_number ≡ number
      → nonempty dto.pin ≡ none
      → dto.wallet_id ≡ some k
      → is_some (env.find k w.wallets) ≡ true
      → is_some (env.find u.user.id w.users) ≡ true
      → ((agent_attach_nfc_card env dto identifier otp agent w).0
          ≡ ok (refused "There was a problem adding the card"))
        × (env.find c.id (agent_attach_nfc_card env dto identifier otp agent w).1.cards
            ≡ some (attach_to k u.user.id dto.name c))
  unfolding agent_attach_nfc_card ◌>>=◌
  agent_attaches_with_any_code u dto k identifier message otp unmade found same unasked chosen there
        member =
      let ignored = unknown_code env law add_card otp none w unmade in
      let attached = bare_attached u dto k same unasked chosen there member in
      let row = law.find-write c.id (attach_to k u.user.id dto.name c) w.cards c.id in
      (ground (arith), ground (arith))

  -- With the code of a user's pending password of that use, an agent disables a card if it is that
  -- user's; the card stays as it is otherwise, and the answer says that its number is invalid. The card
  -- and the agent are in the database, and a password lasts a minute at least.
  pub agent_disables_owners_card :
      (clock : IsClock env) (code otp : List ℕ) (u : User)
      → 1 ≤ env.otp_minutes
      → IsPending env disable_card code w u otp
      → ((agent_disable_nfc_card env number code agent w).0
          ≡ ok (
              if same_id c.user_id (some u.id)
              then succeeded "Card disabled successfully" null
              else refused "Invalid card number"))
        × (env.find c.id (agent_disable_nfc_card env number code agent w).1.cards
            ≡ some (if same_id c.user_id (some u.id) then deactivate c else c))
  unfolding agent_disable_nfc_card create_history ◌>>=◌
  agent_disables_owners_card clock code otp u long p =
      let checked = verifies env law clock disable_card code w u otp p long in
      let row = law.find-write c.id (deactivate c) w.cards c.id in
      let users = law.find-write u.id (with_otp none u) w.users agent in
      (ground (arith), ground (arith))
