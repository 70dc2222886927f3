-- ===== src/Card/Unique.antt =====
-- The attachment of a card changes no user, src/card/card.service.ts.
use nfc_payment_api.Prelude.{ℕ, ◌≡◌, refl, arith, Option, none, some, String}
use nfc_payment_api.External.{Env}
use nfc_payment_api.Exec.{◌>>=◌}
use nfc_payment_api.Response.{UserWithWallet}
use nfc_payment_api.World.{World}
use nfc_payment_api.Unique.{Keeps, same-Keeps}
use nfc_payment_api.Card.{
  AddNfcCard, create_history, pin_matches, attach_row, attach, send_card_email, add_nfc_card,
}

module _ (env : Env) where
  pin_matches-users :
      (hash pin : Option String) (w : World env) → (pin_matches env hash pin w).1 ≡ w
  unfolding pin_matches ◌>>=◌
  pin_matches-users hash none w = refl
  pin_matches-users none (some pin) w = refl
  pin_matches-users (some h) (some pin) w = refl

  add_nfc_card-users :
      (action_by : ℕ) (user : UserWithWallet) (dto : AddNfcCard) (w : World env)
      → (add_nfc_card env action_by user dto w).1.users ≡ w.users
  unfolding add_nfc_card attach attach_row create_history send_card_email pin_matches ◌>>=◌
  add_nfc_card-users action_by user dto w = ground arith

  pub add_nfc_card-Keeps :
      (action_by : ℕ) (user : UserWithWallet) (dto : AddNfcCard)
      → Keeps env (add_nfc_card env action_by user dto)
  add_nfc_card-Keeps action_by user dto =
      same-Keeps env (add_nfc_card env action_by user dto) (add_nfc_card-users action_by user dto)
