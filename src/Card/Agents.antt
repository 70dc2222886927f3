-- ===== src/Card/Agents.antt =====
-- What agents do with cards, and the one-time passwords for it, CardService, src/card/card.service.ts.
pub mod Laws
use nfc_payment_api.Prelude.{
  ℕ, ◌≤◌, String, ◌≡◌, refl, Bool, true, false, not, Option, none, some, List, nonempty, same_id,
  is_some, ◌==◌, ◌&&◌, ◌||◌, if◌then◌else◌, arith, Bool-cases, inl, inr,
}
use nfc_payment_api.Schema.{User, Card, CardAction}
use nfc_payment_api.External.{Env, IsLawful}
use nfc_payment_api.Exec.{
  Exec, ok, err, http, text, pure, throw_if, gets, defined, try_catch, ◌>>=◌, ◌>>◌,
}
use nfc_payment_api.Response.{
  Response, UserWithWallet, Payload, found_user, null, refused, succeeded,
}
use nfc_payment_api.UserLookup.{get_user_by_unique_identifier}
use nfc_payment_api.World.{World, update_card}
use nfc_payment_api.Otp.{
  OtpAnswer, OtpUse, add_card, disable_card, otp_starts, generate_otp, verify_otp,
}
use nfc_payment_api.Otp.Text.{IsClock}
use nfc_payment_api.Otp.RoundTrip.{IsPending, cleared, verifies, unknown_code}
use nfc_payment_api.Card.{
  AddNfcCard, attach_to, card_numbered, create_history, pin_matches, attach_row, attach,
  send_card_email, add_nfc_card,
}

-- `{ id, wallets }` of the user: the other fields that `addNFCCard` reads are undefined.
abbrev pub bare : UserWithWallet → UserWithWallet
bare u = record u {
  user = record u.user { first_name = none; username = none; email = none; hash = none };
}

abbrev user_of : Payload → Option UserWithWallet
user_of (found_user u) = some u
user_of _ = none

abbrev pub deactivate : Card → Card
deactivate c = record c { active = false }

module _ (env : Env) where
  pub send_card_otp : ℕ → OtpUse → Exec (World env) Response
  send_card_otp k type =
      try_catch
        (do
          found ← gets (λ w. env.find k w.users)
          user ← defined found
          code ← generate_otp env user.id type user.email
          throw_if (not (env.mail_taken user.email)) (http 503 (text "Error sending mail"))
          pure (succeeded "OTP sent successfully" null))
        (λ e. pure (refused "Failed to send OTP"))

  -- The test is of the answer of `verifyOtp`, which is never null, and not of its `valid`.
  pub agent_attach_nfc_card :
      AddNfcCard → (identifier : String) → List ℕ → (agent : ℕ) → Exec (World env) Response
  agent_attach_nfc_card dto identifier otp agent =
      try_catch
        (do
          verified ← verify_otp env otp add_card none none
          r ← get_user_by_unique_identifier env identifier
          if r.success
              then (do u ← defined (user_of r.payload); add_nfc_card env agent (bare u) dto)
              else pure r)
        (λ e. pure (refused "Failed to attach card"))

  abbrev disable_for : OtpAnswer → Option Card → ℕ → Exec (World env) Response
  disable_for verified card agent =
      if verified.valid
      then (do
        c ← defined card
        user ← defined verified.user
        if same_id c.user_id (some user.id)
            then (do
              update_card env c.id deactivate
              create_history env
                  (record { created_by_id = agent; card_id = c.id; action = CardAction.disable })
              pure (succeeded "Card disabled successfully" null))
            else pure (refused "Invalid card number"))
      else pure (refused verified.msg)

  pub agent_disable_nfc_card : String → List ℕ → (agent : ℕ) → Exec (World env) Response
  agent_disable_nfc_card number otp agent =
      try_catch
        (do
          verified ← verify_otp env otp disable_card none none
          card ← gets (card_numbered env number)
          disable_for verified card agent)
        (λ e. pure (refused "Failed to disable card"))
