-- ===== src/Registration/Laws.antt =====
-- What signing up leaves in the database, src/auth/auth.service.ts.
use nfc_payment_api.Prelude.{
  ℕ, String, ◌≡◌, refl, Bool, true, false, not, ◌&&◌, Option, none, some, List, [], ◌∷◌, ◌++◌,
  nonempty, same_text, ◌==◌, arith, Bool-cases, inl, inr, if◌then◌else◌,
}
use nfc_payment_api.Schema.{User, Wallet, Card, CardAction, Role}
use nfc_payment_api.External.{Env, IsLawful, NumberAnswer}
use nfc_payment_api.External.Rows.{find_first_listed}
use nfc_payment_api.Exec.{ok, ◌>>=◌}
use nfc_payment_api.Response.{Response, signed_up, refused, succeeded}
use nfc_payment_api.Reset.{sms_taken}
use nfc_payment_api.World.{World, Event, referral_validated}
use nfc_payment_api.World.References.{str_eq_refl}
use nfc_payment_api.Otp.{email_verification, with_otp}
use nfc_payment_api.Otp.Stored.{IsCoded, generate_otp-IsCoded}
use nfc_payment_api.SignIn.{new_access_token}
use nfc_payment_api.Card.{attach_to, card_numbered}
use nfc_payment_api.Card.Agents.Laws.{bare_attached}
use nfc_payment_api.Registration.{
  SignUp, new_user, taken_column, username_for, insert_user, new_wallet, insert_wallet,
  create_wallet, add_first_card, sign_up, register_user,
}

abbrev pub welcome : (env : Env) → User → Response
welcome env u =
    succeeded "Sign up successful, check your email for verification email"
      (signed_up u.id (new_access_token env u.id (some u.phone_number)))

abbrev failed : Response
failed = refused "An error occurred while creating the user"

abbrev referral_events : Option String → ℕ → List Event → List Event
referral_events none k l = l
referral_events (some code) k l = l ++ referral_validated code k ∷ []

module _ (env : Env) (law : IsLawful env) (dto : SignUp) (name : String) (w : World env)
    (named : username_for env dto w ≡ name)
    (free : taken_column env (new_user env dto name) w ≡ none) where
  abbrev pub row : User
  row = record (new_user env dto name) { id = env.new_id w.users }

  abbrev with_user : World env
  with_user = record w { users = env.write row.id row w.users }

  abbrev pub wallet : Wallet
  wallet = new_wallet env (env.new_id w.wallets) (some row.id) none

  abbrev with_wallet : World env
  with_wallet = record with_user { wallets = env.write wallet.id wallet w.wallets }

  inserted : insert_user env (new_user env dto name) w ≡ (ok row, with_user)
  unfolding insert_user
  inserted = rw free refl

  row_listed : env.find row.id with_user.users ≡ some row
  row_listed = ground (arith, law.find-write row.id row w.users row.id)

  wallet_created : create_wallet env row.id with_user ≡ (ok (some wallet), with_wallet)
  unfolding create_wallet insert_wallet ◌>>=◌
  wallet_created = ground (arith, row_listed)

  coded : IsCoded env row.id row email_verification row.email with_wallet
  coded =
      generate_otp-IsCoded env law row.id row email_verification row.email with_wallet row_listed

  abbrev final : World env
  final = record with_wallet {
    users = coded.users;
    events = referral_events (nonempty dto.referral_code) row.id w.events;
  }

  sign_up-eq :
      nonempty dto.nfc_card_number ≡ none
      → (by_sms : Bool)
      → sign_up env dto by_sms w ≡ (
        ok (
            if by_sms && not (sms_taken env (some dto.phone_number))
            then failed
            else welcome env row),
        final,
      )
  unfolding sign_up add_first_card ◌>>=◌
  sign_up-eq cardless true = ground (arith, inserted, wallet_created, coded.generated)
  sign_up-eq cardless false = ground (arith, inserted, wallet_created, coded.generated)

  -- Who was in the database is as before.
  kept : (j : ℕ) (a : User) → env.find j w.users ≡ some a → env.find j final.users ≡ some a
  kept j a listed = elim (Bool-cases (row.id == j)) [
    | inl same ↦ absurd (ground (arith, law.find-new_id w.users))
    | inr apart ↦ ground (arith, coded.others j apart, law.find-write row.id row w.users j)
  ]

  kept_wallet :
      (j : ℕ) (a : Wallet) → env.find j w.wallets ≡ some a → env.find j final.wallets ≡ some a
  kept_wallet j a listed = elim (Bool-cases (wallet.id == j)) [
    | inl same ↦ absurd (ground (arith, law.find-new_id w.wallets))
    | inr apart ↦ ground (arith, law.find-write wallet.id wallet w.wallets j)
  ]

  wallet_listed : env.find wallet.id final.wallets ≡ some wallet
  wallet_listed = ground (arith, law.find-write wallet.id wallet w.wallets wallet.id)

  -- Signing up without a card, when no user has the username, the number or the email, answers with the
  -- identifier and an access token of a new user: it has the data of the request with a hash of the PIN
  -- and nothing verified, and at most a one-time password more; it has a new wallet with nothing on it;
  -- and every other user and wallet is as before.
  pub sign_up_creates :
      nonempty dto.nfc_card_number ≡ none
      → let r = sign_up env dto false w in
        (r.0 ≡ ok (welcome env row))
        × ((text : Option (List ℕ)) × (env.find row.id r.1.users ≡ some (with_otp text row)))
        × (env.find wallet.id r.1.wallets ≡ some wallet)
        × ((j : ℕ) (a : User) → env.find j w.users ≡ some a → env.find j r.1.users ≡ some a)
        × ((j : ℕ) (a : Wallet) → env.find j w.wallets ≡ some a → env.find j r.1.wallets ≡ some a)
  sign_up_creates cardless =
      rw (sign_up-eq cardless false)
        (refl, (coded.text, coded.stored), wallet_listed, kept, kept_wallet)

  -- Signing up by SMS, when the search of the number is answered without data, answers with a failure
  -- and leaves the new user in the database, so that whoever tries again with the username that the
  -- request gives is told that the username is taken. The request names no card.
  pub failed_sms_keeps_user :
      nonempty dto.nfc_card_number ≡ none
      → nonempty dto.username ≡ some name
      → (found : NumberAnswer) → env.search_number dto.phone_number ≡ some found
      → found.data_status ≡ none
      → (again : Bool)
      → let r = sign_up env dto true w in
        (r.0 ≡ ok (refused "An error occurred while creating the user"))
        × ((text : Option (List ℕ)) × (env.find row.id r.1.users ≡ some (with_otp text row)))
        × (sign_up env dto again r.1 ≡ (ok (refused "This Username is already taken"), r.1))
  unfolding sign_up insert_user ◌>>=◌
  failed_sms_keeps_user cardless given found searched dataless again =
      let unsent : sms_taken env (some dto.phone_number) ≡ false = ground (arith) in
      let first =
        find_first_listed env law (λ a. same_text a.username (some name)) final.users row.id
          (with_otp coded.text row) coded.stored (str_eq_refl name) in
      rw (sign_up-eq cardless true, unsent) (refl, (coded.text, coded.stored), ground arith)

  registered :
      nonempty dto.nfc_card_number ≡ none
      → dto.role ≡ Role.customer
      → sms_taken env (some dto.phone_number) ≡ true
      → (agent : ℕ)
      → register_user env dto agent w ≡ (ok (refused "Failed to register user"), final)
  unfolding register_user ◌>>=◌
  registered cardless customer sent agent = ground (arith, sign_up-eq cardless true)

  -- An agent registers a customer without a card, and asking for the SMS does not throw: the user is
  -- created, but the answer is a failure, and no history of the creation is kept.
  pub agent_registration_fails :
      nonempty dto.nfc_card_number ≡ none
      → dto.role ≡ Role.customer
      → sms_taken env (some dto.phone_number) ≡ true
      → (agent : ℕ)
      → let r = register_user env dto agent w in
        (r.0 ≡ ok (refused "Failed to register user"))
        × ((text : Option (List ℕ)) × (env.find row.id r.1.users ≡ some (with_otp text row)))
        × (r.1.user_histories ≡ w.user_histories)
  agent_registration_fails cardless customer sent agent =
      rw (registered cardless customer sent agent) (refl, (coded.text, coded.stored), refl)

  module _ (number : String) (c : Card) (given : nonempty dto.nfc_card_number ≡ some number)
      (numbered : card_numbered env number w ≡ some c)
      (listed : env.find c.id w.cards ≡ some c) where
    abbrev pub taken_over : Card
    taken_over = attach_to wallet.id row.id (some name) c

    abbrev with_card : World env
    with_card = record with_wallet {
      cards = env.write c.id taken_over w.cards;
      card_histories =
          w.card_histories
          ++ record { created_by_id = row.id; card_id = c.id; action = CardAction.attach } ∷ [];
    }

    card_added :
        add_first_card env row (some wallet) name (some number) with_wallet ≡ (ok tt, with_card)
    unfolding add_first_card ◌>>=◌
    card_added =
        let attached =
          bare_attached env law with_wallet c number numbered listed row.id
            (ground (arith, row_listed)) (record { user = row; wallet = some wallet })
            (record {
              nfc_card_number = number;
              pin = none;
              wallet_id = some wallet.id;
              name = some name;
            })
            wallet.id refl refl refl (ground (arith, wallet_listed)) (ground (arith, row_listed)) in
        ground (arith)

    with_card-IsCoded : IsCoded env row.id row email_verification row.email with_card
    with_card-IsCoded =
        generate_otp-IsCoded env law row.id row email_verification row.email with_card row_listed

    -- Whoever signs up with the number of a card takes the card, from whichever user: it is active, of
    -- the new user and on the new wallet, with the balance that it had, and nothing is asked of its owner.
    pub sign_up_takes_card :
        (by_sms : Bool)
        → let r = sign_up env dto by_sms w in
          (env.find c.id r.1.cards ≡ some taken_over)
          × (taken_over.balance ≡ c.balance)
          × (taken_over.user_id ≡ some row.id)
    unfolding sign_up ◌>>=◌
    sign_up_takes_card by_sms =
        let attached = law.find-write c.id taken_over w.cards c.id in
        elim by_sms [
          | true ↦ (
            ground (arith, inserted, wallet_created, card_added, with_card-IsCoded.generated),
            refl,
            refl,
          )
          | false ↦ (
            ground (arith, inserted, wallet_created, card_added, with_card-IsCoded.generated),
            refl,
            refl,
          )
        ]
