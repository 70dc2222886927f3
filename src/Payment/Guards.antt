-- ===== src/Payment/Guards.antt =====
-- What `find_card`, `authorise` and `approve` check, for the theorems on collections.
use nfc_payment_api.Prelude.{
  String, ◌≡◌, true, Option, none, some, is_some, ◌⊎◌, inl, inr, Bool-cases, Option-cases, arith,
}
use nfc_payment_api.Prelude.Int.{ℤ, ◌≤ℤ◌, ltb_ℤ, naira}
use nfc_payment_api.Schema.{User, Card, Wallet}
use nfc_payment_api.External.{Env}
use nfc_payment_api.Exec.{ok, ◌>>=◌}
use nfc_payment_api.World.{World, find_of}
use nfc_payment_api.Payment.{CreatePayment, find_card, check_password, authorise, approve}

-- What a card may spend: its own balance, or if it has none its wallet's.
abbrev pub funds : Card → Option Wallet → Option ℤ
funds c uw = elim c.balance [
  | some b ↦ some b
  | none ↦ elim uw [ some u ↦ some u.balance | none ↦ none ]
]

module _ (env : Env) where
  pub record PinVerified (dto : CreatePayment) (c : Card) (w : World env) : Type 0 where
    pub owner : User
    pub hash : String
    pub password : String
    pub owned : find_of env w.users c.user_id ≡ some owner
    pub stored : owner.hash ≡ some hash
    pub given : dto.password ≡ some password
    pub verified : env.verify hash password ≡ true

  check_password-PinVerified :
      (c : Card) (dto : CreatePayment) (w : World env) {u : Unit}
      → (check_password env c dto.password w).0 ≡ ok u
      → PinVerified dto c w
  unfolding ◌>>=◌
  check_password-PinVerified c dto w h = elim (Option-cases (find_of env w.users c.user_id)) [
    | inl absent ↦ absurd (ground arith)
    | inr (owner, owned) ↦ elim (Option-cases owner.hash) [
      | inl absent ↦ absurd (ground arith)
      | inr (hash, stored) ↦ elim (Option-cases dto.password) [
        | inl absent ↦ absurd (ground arith)
        | inr (password, given) ↦ record {
          owner = owner;
          hash = hash;
          password = password;
          owned = owned;
          stored = stored;
          given = given;
          verified = ground arith;
        }
      ]
    ]
  ]

  authorise_key :
      (dto : CreatePayment) (c : Card) (w : World env) {u : Unit}
      → (authorise env dto c w).0 ≡ ok u
      → env.verify c.hash dto.private_key ≡ true
  unfolding authorise ◌>>=◌
  authorise_key dto c w h = ground arith

  authorise_pin :
      (dto : CreatePayment) (c : Card) (w : World env) {u : Unit}
      → (authorise env dto c w).0 ≡ ok u
      → (dto.amount ≤ℤ naira 500) ⊎ PinVerified dto c w
  unfolding authorise ◌>>=◌
  authorise_pin dto c w h = elim (Bool-cases (ltb_ℤ (naira 500) dto.amount)) [
    | inl above ↦ inr (check_password-PinVerified c dto w (ground arith))
    | inr within ↦ inl (ground arith)
  ]

  pub authorise_keeps :
      (dto : CreatePayment) (c : Card) (w : World env) → (authorise env dto c w).1 ≡ w
  unfolding authorise ◌>>=◌
  authorise_keeps dto c w = ground arith

  pub approve_keeps :
      (dto : CreatePayment) (amount : ℤ) (w : World env) → (approve env dto amount w).1 ≡ w
  unfolding approve find_card ◌>>=◌
  approve_keeps dto amount w = grind (arith, authorise_keeps)

  pub record IsApproved (dto : CreatePayment) (amount : ℤ) (w : World env) (c : Card)
      (uw : Option Wallet) : Type 0 where
    pub found : env.find dto.card_id w.cards ≡ some c
    pub owned : is_some c.user_id ≡ true
    pub active : c.active ≡ true
    pub key : env.verify c.hash dto.private_key ≡ true
    pub pin : (dto.amount ≤ℤ naira 500) ⊎ PinVerified dto c w
    pub wallet : uw ≡ find_of env w.wallets c.wallet_id
    pub available : ℤ
    pub funded : funds c uw ≡ some available
    pub covered : amount ≤ℤ available

  module _ (dto : CreatePayment) (amount : ℤ) (w : World env) (c : Card) (uw : Option Wallet)
      (h : (approve env dto amount w).0 ≡ ok (c, uw)) where
    approved_card :
        (env.find dto.card_id w.cards ≡ some c)
        × (is_some c.user_id ≡ true)
        × (c.active ≡ true)
        × (uw ≡ find_of env w.wallets c.wallet_id)
    unfolding approve find_card ◌>>=◌
    approved_card = grind (arith, authorise_keeps)

    approved_authorise : (authorise env dto c w).0 ≡ ok tt
    unfolding approve find_card ◌>>=◌
    approved_authorise = grind (arith, authorise_keeps)

    approved_funds : (a : ℤ) × (funds c uw ≡ some a) × (amount ≤ℤ a)
    unfolding approve find_card ◌>>=◌
    approved_funds = elim (Option-cases (funds c uw)) [
      | inl none_left ↦ absurd (grind (arith, authorise_keeps))
      | inr (a, e) ↦ (a, e, grind (arith, authorise_keeps))
    ]

  pub approve-IsApproved :
      (dto : CreatePayment) (amount : ℤ) (w : World env) (c : Card) (uw : Option Wallet)
      → (approve env dto amount w).0 ≡ ok (c, uw)
      → IsApproved dto amount w c uw
  approve-IsApproved dto amount w c uw h =
      let (found, owned, active, wallet) = approved_card dto amount w c uw h in
      let authorised = approved_authorise dto amount w c uw h in
      let (available, funded, covered) = approved_funds dto amount w c uw h in
      record {
        found = found;
        owned = owned;
        active = active;
        key = authorise_key dto c w authorised;
        pin = authorise_pin dto c w authorised;
        wallet = wallet;
        available = available;
        funded = funded;
        covered = covered;
      }
