-- ===== src/Business/Laws.antt =====
-- What a registration and a verification leave in the database, src/business/business.service.ts.
use nfc_payment_api.Prelude.{
  ℕ, ◌≡◌, refl, true, false, Option, none, some, List, ◌==◌, arith, Bool-cases, inl, inr,
  if◌then◌else◌,
}
use nfc_payment_api.Schema.{User, Business, Wallet}
use nfc_payment_api.External.{Env, IsLawful}
use nfc_payment_api.Exec.{ok, ◌>>=◌}
use nfc_payment_api.Response.{business_row, refused, succeeded}
use nfc_payment_api.World.{World}
use nfc_payment_api.Otp.{email_verification, with_otp}
use nfc_payment_api.Otp.Stored.{IsCoded, generate_otp-IsCoded}
use nfc_payment_api.Registration.{new_wallet}
use nfc_payment_api.Business.{
  RegisterBusiness, push_business, is_business_user, owning, taken_business_column, new_business,
  insert_business, insert_business_wallet, register_business,
}

-- The user as a member of businesses.
abbrev pub as_business : User → User
as_business u = if is_business_user u.login.roles then u else push_business u

module _ (env : Env) (law : IsLawful env) (dto : RegisterBusiness) (w : World env) (u : User)
    (listed : env.find u.id w.users ≡ some u) (unregistered : u.business_id ≡ none) where
  -- A registration that is refused for an email that another business has still makes the user a
  -- business user, and leaves all else as it is.
  pub refused_business_keeps_role :
      taken_business_column env (λ b. true) (some dto.email) (some dto.phone_number) w
        ≡ some "Email"
      → is_business_user u.login.roles ≡ false
      → register_business env dto u.id w ≡ (
        ok (refused "This Email is already taken"),
        record w { users = env.write u.id (push_business u) w.users },
      )
  unfolding register_business insert_business ◌>>=◌
  refused_business_keeps_role taken customer = ground (arith)

  module _
      (free : taken_business_column env (λ b. true) (some dto.email) (some dto.phone_number) w
        ≡ none) where
    abbrev pub business : Business
    business = new_business env dto (env.new_id w.businesses)

    abbrev pub wallet : Wallet
    wallet = new_wallet env (env.new_id w.wallets) none (some business.id)

    abbrev with_role : World env
    with_role =
        if is_business_user u.login.roles
        then w
        else record w { users = env.write u.id (push_business u) w.users }

    abbrev with_business : World env
    with_business = record with_role {
      businesses = env.write business.id business w.businesses;
      wallets = env.write wallet.id wallet w.wallets;
    }

    member : env.find u.id with_role.users ≡ some (as_business u)
    member = ground (arith, law.find-write u.id (push_business u) w.users u.id)

    coded : IsCoded env u.id (as_business u) email_verification (some dto.email) with_business
    coded =
        generate_otp-IsCoded env law u.id (as_business u) email_verification (some dto.email)
          with_business member

    abbrev owner : User
    owner = owning business.id (with_otp coded.text (as_business u))

    abbrev registered : World env
    registered = record with_business { users = env.write u.id owner coded.users }

    register_business-eq :
        register_business env dto u.id w
        ≡ (ok (succeeded "Successfully created business" (business_row business)), registered)
    unfolding register_business insert_business insert_business_wallet ◌>>=◌
    register_business-eq = ground (arith, coded.generated, coded.stored)

    owner_listed : env.find u.id registered.users ≡ some owner
    owner_listed = ground (arith, law.find-write u.id owner coded.users u.id)

    again_refused :
        (dto' : RegisterBusiness)
        → register_business env dto' u.id registered
          ≡ (ok (refused "You have already registered a business"), registered)
    unfolding register_business ◌>>=◌
    again_refused dto' = ground (arith, owner_listed)

    kept_business :
        (j : ℕ) (b : Business)
        → env.find j w.businesses ≡ some b
        → env.find j registered.businesses ≡ some b
    kept_business j b there = elim (Bool-cases (business.id == j)) [
      | inl same ↦ absurd (ground (arith, law.find-new_id w.businesses))
      | inr apart ↦ ground (arith, law.find-write business.id business w.businesses j)
    ]

    -- A user without a business registers one whose email and number no other business has: the new
    -- business has the data of the request and an unverified email, and a wallet with nothing on it;
    -- the user becomes a business user and owns it, with at most a one-time password more; every other
    -- business is as before; and the user can register no second one.
    pub register_business_creates :
        (dto' : RegisterBusiness)
        → let r = register_business env dto u.id w in
          (r.0 ≡ ok (succeeded "Successfully created business" (business_row business)))
          × (env.find business.id r.1.businesses ≡ some business)
          × (env.find wallet.id r.1.wallets ≡ some wallet)
          × ((text : Option (List ℕ)) × (env.find u.id r.1.users
                ≡ some (owning business.id (with_otp text (as_business u)))))
          × ((j : ℕ) (b : Business)
              → env.find j w.businesses ≡ some b
              → env.find j r.1.businesses ≡ some b)
          × (register_business env dto' u.id r.1
              ≡ (ok (refused "You have already registered a business"), r.1))
    register_business_creates dto' =
        let stored = law.find-write business.id business w.businesses business.id in
        let held = law.find-write wallet.id wallet w.wallets wallet.id in
        rw register_business-eq (
          refl,
          ground arith,
          ground arith,
          (coded.text, owner_listed),
          kept_business,
          again_refused dto',
        )
