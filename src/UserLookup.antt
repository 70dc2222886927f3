-- ===== src/UserLookup.antt =====
-- `getUserByUniqueIdentifier` of UserService, src/user/user.service.ts.
use nfc_payment_api.Prelude.{String, Option, none, some, str_eq, same_id, same_text, if◌then◌else◌}
use nfc_payment_api.Schema.{User}
use nfc_payment_api.External.{Env}
use nfc_payment_api.Exec.{Exec, gets}
use nfc_payment_api.Response.{Response, UserWithWallet, found_user, refused, succeeded}
use nfc_payment_api.World.{World}
use nfc_payment_api.Identifier.{is_valid_email, is_phone, to_valid_phone_number}

module _ (env : Env) where
  abbrev with_wallet : World env → User → UserWithWallet
  with_wallet w u = record {
    user = u;
    wallet = env.find_first (λ x. same_id x.user_id (some u.id)) w.wallets;
  }

  abbrev lookup_answer : World env → Option User → Response
  lookup_answer w none = refused "User not found"
  lookup_answer w (some u) = succeeded "Successfully retrieved user" (found_user (with_wallet w u))

  -- By email, by phone number or by username, as the identifier looks.
  abbrev find_user : World env → String → Option User
  find_user w id =
      if is_valid_email id
      then env.find_first (λ u. same_text u.email (some id)) w.users
      else if is_phone id
      then env.find_first (λ u. str_eq u.phone_number (to_valid_phone_number id)) w.users
      else env.find_first (λ u. same_text u.username (some id)) w.users

  unfoldable pub get_user_by_unique_identifier : String → Exec (World env) Response
  get_user_by_unique_identifier id = gets (λ w. lookup_answer w (find_user w id))
