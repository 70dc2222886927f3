-- ===== src/Profile/Deletion.antt =====
-- The deletion of a user, `deleteUser` of src/user/user.service.ts, with what the keys of
-- prisma/schema.prisma delete with the row (`onDelete: Cascade`) or set to null.
pub mod Laws
pub mod Unique
mod Tests
use nfc_payment_api.Prelude.{
  ℕ, String, Bool, true, false, not, ◌&&◌, ◌||◌, Option, none, some, List, [], ◌∷◌, same_id, ◌==◌,
  if◌then◌else◌,
}
use nfc_payment_api.Schema.{User, Wallet, Card, CardHistory, UserHistory, BankAccount, Transaction}
use nfc_payment_api.External.{Env}
use nfc_payment_api.Exec.{
  Exec, Error, ok, err, http, text, record_not_found, key_violated, not_existing, pure, throw,
  try_catch, ◌>>=◌, ◌>>◌,
}
use nfc_payment_api.Response.{Response, null, succeeded}
use nfc_payment_api.World.{World, find_of}

abbrev pub wallet_of : ℕ → Wallet → Bool
wallet_of k x = same_id x.user_id (some k)

-- The card's owner and who created it are keys with a cascade.
abbrev pub card_of : ℕ → Card → Bool
card_of k c = same_id c.user_id (some k) || c.created_by_id == k

abbrev account_of : ℕ → BankAccount → Bool
account_of k a = same_id a.user_id (some k)

abbrev is_so : {A : Type 0} → (A → Bool) → Option A → Bool
is_so p none = false
is_so p (some a) = p a

abbrev none_if : Bool → Option ℕ → Option ℕ
none_if b key = if b then none else key

-- Whether a row of a list meets a test.
pub any_of : {A : Type 0} → (A → Bool) → List A → Bool
any_of p [] = false
any_of p (a ∷ l) = let rest = any_of p l in if p a then true else rest

abbrev deletion_failed : ℕ → Error → Error
deletion_failed k (key_violated key) = http 400 (not_existing key k)
deletion_failed k e = http 503 (text "An error occured when deleting user")

keep_histories : (CardHistory → Bool) → List CardHistory → List CardHistory
keep_histories gone [] = []
keep_histories gone (h ∷ t) = let rest = keep_histories gone t in if gone h then rest else h ∷ rest

keep_user_histories : ℕ → List UserHistory → List UserHistory
keep_user_histories k [] = []
keep_user_histories k (h ∷ t) =
    let rest = keep_user_histories k t in
    if (h.created_by_id == k) || (h.user_id == k) then rest else h ∷ rest

module _ (env : Env) where
  -- The keys of a row to what is deleted.
  abbrev pub cleared_row : ℕ → World env → Transaction → Transaction
  cleared_row k w t = record t {
    wallet_id = none_if (is_so (wallet_of k) (find_of env w.wallets t.wallet_id)) t.wallet_id;
    card_id = none_if (is_so (card_of k) (find_of env w.cards t.card_id)) t.card_id;
    recipient_id = none_if (same_id t.recipient_id (some k)) t.recipient_id;
    created_by_id = none_if (same_id t.created_by_id (some k)) t.created_by_id;
  }

  abbrev cleared_card : ℕ → World env → Card → Card
  cleared_card k w c = record c {
    wallet_id = none_if (is_so (wallet_of k) (find_of env w.wallets c.wallet_id)) c.wallet_id;
  }

  -- The first key that restricts the deletion, in the order in which the migrations add them.
  abbrev pub restricting_key : ℕ → World env → Option String
  restricting_key k w =
      if any_of (λ c. c.from_id == k) w.chats
      then some "fromId"
      else if any_of (λ c. c.to_id == k) w.chats
      then some "toId"
      else if any_of (λ r. r.created_by_id == k) w.reports
      then some "createdById"
      else if any_of (λ r. r.user_id == k) w.reports
      then some "userId"
      else none

  abbrev erased : ℕ → World env → World env
  erased k w = record w {
    users = env.remove k w.users;
    wallets = env.remove_rows (wallet_of k) w.wallets;
    cards = env.map_rows (cleared_card k w) (env.remove_rows (card_of k) w.cards);
    card_histories =
        keep_histories (λ h. h.created_by_id == k || is_so (card_of k) (env.find h.card_id w.cards))
          w.card_histories;
    user_histories = keep_user_histories k w.user_histories;
    bank_accounts = env.remove_rows (account_of k) w.bank_accounts;
    transactions = env.map_rows (cleared_row k w) w.transactions;
  }

  abbrev delete_unless : Option String → ℕ → Exec (World env) (Unit {0})
  delete_unless (some key) k w = (err (key_violated key), w)
  delete_unless none k w = (ok tt, erased k w)

  abbrev delete_row : ℕ → Option User → Exec (World env) (Unit {0})
  delete_row k none w = (err record_not_found, w)
  delete_row k (some u) w = delete_unless (restricting_key k w) k w

  pub delete_user : ℕ → Exec (World env) Response
  delete_user k =
      try_catch
        (do
          (λ w. delete_row k (env.find k w.users) w)
          pure (succeeded "User deleted successfully" null))
        (λ e. throw (deletion_failed k e))
