-- ===== src/Accounts.antt =====
-- The accounts that the services keep, seen from outside: a balance for each wallet, and entries that
-- change balances. The steps are requests to src/payment/payment.service.ts and
-- src/wallet/wallet.service.ts, one after the other.
pub mod Refinement
use mathlib.Core.Option
use nfc_payment_api.Prelude.{ℕ, ◌≡◌, ◌⊎◌, true, Option, List, [], ◌∷◌, ◌==◌, if◌then◌else◌}
use nfc_payment_api.Prelude.Int.{ℤ, ◌+ℤ◌, ◌-ℤ◌}
use nfc_payment_api.Schema.{Wallet}
use nfc_payment_api.External.{Env}
use nfc_payment_api.Exec.{ok}
use nfc_payment_api.Response.{Response, UserWithWallet}
use nfc_payment_api.World.{World}
use nfc_payment_api.World.Balances.{shifted}
use nfc_payment_api.Payment.{Entity, CreatePayment, collect_payment}
use nfc_payment_api.Transfer.{SendPayment, send_payment}
use nfc_payment_api.Withdrawal.{WithdrawIntoBankAccount, user_withdraw}
use nfc_payment_api.Funding.{fund_wallet_with_bank_transfer}

-- An entry: nothing, an amount from one wallet to another, one that comes from outside the wallets,
-- and one that leaves them.
pub data Entry : Type 0 where
  idle : Entry
  moves : (from to : ℕ) → (amount : ℤ) → Entry
  comes leaves : (wallet : ℕ) → (amount : ℤ) → Entry

-- The balance of a wallet after an entry.
abbrev pub post : Entry → ℕ → Option ℤ → Option ℤ
post idle j b = b
post (moves from to amount) j b = shifted from to amount j b
post (comes k amount) j b = if k == j then Option.map (λ x. x +ℤ amount) b else b
post (leaves k amount) j b = if k == j then Option.map (λ x. x -ℤ amount) b else b

abbrev pub post_all : List Entry → ℕ → Option ℤ → Option ℤ
post_all [] j b = b
post_all (e ∷ l) j b = post_all l j (post e j b)

module _ (env : Env) where
  -- A request that was answered: a collection with success, a transfer or a withdrawal with success
  -- or without, and the success of a request to fund a wallet.
  pub data Step : World env → World env → Type 1 where
    collects :
        (e : Entity) (dto : CreatePayment) (r : Response) {w w' : World env}
        → collect_payment env e dto w ≡ (ok r, w')
        → r.success ≡ true
        → Step w w'
    sends :
        (sender : UserWithWallet) (dto : SendPayment) (r : Response) {w w' : World env}
        → send_payment env sender dto w ≡ (ok r, w')
        → Step w w'
    withdraws :
        (user : UserWithWallet) (dto : WithdrawIntoBankAccount) (r : Response) {w w' : World env}
        → user_withdraw env user dto w ≡ (ok r, w')
        → Step w w'
    funds :
        (user : UserWithWallet) (wallet own : Wallet) (amount : ℤ) (r : Response) {w w' : World env}
        → user.wallet ≡ Option.some own
        → fund_wallet_with_bank_transfer env user (Option.some wallet) amount w ≡ (ok r, w')
        → r.success ≡ true
        → Step w w'

  -- Any number of them.
  pub data Run : World env → World env → Type 1 where
    done : {w : World env} → Run w w
    next : {w w' w'' : World env} → Step w w' → Run w' w'' → Run w w''

  -- The entries that a request may post.
  abbrev pub Fits : {w w' : World env} → Step w w' → Entry → Type 0
  Fits (collects e dto r h s) x =
      ((from : ℕ) × ((to : ℕ) × ((amount : ℤ) × (x ≡ moves from to amount))))
      ⊎ ((to : ℕ) × ((amount : ℤ) × (x ≡ comes to amount)))
  Fits (sends sender dto r h) x =
      (x ≡ idle) ⊎ ((from : ℕ) × ((to : ℕ) × (x ≡ moves from to dto.amount)))
  Fits (withdraws user dto r h) x =
      (x ≡ idle) ⊎ ((wallet : ℕ) × ((amount : ℤ) × (x ≡ leaves wallet amount)))
  Fits (funds user wallet own amount r held h s) x = x ≡ idle

  -- One for each request, in their order.
  abbrev pub FitsAll : {w w' : World env} → Run w w' → List Entry → Type 0
  FitsAll done [] = Unit
  FitsAll done (x ∷ l) = ⊥
  FitsAll (next s r) [] = ⊥
  FitsAll (next s r) (x ∷ l) = Fits s x × FitsAll r l
