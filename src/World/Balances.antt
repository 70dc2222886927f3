-- ===== src/World/Balances.antt =====
-- Balances of wallets, and what updates of wallets do to them.
use mathlib.Core.Option
use nfc_payment_api.Prelude.{
  ℕ, ◌≡◌, refl, Option, none, some, ◌==◌, inl, inr, Option-cases, arith, if◌then◌else◌,
}
use nfc_payment_api.Prelude.Int.{ℤ, ◌+ℤ◌, ◌-ℤ◌}
use nfc_payment_api.Schema.{Wallet}
use nfc_payment_api.External.{Env, IsLawful}
use nfc_payment_api.Exec.{ok}
use nfc_payment_api.World.{World, update_wallet}

-- `balance: { increment: amount }`
abbrev pub add_balance : ℤ → Wallet → Wallet
add_balance a w = record w { balance = w.balance +ℤ a }

-- `balance: { decrement: amount }`
abbrev pub take_balance : ℤ → Wallet → Wallet
take_balance a w = record w { balance = w.balance -ℤ a }

-- A balance after a payment of one wallet to another.
abbrev pub shifted : ℕ → ℕ → ℤ → ℕ → Option ℤ → Option ℤ
shifted from to amount j none = none
shifted from to amount j (some b) =
    let left : ℤ = if from == j then b -ℤ amount else b in
    some (if to == j then left +ℤ amount else left)

module _ (env : Env) where
  -- The balance of a wallet.
  abbrev pub balance_at : World env → ℕ → Option ℤ
  balance_at w j = elim (env.find j w.wallets) [ none ↦ none | some r ↦ some r.balance ]

  -- An update of one wallet changes the balance of that wallet, and of no other.
  pub update_wallet-balance_at :
      (law : IsLawful env) (k : ℕ) (f : Wallet → Wallet) (g : ℤ → ℤ) (w : World env)
      → ((r : Wallet) → (f r).balance ≡ g r.balance)
      → (update_wallet env k f w).0 ≡ ok tt
      → (j : ℕ)
      → balance_at (update_wallet env k f w).1 j
        ≡ (if k == j then Option.map g (balance_at w j) else balance_at w j)
  update_wallet-balance_at law k f g w same done j = elim (Option-cases (env.find k w.wallets)) [
    | inl absent ↦ absurd (ground arith)
    | inr (r, e) ↦ ground (arith, law.find-write k (f r) w.wallets j, same r)
  ]

  -- A write that takes the amount from one wallet, and one that adds it to another or the same.
  pub debit_credit-shifted :
      (law : IsLawful env) (a b : ℕ) (amount : ℤ) (f : Wallet → Wallet) (w : World env)
      → ((r : Wallet) → (f r).balance ≡ r.balance -ℤ amount)
      → (update_wallet env a f w).0 ≡ ok tt
      → (update_wallet env b (add_balance amount) (update_wallet env a f w).1).0 ≡ ok tt
      → (j : ℕ)
      → balance_at (update_wallet env b (add_balance amount) (update_wallet env a f w).1).1 j
        ≡ shifted a b amount j (balance_at w j)
  debit_credit-shifted law a b amount f w takes first second j =
      let w₁ : World env = (update_wallet env a f w).1 in
      ground (
        arith,
        update_wallet-balance_at law a f (λ x. x -ℤ amount) w takes first j,
        update_wallet-balance_at law b (add_balance amount) (λ x. x +ℤ amount) w₁ (λ r. refl) second
            j,
      )
