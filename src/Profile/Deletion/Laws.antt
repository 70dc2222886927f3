-- ===== src/Profile/Deletion/Laws.antt =====
-- What a deletion erases, src/user/user.service.ts.
use mathlib.Core.Bool.{Bool-set}
use mathlib.Core.Logic.Or
use mathlib.Core.List.{Mem, not-mem-nil, eq-or-mem_of_mem-cons}
use nfc_payment_api.Prelude.{
  ℕ, String, ◌≡◌, refl, Bool, true, none, some, List, [], ◌∷◌, ◌⊎◌, inl, inr, Option-cases, ◌==◌,
  arith,
}
use nfc_payment_api.Schema.{User, Wallet, Card, Report, Transaction}
use nfc_payment_api.External.{Env, IsLawful}
use nfc_payment_api.Exec.{ok, err, http, not_existing, ◌>>=◌}
use nfc_payment_api.Response.{null, succeeded}
use nfc_payment_api.World.{World}
use nfc_payment_api.Profile.Deletion.{
  wallet_of, card_of, any_of, cleared_card, cleared_row, restricting_key, delete_user,
}

any_of-mem :
    {A : Type 0} (p : A → Bool) (l : List A) (a : A) → Mem a l → p a ≡ true → any_of p l ≡ true
unfolding any_of
any_of-mem p [] a m holds = absurd (not-mem-nil m)
any_of-mem p (b ∷ l) a m holds =
    Or.elim (Bool-set (any_of p (b ∷ l)) true) (eq-or-mem_of_mem-cons m)
      (λ e. let here : p b ≡ true = rw (← e) holds in ground arith)
      (λ later. let rest = any_of-mem p l a later holds in ground arith)

module _ (env : Env) (law : IsLawful env) (w : World env) (k : ℕ) (u : User)
    (listed : env.find k w.users ≡ some u) where
  -- A user whom no report and no chat names is deleted, with the wallets and what is on them, and with
  -- every card that is the user's or that the user once created, whoever owns it and whatever is on it.
  -- The rows of the ledger stay with their amounts, without the keys to what is gone.
  pub deleted_user_erases_cards :
      (x : Wallet) (c : Card) (t : Transaction) (i j l : ℕ)
      → restricting_key env k w ≡ none
      → env.find i w.wallets ≡ some x
      → x.user_id ≡ some k
      → env.find j w.cards ≡ some c
      → (c.user_id ≡ some k) ⊎ (c.created_by_id ≡ k)
      → env.find l w.transactions ≡ some t
      → let r = delete_user env k w in
        (r.0 ≡ ok (succeeded "User deleted successfully" null))
        × (env.find k r.1.users ≡ none)
        × (env.find i r.1.wallets ≡ none)
        × (env.find j r.1.cards ≡ none)
        × (env.find l r.1.transactions ≡ some (cleared_row env k w t))
        × ((cleared_row env k w t).amount ≡ t.amount)
  unfolding delete_user ◌>>=◌
  deleted_user_erases_cards x c t i j l free held owner there creator recorded =
      let gone : card_of k c ≡ true = elim creator [
        | inl own ↦ ground (arith)
        | inr created ↦ ground (arith)
      ] in
      (
        ground (arith),
        ground (arith, law.find-remove k w.users k),
        ground (arith, law.find-remove_rows (wallet_of k) w.wallets i),
        ground (
          arith,
          law.find-map_rows (cleared_card env k w) (env.remove_rows (card_of k) w.cards) j,
          law.find-remove_rows (card_of k) w.cards j,
        ),
        ground (arith, law.find-map_rows (cleared_row env k w) w.transactions l),
        refl,
      )

  -- A user whom a report names, as the one who made it or as the one it is about, is not deleted: the
  -- answer has the status 400 and says that some column with the user's identifier does not exist, and
  -- nothing changes.
  pub reported_user_is_kept :
      (report : Report)
      → Mem report w.reports
      → (report.created_by_id ≡ k) ⊎ (report.user_id ≡ k)
      → (column : String) × (delete_user env k w ≡ (err (http 400 (not_existing column k)), w))
  unfolding delete_user ◌>>=◌
  reported_user_is_kept report there names = elim (Option-cases (restricting_key env k w)) [
    | inr (column, restricted) ↦ (column, ground (arith))
    | inl free ↦ absurd (elim names [
      | inl made ↦ ground (arith, any_of-mem (λ r. r.created_by_id == k) w.reports report there)
      | inr about ↦ ground (arith, any_of-mem (λ r. r.user_id == k) w.reports report there)
    ])
  ]
