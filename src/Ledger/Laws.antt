-- ===== src/Ledger/Laws.antt =====
-- What the queries of the ledger list, src/transaction/transaction.service.ts.
use mathlib.Core.Bool.{Bool-set}
use mathlib.Core.Logic.{∥∥₁_elim}
use mathlib.Core.List.Permᴰ
use mathlib.Core.List.{Permᴰ}
use mathlib.Core.List.{Mem, map, mem-map_of_mem, exists_of_mem-map}
use nfc_payment_api.Prelude.{
  ℕ, suc, ◌≤◌, ◌≡◌, refl, Bool, true, none, some, List, arith, inl, inr, sym, ◌&&◌,
}
use nfc_payment_api.Prelude.Int.{pos, ◌-ℤ◌}
use nfc_payment_api.Schema.{Transaction}
use nfc_payment_api.External.{Env, IsLawful}
use nfc_payment_api.Exec.{ok, text, ◌>>=◌}
use nfc_payment_api.Exec.Laws.{Result-cases, try_catch-eq-ok}
use nfc_payment_api.Response.{Response, TransactionWithUsers, transaction_page, succeeded}
use nfc_payment_api.World.{World}
use nfc_payment_api.Ledger.{
  PageRequest, filtered, count, take, drop, paged, within, concerns, with_users, listed_page,
  skip_of, take_of, get_user_transactions,
}
use nfc_payment_api.Ledger.Pages.{
  count-perm, mem-paged, filtered-holds, mem-filtered, mem-count, take-filtered,
}

abbrev pub page_at : PageRequest → ℕ → ℕ → PageRequest
page_at dto start n = record dto { start = pos start; take = some (pos n) }

abbrev pub answer : List TransactionWithUsers → ℕ → Response
answer rows total = succeeded "Successfully retrieved transactions" (transaction_page rows total)

module _ (env : Env) (w : World env) where
  abbrev pub rows : (ℕ × Transaction → Bool) → ℕ → ℕ → List TransactionWithUsers
  rows found k n =
      map (with_users env w)
        (take n (drop k (filtered found (env.ordered found (pos k) (pos n) w.transactions))))

  -- A page whose numbers are in range.
  pub listed_page-eq :
      (counted found : ℕ × Transaction → Bool) (k n : ℕ)
      → 1 ≤ n
      → listed_page env counted found (some (pos n)) (pos (suc k)) w
        ≡ (ok (answer (rows found k n) (count counted (env.listed w.transactions))), w)
  unfolding paged ◌>>=◌ ◌-ℤ◌
  listed_page-eq counted found k n some_rows = ground arith

  -- A page that is large enough for all rows counted lists each row that is found.
  pub listed_page-complete :
      (law : IsLawful env) (counted found : ℕ × Transaction → Bool) (n : ℕ)
      → ((x : ℕ × Transaction) → found x ≡ true → counted x ≡ true)
      → 1 ≤ n
      → count counted (env.listed w.transactions) ≤ n
      → (x : ℕ × Transaction) → found x ≡ true
      → Mem x (env.listed w.transactions)
      → Mem (with_users env w x) (rows found 0 n)
  unfolding drop
  listed_page-complete law counted found n weaker some_rows enough x holds m =
      let order : List (ℕ × Transaction) = env.ordered found (pos 0) (pos n) w.transactions in
      let same : Permᴰ order (env.listed w.transactions) =
        law.ordered-listed found (pos 0) (pos n) w.transactions in
      let fits : count counted order ≤ n = rw (count-perm counted same) enough in
      let all = take-filtered counted found n order weaker fits in
      mem-map_of_mem (with_users env w) {a = x}
        (rw all (mem-filtered found order x holds (Permᴰ.mem (Permᴰ.symm same) m)))

  module _ (user : ℕ) where
    abbrev is_user : ℕ × Transaction → Bool
    is_user x = concerns user x.1

    abbrev is_wanted : PageRequest → ℕ × Transaction → Bool
    is_wanted dto x = within dto.from_date dto.to_date x.0 && concerns user x.1

    abbrev pub total : ℕ
    total = count is_user (env.listed w.transactions)

    user_page-eq :
        (dto : PageRequest) (k n : ℕ)
        → 1 ≤ n
        → get_user_transactions env user (page_at dto (suc k) n) w
          ≡ (ok (answer (rows (is_wanted dto) k n) total), w)
    unfolding get_user_transactions
    user_page-eq dto k n some_rows = rw (listed_page-eq is_user (is_wanted dto) k n some_rows) refl

    -- With the total that is reported as the number of rows to take, and no dates, every row of the
    -- ledger that the user created or received is listed.
    pub total_lists_all :
        (law : IsLawful env) (k : ℕ) (t : Transaction)
        → env.find k w.transactions ≡ some t
        → concerns user t ≡ true
        → let every : ℕ → PageRequest =
            λ n. record { from_date = none; to_date = none; take = some (pos n); start = pos 1 } in
          (listed : List TransactionWithUsers) × (time : ℕ) × (get_user_transactions env user
              (every total)
              w
            ≡ (ok (answer listed total), w))
          × Mem (with_users env w (time, t)) listed
    total_lists_all law k t there mine =
        let every : PageRequest = record {
          from_date = none;
          to_date = none;
          take = none;
          start = pos 1;
        } in
        let (time, m) = law.listed_complete w.transactions k t there in
        let some_rows : 1 ≤ total = mem-count is_user _ (time, t) mine m in
        (
          rows (is_wanted every) 0 total,
          time,
          user_page-eq every 0 total some_rows,
          listed_page-complete law is_user (is_wanted every) total (λ x h. h) some_rows
              (omega arith) (time, t) mine m,
        )

    -- Whatever page is asked for, the query changes nothing, and each row that it lists was created by
    -- the user or received by the user.
    pub page_is_own :
        (dto : PageRequest) (r : Response) (w' : World env) (listed : List TransactionWithUsers)
        (n : ℕ)
        → get_user_transactions env user dto w ≡ (ok r, w')
        → r.payload ≡ transaction_page listed n
        → (w' ≡ w)
          × ((x : TransactionWithUsers) → Mem x listed → concerns user x.transaction ≡ true)
    unfolding get_user_transactions ◌>>=◌
    page_is_own dto r w' listed n answered paid =
        let order : List (ℕ × Transaction) =
          env.ordered (is_wanted dto) (skip_of dto.start) (take_of env dto.take) w.transactions in
        let all : List (ℕ × Transaction) = filtered (is_wanted dto) order in
        let block =
          try_catch-eq-ok (listed_page env is_user (is_wanted dto) dto.take dto.start)
            (text "Failed to get transactions") w answered in
        elim (Result-cases (paged (skip_of dto.start) (take_of env dto.take) all)) [
          | inl (raw, found) ↦
              let shown : listed ≡ map (with_users env w) raw = ground arith in
              (
                ground arith,
                λ x m.
                    ∥∥₁_elim
                      (exists_of_mem-map {f = with_users env w} {b = x} {l = raw}
                        (rw (sym shown) m))
                      (Bool-set (concerns user x.transaction) true)
                      (λ (raw_row, there, same).
                        let holds = filtered-holds (is_wanted dto) order raw_row (
                          mem-paged (skip_of dto.start) (take_of env dto.take) all raw raw_row found
                            there) in
                        rw (sym same) (ground arith)),
              )
          | inr (e, failed) ↦ absurd (ground arith)
        ]
