-- ===== src/Ledger/Pages.antt =====
-- Filters and pages of lists, as the queries of src/transaction/transaction.service.ts take them.
use native.Mathlib.Bridge.{le_prop}
use mathlib.Core.Bool.{Bool-set}
use mathlib.Core.Logic.Or
use mathlib.Core.List.{Permᴰ}
use mathlib.Core.List.{
  Mem, Mem-prop, not-mem-nil, mem-cons_self, mem-cons_of_mem, eq-or-mem_of_mem-cons, reverse,
  mem-reverse,
}
use nfc_payment_api.Prelude.{
  ℕ, zero, suc, ◌≤◌, ◌≡◌, refl, sym, ap, ◌∙◌, Bool, true, false, List, [], ◌∷◌, arith, Bool-cases,
  inl, inr,
}
use nfc_payment_api.Prelude.Int.{ℤ, pos, negsuc}
use nfc_payment_api.Exec.{ok}
use nfc_payment_api.Ledger.{filtered, count, take, drop, paged}

module _ {A : Type 0} where
  take-nil : (n : ℕ) → take {A = A} n [] ≡ []
  unfolding take
  take-nil zero = refl
  take-nil (suc n) = refl

  -- The order of a list does not change how many of its members meet a test.
  pub count-perm : (p : A → Bool) {l₁ l₂ : List A} → Permᴰ l₁ l₂ → count p l₁ ≡ count p l₂
  unfolding count
  count-perm p Permᴰ.nil = refl
  count-perm p (Permᴰ.cons e h) = ground (arith, ap p e, count-perm p h)
  count-perm p (Permᴰ.swap e f) = ground (arith, ap p e, ap p f)
  count-perm p (Permᴰ.trans h k) = count-perm p h ∙ count-perm p k

  mem-take : (n : ℕ) (l : List A) (a : A) → Mem a (take n l) → Mem a l
  unfolding take
  mem-take zero l a h = absurd (not-mem-nil h)
  mem-take (suc n) [] a h = h
  mem-take (suc n) (b ∷ l) a h =
      Or.elim Mem-prop (eq-or-mem_of_mem-cons h) (λ e. rw e mem-cons_self)
        (λ m. mem-cons_of_mem b (mem-take n l a m))

  mem-drop : (n : ℕ) (l : List A) (a : A) → Mem a (drop n l) → Mem a l
  unfolding drop
  mem-drop zero l a h = h
  mem-drop (suc n) [] a h = h
  mem-drop (suc n) (b ∷ l) a h = mem-cons_of_mem b (mem-drop n l a h)

  -- What a page lists stands in the list.
  pub mem-paged : (k n : ℤ) (l rows : List A) (a : A) → paged k n l ≡ ok rows → Mem a rows → Mem a l
  unfolding paged
  mem-paged (pos k) (pos n) l rows a h m =
      let same : rows ≡ take n (drop k l) = ground arith in
      mem-drop k l a (mem-take n (drop k l) a (rw (sym same) m))
  mem-paged (pos k) (negsuc n) l rows a h m =
      let same : rows ≡ reverse (take (suc n) (drop k (reverse l))) = ground arith in
      let there : Mem a (take (suc n) (drop k (reverse l))) = mem-reverse.0 (rw (sym same) m) in
      mem-reverse.0 (mem-drop k (reverse l) a (mem-take (suc n) (drop k (reverse l)) a there))
  mem-paged (negsuc k) n l rows a h m = cc

  pub filtered-holds : (p : A → Bool) (l : List A) (a : A) → Mem a (filtered p l) → p a ≡ true
  unfolding filtered
  filtered-holds p [] a h = absurd (not-mem-nil h)
  filtered-holds p (b ∷ l) a h = elim (Bool-cases (p b)) [
    | inl holds ↦
        let kept : filtered p (b ∷ l) ≡ b ∷ filtered p l = ground arith in
        let m : Mem a (b ∷ filtered p l) = rw (sym kept) h in
        Or.elim (Bool-set (p a) true) (eq-or-mem_of_mem-cons m) (λ e. rw e holds)
          (filtered-holds p l a)
    | inr fails ↦
        let dropped : filtered p (b ∷ l) ≡ filtered p l = ground arith in
        filtered-holds p l a (rw (sym dropped) h)
  ]

  pub mem-filtered :
      (p : A → Bool) (l : List A) (a : A) → p a ≡ true → Mem a l → Mem a (filtered p l)
  unfolding filtered
  mem-filtered p [] a holds m = m
  mem-filtered p (b ∷ l) a holds m = elim (Bool-cases (p b)) [
    | inl kept ↦
        let same : filtered p (b ∷ l) ≡ b ∷ filtered p l = ground arith in
        rw same (
          Or.elim Mem-prop (eq-or-mem_of_mem-cons m) (λ e. rw e mem-cons_self)
            (λ later. mem-cons_of_mem b (mem-filtered p l a holds later)))
    | inr dropped ↦
        let same : filtered p (b ∷ l) ≡ filtered p l = ground arith in
        rw same (
          Or.elim Mem-prop (eq-or-mem_of_mem-cons m)
            (λ e. let fails : p a ≡ false = ap p e ∙ dropped in absurd (ground arith))
            (mem-filtered p l a holds))
  ]

  pub mem-count : (p : A → Bool) (l : List A) (a : A) → p a ≡ true → Mem a l → 1 ≤ count p l
  unfolding count
  mem-count p [] a holds m = absurd (not-mem-nil m)
  mem-count p (b ∷ l) a holds m = elim (Bool-cases (p b)) [
    | inl counted ↦ ground arith
    | inr other ↦
        let later : 1 ≤ count p l =
          Or.elim le_prop (eq-or-mem_of_mem-cons m)
            (λ e. let fails : p a ≡ false = ap p e ∙ other in absurd (ground arith))
            (mem-count p l a holds) in
        ground arith
  ]

  -- As many rows as are counted with a weaker test are all of the rows.
  pub take-filtered :
      (p q : A → Bool) (n : ℕ) (l : List A)
      → ((a : A) → q a ≡ true → p a ≡ true)
      → count p l ≤ n
      → take n (filtered q l) ≡ filtered q l
  unfolding filtered count take
  take-filtered p q n [] weaker enough = take-nil n
  take-filtered p q zero (b ∷ l) weaker enough =
      ground (arith, take-filtered p q zero l weaker, weaker b)
  take-filtered p q (suc n) (b ∷ l) weaker enough =
      ground (arith, take-filtered p q n l weaker, take-filtered p q (suc n) l weaker, weaker b)
