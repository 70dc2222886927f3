-- ===== src/External/Rows.antt =====
-- The one row of a table that meets a test, as the unique columns of the schema give it.
use nfc_payment_api.Prelude.{
  ℕ, ◌≡◌, Bool, true, false, none, some, ◌==◌, inl, inr, is_some, Option-cases, Bool-cases, arith,
}
use nfc_payment_api.External.{Env, IsLawful}

-- Only the row at `k` meets the test.
pub record IsSoleRow (env : Env) {Row : Type 0} (test : Row → Bool) (t : env.Table Row) (k : ℕ)
    (r : Row) : Type 0 where
  pub listed : env.find k t ≡ some r
  pub meets : test r ≡ true
  pub sole : (j : ℕ) (a : Row) → env.find j t ≡ some a → test a ≡ true → j ≡ k

module _ (env : Env) (law : IsLawful env) {Row : Type 0} (test : Row → Bool) where
  -- A row in the table that meets the test shows that one is found.
  pub find_first_listed :
      (t : env.Table Row) (k : ℕ) (r : Row)
      → env.find k t ≡ some r
      → test r ≡ true
      → is_some (env.find_first test t) ≡ true
  find_first_listed t k r listed meets = elim (Option-cases (env.find_first test t)) [
    | inl absent ↦ absurd (law.find_first_complete test t k r listed meets absent)
    | inr (a, found) ↦ ground arith
  ]

  -- Where no row meets the test, none is found.
  pub find_first_none :
      (t : env.Table Row)
      → ((j : ℕ) (r : Row) → env.find j t ≡ some r → test r ≡ false)
      → env.find_first test t ≡ none
  find_first_none t fails = elim (Option-cases (env.find_first test t)) [
    | inl absent ↦ absent
    | inr (a, found) ↦
        let (meets, (j, listed)) = law.find_first_sound test t a found in
        absurd (ground (arith, fails j a listed))
  ]

  -- The only row is the first.
  pub IsSoleRow-find_first :
      (t : env.Table Row) (k : ℕ) (r : Row)
      → IsSoleRow env test t k r
      → env.find_first test t ≡ some r
  IsSoleRow-find_first t k r s = elim (Option-cases (env.find_first test t)) [
    | inl absent ↦ absurd (ground (arith, find_first_listed t k r s.listed s.meets))
    | inr (a, found) ↦
        let (meets, (j, listed)) = law.find_first_sound test t a found in
        ground (arith, s.sole j a listed meets, s.listed)
  ]

  -- It stays so when the row is updated and still meets the test.
  pub IsSoleRow-write :
      (t : env.Table Row) (k : ℕ) (r r' : Row)
      → IsSoleRow env test t k r
      → test r' ≡ true
      → IsSoleRow env test (env.write k r' t) k r'
  IsSoleRow-write t k r r' s still = record {
    listed = ground (arith, law.find-write k r' t k);
    meets = still;
    sole = λ j a listed meets. elim (Bool-cases (k == j)) [
      | inl same ↦ ground arith
      | inr apart ↦ s.sole j a (ground (arith, law.find-write k r' t j)) meets
    ];
  }

  -- It is so for a new row, if no row met the test.
  pub IsSoleRow-new :
      (t : env.Table Row) (r : Row)
      → is_some (env.find_first test t) ≡ false
      → test r ≡ true
      → IsSoleRow env test (env.write (env.new_id t) r t) (env.new_id t) r
  IsSoleRow-new t r fresh meets = record {
    listed = ground (arith, law.find-write (env.new_id t) r t (env.new_id t));
    meets = meets;
    sole = λ j a listed meets'. elim (Bool-cases (env.new_id t == j)) [
      | inl same ↦ ground arith
      | inr apart ↦
          let old : env.find j t ≡ some a = ground (arith, law.find-write (env.new_id t) r t j) in
          absurd (ground (arith, find_first_listed t j a old meets'))
    ];
  }

  -- The table and the key may be named otherwise.
  pub IsSoleRow-at :
      (t t' : env.Table Row) (k k' : ℕ) (r : Row)
      → IsSoleRow env test t k r
      → t' ≡ t
      → k' ≡ k
      → IsSoleRow env test t' k' r
  IsSoleRow-at t t' k k' r s same_table same_key = rw same_table (rw same_key s)
