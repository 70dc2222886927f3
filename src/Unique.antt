-- ===== src/Unique.antt =====
-- The unique columns of `User` in prisma/schema.prisma as an invariant of the table, and how the
-- methods that are made of others keep it.
pub mod Steps
mod Tests
use nfc_payment_api.Prelude.{
  ℕ, String, ◌≡◌, refl, Bool, true, false, Option, none, some, ◌==◌, arith, Bool-cases,
  Option-cases, inl, inr, if◌then◌else◌, sym, ◌∙◌, ap,
}
use nfc_payment_api.Schema.{User}
use nfc_payment_api.External.{Env, IsLawful}
use nfc_payment_api.Exec.{Exec, Error, Result, ok, err, throw, ◌>>=◌, continue, caught, try_catch}
use nfc_payment_api.World.{World, put_users, update_row, update_user}

-- No two rows have the same value.
abbrev pub Distinct : (env : Env) → (User → Option String) → env.Table User → Type 0
Distinct env key t =
    (j k : ℕ) (a b : User) (s : String)
    → env.find j t ≡ some a
    → env.find k t ≡ some b
    → key a ≡ some s
    → key b ≡ some s
    → j ≡ k

abbrev pub number_of : User → Option String
number_of u = some u.phone_number

-- Each row has the identifier that it is found by, and the columns `username`, `email` and
-- `phoneNumber` are unique.
pub record IsUnique (env : Env) (t : env.Table User) : Type 0 where
  pub keyed : (j : ℕ) (a : User) → env.find j t ≡ some a → a.id ≡ j
  pub usernames : Distinct env (λ u. u.username) t
  pub emails : Distinct env (λ u. u.email) t
  pub numbers : Distinct env number_of t

-- A change of other columns.
pub record IsAside (f : User → User) : Type 0 where
  pub id : (u : User) → (f u).id ≡ u.id
  pub username : (u : User) → (f u).username ≡ u.username
  pub email : (u : User) → (f u).email ≡ u.email
  pub phone_number : (u : User) → (f u).phone_number ≡ u.phone_number

module _ (env : Env) (law : IsLawful env) where
  -- A row is written whose value no other row has.
  pub write-Distinct :
      (key : User → Option String) (t : env.Table User) (k : ℕ) (r : User)
      → Distinct env key t
      → ((j : ℕ) (a : User) (s : String)
          → env.find j t ≡ some a
          → key a ≡ some s
          → key r ≡ some s
          → j ≡ k)
      → Distinct env key (env.write k r t)
  write-Distinct key t k r distinct alone i j a b s there there' has has' =
      elim (Bool-cases (k == i)) [
        | inl first ↦ elim (Bool-cases (k == j)) [
          | inl both ↦ ground arith
          | inr other ↦
              let mine : key r ≡ some s = ground (arith, law.find-write k r t i) in
              let old : env.find j t ≡ some b = ground (arith, law.find-write k r t j) in
              let same = alone j b s old has' mine in ground arith
        ]
        | inr apart ↦
            let old : env.find i t ≡ some a = ground (arith, law.find-write k r t i) in
            elim (Bool-cases (k == j)) [
              | inl second ↦
                  let mine : key r ≡ some s = ground (arith, law.find-write k r t j) in
                  let same = alone i a s old has mine in ground arith
              | inr other ↦ distinct i j a b s old (ground (arith, law.find-write k r t j)) has has'
            ]
      ]

  pub write-keyed :
      (t : env.Table User) (k : ℕ) (r : User)
      → ((j : ℕ) (a : User) → env.find j t ≡ some a → a.id ≡ j)
      → r.id ≡ k
      → (j : ℕ) (a : User) → env.find j (env.write k r t) ≡ some a
      → a.id ≡ j
  write-keyed t k r keyed mine j a there = elim (Bool-cases (k == j)) [
    | inl same ↦ let now : r ≡ a = ground (arith, law.find-write k r t j) in ground arith
    | inr apart ↦ keyed j a (ground (arith, law.find-write k r t j))
  ]

  -- An update of other columns keeps the invariant.
  pub write-IsUnique :
      (t : env.Table User) (k : ℕ) (f : User → User) (u : User)
      → IsAside f
      → env.find k t ≡ some u
      → IsUnique env t
      → IsUnique env (env.write k (f u) t)
  write-IsUnique t k f u aside listed unique =
      let id = aside.id u in
      let username = aside.username u in
      let email = aside.email u in
      let number = aside.phone_number u in
      record {
        keyed = write-keyed t k (f u) unique.keyed (id ∙ unique.keyed k u listed);
        usernames =
            write-Distinct (λ x. x.username) t k (f u) unique.usernames
              (λ j a s there has mine.
                unique.usernames j k a u s there listed has (sym username ∙ mine));
        emails =
            write-Distinct (λ x. x.email) t k (f u) unique.emails
              (λ j a s there has mine. unique.emails j k a u s there listed has (sym email ∙ mine));
        numbers = write-Distinct number_of t k (f u) unique.numbers (λ j a s there has mine.
            unique.numbers j k a u s there listed has (sym (ap some number) ∙ mine));
      }

-- Whatever a method answers or throws, it keeps the invariant.
pub record Keeps (env : Env) {A : Type 0} (m : Exec (World env) A) : Type 0 where
  pub kept : (w : World env) → IsUnique env w.users → IsUnique env (m w).1.users

module _ (env : Env) where
  pub same-Keeps :
      {A : Type 0} (m : Exec (World env) A)
      → ((w : World env) → (m w).1.users ≡ w.users)
      → Keeps env m
  same-Keeps m same = record { kept = λ w unique. rw (same w) unique }

  continue-IsUnique :
      {A B : Type 0} (r : Result A × World env) (f : A → Exec (World env) B)
      → ((a : A) → Keeps env (f a))
      → IsUnique env r.1.users
      → IsUnique env (continue r.0 f r.1).1.users
  continue-IsUnique (ok a, w) f rest unique = (rest a).kept w unique
  continue-IsUnique (err e, w) f rest unique = unique

  pub bind-Keeps :
      {A B : Type 0} {m : Exec (World env) A} {f : A → Exec (World env) B}
      → Keeps env m
      → ((a : A) → Keeps env (f a))
      → Keeps env (m >>= f)
  unfolding ◌>>=◌
  bind-Keeps {m} {f} first rest = record {
    kept = λ w unique. continue-IsUnique (m w) f rest (first.kept w unique);
  }

  caught-IsUnique :
      {A : Type 0} (r : Result A × World env) (h : Error → Exec (World env) A)
      → ((e : Error) → Keeps env (h e))
      → IsUnique env r.1.users
      → IsUnique env (caught h r.0 r.1).1.users
  caught-IsUnique (ok a, w) h handled unique = unique
  caught-IsUnique (err e, w) h handled unique = (handled e).kept w unique

  pub try_catch-Keeps :
      {A : Type 0} {m : Exec (World env) A} {h : Error → Exec (World env) A}
      → Keeps env m
      → ((e : Error) → Keeps env (h e))
      → Keeps env (try_catch m h)
  try_catch-Keeps {m} {h} tried handled = record {
    kept = λ w unique. caught-IsUnique (m w) h handled (tried.kept w unique);
  }

  pub if-Keeps :
      {A : Type 0} (b : Bool) {m n : Exec (World env) A}
      → Keeps env m
      → Keeps env n
      → Keeps env (if b then m else n)
  if-Keeps true holds otherwise = holds
  if-Keeps false holds otherwise = otherwise

  -- What only reads, answers or throws.
  pub reads-Keeps : {A : Type 0} (f : World env → Result A) → Keeps env (λ w. (f w, w))
  reads-Keeps f = record { kept = λ w unique. unique }

  update_user-IsUnique :
      (law : IsLawful env) (k : ℕ) (f : User → User)
      → IsAside f
      → (o : Option User) (w : World env) → env.find k w.users ≡ o
      → IsUnique env w.users
      → IsUnique env (put_users env (update_row env k f w.users o) w).1.users
  update_user-IsUnique law k f aside none w found unique = unique
  update_user-IsUnique law k f aside (some u) w found unique =
      write-IsUnique env law w.users k f u aside found unique

  pub update_user-Keeps :
      (law : IsLawful env) (k : ℕ) (f : User → User) → IsAside f → Keeps env (update_user env k f)
  update_user-Keeps law k f aside = record {
    kept = λ w unique. update_user-IsUnique law k f aside (env.find k w.users) w refl unique;
  }

  refused-IsUnique :
      {A : Type 0} (b : Bool) (e : Error) (m : Exec (World env) A) (w : World env)
      → Keeps env m
      → IsUnique env w.users
      → IsUnique env (if b then throw {A = A} e w else m w).1.users
  refused-IsUnique true e m w kept unique = unique
  refused-IsUnique false e m w kept unique = kept.kept w unique

  -- An operation of the database that refuses by a test of the state.
  pub refuses-Keeps :
      {A : Type 0} (test : World env → Bool) (e : Error) {m : Exec (World env) A}
      → Keeps env m
      → Keeps env (λ w. if test w then (err e, w) else m w)
  refuses-Keeps test e {m} kept = record {
    kept = λ w unique. refused-IsUnique (test w) e m w kept unique;
  }
