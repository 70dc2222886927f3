-- ===== src/Profile/Deletion/Unique.antt =====
-- `deleteUser` of src/user/user.service.ts keeps the unique columns.
use nfc_payment_api.Prelude.{ℕ, String, ◌≡◌, Option, none, some, arith}
use nfc_payment_api.Schema.{User}
use nfc_payment_api.External.{Env, IsLawful}
use nfc_payment_api.World.{World}
use nfc_payment_api.Unique.{IsUnique, Keeps, reads-Keeps, bind-Keeps, try_catch-Keeps}
use nfc_payment_api.Profile.Deletion.{restricting_key, delete_unless, delete_row, delete_user}

module _ (env : Env) (law : IsLawful env) where
  kept_elsewhere :
      (k j : ℕ) (t : env.Table User) (a : User)
      → env.find j (env.remove k t) ≡ some a
      → env.find j t ≡ some a
  kept_elsewhere k j t a there = ground (arith, law.find-remove k t j)

  unless-IsUnique :
      (k : ℕ) (key : Option String) (w : World env)
      → IsUnique env w.users
      → IsUnique env (delete_unless env key k w).1.users
  unless-IsUnique k (some key) w unique = unique
  unless-IsUnique k none w unique = record {
    keyed = λ j a there. unique.keyed j a (kept_elsewhere k j w.users a there);
    usernames = λ i j a b s there there'.
        unique.usernames i j a b s (kept_elsewhere k i w.users a there)
          (kept_elsewhere k j w.users b there');
    emails = λ i j a b s there there'.
        unique.emails i j a b s (kept_elsewhere k i w.users a there)
          (kept_elsewhere k j w.users b there');
    numbers = λ i j a b s there there'.
        unique.numbers i j a b s (kept_elsewhere k i w.users a there)
          (kept_elsewhere k j w.users b there');
  }

  deleted-IsUnique :
      (k : ℕ) (o : Option User) (w : World env)
      → IsUnique env w.users
      → IsUnique env (delete_row env k o w).1.users
  deleted-IsUnique k none w unique = unique
  deleted-IsUnique k (some u) w unique = unless-IsUnique k (restricting_key env k w) w unique

  pub delete_user-Keeps : (k : ℕ) → Keeps env (delete_user env k)
  unfolding delete_user
  delete_user-Keeps k =
      try_catch-Keeps env
        (bind-Keeps env
          (record { kept = λ w unique. deleted-IsUnique k (env.find k w.users) w unique })
          (λ t. reads-Keeps env _))
        (λ e. reads-Keeps env _)
