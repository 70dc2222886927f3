-- ===== src/Otp/Stored.antt =====
-- What `generateOtp` leaves of the database, src/common/helpers/otp.helper.ts.
use nfc_payment_api.Prelude.{
  ℕ, String, ◌≡◌, refl, false, Option, none, some, List, is_some, ◌==◌, arith, Bool-cases, inl, inr,
}
use nfc_payment_api.Schema.{User}
use nfc_payment_api.External.{Env, IsLawful}
use nfc_payment_api.Exec.{ok, ◌>>=◌}
use nfc_payment_api.World.{World}
use nfc_payment_api.Otp.{OtpUse, with_otp, fresh_otp, split, part, set_otp, generate_otp, has_otp}

-- The state after a one-time password was made for a user, with its code: at most the stored text of
-- that user has changed.
pub record IsCoded (env : Env) (k : ℕ) (u : User) (use_ : OtpUse) (identifier : Option String)
    (v : World env) : Type 0 where
  pub code : Option (List ℕ)
  pub text : Option (List ℕ)
  pub users : env.Table User
  pub generated : generate_otp env k use_ identifier v ≡ (ok code, record v { users = users })
  pub stored : env.find k users ≡ some (with_otp text u)
  pub others : (j : ℕ) → (k == j) ≡ false → env.find j users ≡ env.find j v.users

module _ (env : Env) (law : IsLawful env) (k : ℕ) (u : User) (use_ : OtpUse)
    (identifier : Option String) (v : World env) (listed : env.find k v.users ≡ some u) where
  pub generate_otp-IsCoded : IsCoded env k u use_ identifier v
  unfolding generate_otp set_otp ◌>>=◌
  generate_otp-IsCoded =
      let otp = fresh_otp env env.tries 0 use_ identifier v in
      elim (Bool-cases (is_some (env.find_first (has_otp otp k) v.users))) [
        | inl taken ↦ record {
          code = none;
          text = u.otp;
          users = v.users;
          generated = ground arith;
          stored = listed;
          others = λ j apart. refl;
        }
        | inr free ↦ record {
          code = part 0 (split otp);
          text = some otp;
          users = env.write k (with_otp (some otp) u) v.users;
          generated = ground arith;
          stored = ground (arith, law.find-write k (with_otp (some otp) u) v.users k);
          others = λ j apart. ground (arith, law.find-write k (with_otp (some otp) u) v.users j);
        }
      ]
