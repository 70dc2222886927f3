-- ===== src/Unique/Tests.antt =====
-- A run of requests on the database of `Samples`, src/auth/auth.service.ts and src/user/user.service.ts.
use nfc_payment_api.Prelude.{
  ℕ, zero, suc, ◌≡◌, ◌≢◌, refl, sym, ap, ◌∙◌, String, Option, none, some, arith, true, false,
  same_text,
}
use nfc_payment_api.Schema.{User, Role}
use nfc_payment_api.External.Memory.{memory, memory-IsLawful}
use nfc_payment_api.World.{World}
use nfc_payment_api.World.References.{str_eq_refl}
use nfc_payment_api.Registration.{SignUp, sign_up}
use nfc_payment_api.Profile.Deletion.{delete_user}
use nfc_payment_api.Unique.{Distinct, number_of, IsUnique}
use nfc_payment_api.Unique.Steps.{signed_up, deleted, none_yet, one_more, Requests-IsUnique}
use nfc_payment_api.Samples.{start, customer, merchant}

same_text_refl : (o : Option String) → same_text o o ≡ true
same_text_refl none = refl
same_text_refl (some s) = str_eq_refl s

different : (o p : Option String) → same_text o p ≡ false → o ≢ p
different o p apart same =
    let alike : same_text o p ≡ true = ap (same_text o) (sym same) ∙ same_text_refl o in
    ground arith

start_keyed : (j : ℕ) (a : User) → memory.find j start.users ≡ some a → a.id ≡ j
start_keyed zero a there = ground arith
start_keyed (suc zero) a there = ground arith
start_keyed (suc (suc j)) a there = absurd (ground arith)

start-Distinct :
    (key : User → Option String) → key customer ≢ key merchant → Distinct memory key start.users
start-Distinct key apart zero zero a b s there there' has has' = refl
start-Distinct key apart zero (suc zero) a b s there there' has has' = absurd (apart (ground arith))
start-Distinct key apart zero (suc (suc k)) a b s there there' has has' = absurd (ground arith)
start-Distinct key apart (suc zero) zero a b s there there' has has' = absurd (apart (ground arith))
start-Distinct key apart (suc zero) (suc zero) a b s there there' has has' = refl
start-Distinct key apart (suc zero) (suc (suc k)) a b s there there' has has' =
    absurd (ground arith)
start-Distinct key apart (suc (suc j)) k a b s there there' has has' = absurd (ground arith)

start-IsUnique : IsUnique memory start.users
start-IsUnique = record {
  keyed = start_keyed;
  usernames = start-Distinct (λ u. u.username) (different _ _ refl);
  emails = start-Distinct (λ u. u.email) (different _ _ refl);
  numbers = start-Distinct number_of (different _ _ refl);
}

abbrev eve : SignUp
eve = record {
  role = Role.customer;
  first_name = "Eve";
  last_name = none;
  username = some "eve";
  phone_number = "+2348012345671";
  referral_code = none;
  email = "eve@stark.pay";
  nfc_card_number = none;
  pin = some "123456";
  password = none;
}

-- A user signs up, and the first customer is deleted.
abbrev joined : World memory
joined = (sign_up memory eve true start).1

Requests-IsUnique_example : IsUnique memory (delete_user memory 0 joined).1.users
Requests-IsUnique_example =
    Requests-IsUnique memory memory-IsLawful start (delete_user memory 0 joined).1
      (one_more start joined (delete_user memory 0 joined).1
        (one_more start start joined (none_yet start) (signed_up eve true start))
        (deleted 0 joined))
      start-IsUnique
