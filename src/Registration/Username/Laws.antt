-- ===== src/Registration/Username/Laws.antt =====
-- When a generated username is taken, src/auth/auth.service.ts.
use Prim.Native.String.{◌++◌ as append}
use nfc_payment_api.Prelude.{ℕ, String, ◌≡◌, Bool, none, some, nonempty, same_text, arith}
use nfc_payment_api.Schema.{User}
use nfc_payment_api.External.{Env, IsLawful}
use nfc_payment_api.External.Rows.{find_first_listed}
use nfc_payment_api.Exec.{ok, ◌>>=◌}
use nfc_payment_api.Response.{refused}
use nfc_payment_api.World.{World}
use nfc_payment_api.World.References.{str_eq_refl}
use nfc_payment_api.Registration.{SignUp, insert_user, sign_up}
use nfc_payment_api.Registration.Username.{
  latest_username, username_number, generate_username-unnumbered,
}

-- Whoever gives no username is refused, though the request asks for none, if the latest user whose
-- username starts with the first name has no number in it, and the first name with the number 1 is
-- taken.
pub generated_username_taken :
    (env : Env) (law : IsLawful env) (dto : SignUp) (w : World env) (latest : String) (k : ℕ)
    (a : User) (by_sms : Bool)
    → nonempty dto.username ≡ none
    → latest_username env dto.first_name (env.listed w.users) ≡ some latest
    → username_number latest ≡ none
    → env.find k w.users ≡ some a
    → a.username ≡ some (append (env.lower_case dto.first_name) "_1")
    → sign_up env dto by_sms w ≡ (ok (refused "This Username is already taken"), w)
unfolding sign_up insert_user ◌>>=◌
generated_username_taken env law dto w latest k a by_sms ungiven last unnumbered listed same =
    let first = append (env.lower_case dto.first_name) "_1" in
    let generated = generate_username-unnumbered env dto.first_name latest w last unnumbered in
    let found =
      find_first_listed env law (λ b. same_text b.username (some first)) w.users k a listed
        (rw same (str_eq_refl first)) in
    ground arith
