-- ===== src/Unique/Steps.antt =====
-- The requests that write users, as a step relation, and what a run of them keeps:
-- src/auth/auth.service.ts, src/user/user.service.ts and src/business/business.service.ts.
use nfc_payment_api.Prelude.{ℕ, String, Bool, Option, List}
use nfc_payment_api.Schema.{User}
use nfc_payment_api.External.{Env, IsLawful}
use nfc_payment_api.World.{World}
use nfc_payment_api.Unique.{IsUnique}
use nfc_payment_api.Registration.{SignUp, sign_up, register_user}
use nfc_payment_api.Registration.Unique.{sign_up-Keeps, register_user-Keeps}
use nfc_payment_api.Business.{RegisterBusiness, register_business}
use nfc_payment_api.Business.Unique.{register_business-Keeps}
use nfc_payment_api.Profile.{edit_email, edit_phone_number}
use nfc_payment_api.Profile.Unique.{edit_email-Keeps, edit_phone_number-Keeps}
use nfc_payment_api.Profile.Update.{UpdateUser, update_user_data}
use nfc_payment_api.Profile.Update.Unique.{update_user_data-Keeps}
use nfc_payment_api.Profile.Deletion.{delete_user}
use nfc_payment_api.Profile.Deletion.Unique.{delete_user-Keeps}
use nfc_payment_api.Reset.{reset_pin}
use nfc_payment_api.Reset.Unique.{reset_pin-Keeps}

-- A request, whatever it answers or throws.
pub data Request (env : Env) : World env → World env → Type 0 where
  signed_up :
      (dto : SignUp) (by_sms : Bool) (w : World env) → Request env w (sign_up env dto by_sms w).1
  registered :
      (dto : SignUp) (agent : ℕ) (w : World env) → Request env w (register_user env dto agent w).1
  registered_business :
      (dto : RegisterBusiness) (k : ℕ) (w : World env)
      → Request env w (register_business env dto k w).1
  updated :
      (user : User) (dto : UpdateUser) (w : World env)
      → Request env w (update_user_data env user dto w).1
  edited_email :
      (user : User) (email : Option String) (otp : List ℕ) (w : World env)
      → Request env w (edit_email env user email otp w).1
  edited_number :
      (user : User) (number : String) (otp : List ℕ) (w : World env)
      → Request env w (edit_phone_number env user number otp w).1
  reset : (otp : List ℕ) (pin : String) (w : World env) → Request env w (reset_pin env otp pin w).1
  deleted : (k : ℕ) (w : World env) → Request env w (delete_user env k w).1

pub data Requests (env : Env) : World env → World env → Type 0 where
  none_yet : (w : World env) → Requests env w w
  one_more : (w v v' : World env) → Requests env w v → Request env v v' → Requests env w v'

module _ (env : Env) (law : IsLawful env) where
  Request-IsUnique :
      (w v : World env) → Request env w v → IsUnique env w.users → IsUnique env v.users
  Request-IsUnique _ _ (signed_up dto by_sms w) unique =
      (sign_up-Keeps env law dto by_sms).kept w unique
  Request-IsUnique _ _ (registered dto agent w) unique =
      (register_user-Keeps env law dto agent).kept w unique
  Request-IsUnique _ _ (registered_business dto k w) unique =
      (register_business-Keeps env law dto k).kept w unique
  Request-IsUnique _ _ (updated user dto w) unique =
      (update_user_data-Keeps env law user dto).kept w unique
  Request-IsUnique _ _ (edited_email user email otp w) unique =
      (edit_email-Keeps env law user email otp).kept w unique
  Request-IsUnique _ _ (edited_number user number otp w) unique =
      (edit_phone_number-Keeps env law user number otp).kept w unique
  Request-IsUnique _ _ (reset otp pin w) unique = (reset_pin-Keeps env law otp pin).kept w unique
  Request-IsUnique _ _ (deleted k w) unique = (delete_user-Keeps env law k).kept w unique

  -- However many requests to sign up, to register users or businesses, to update or edit a profile, to
  -- reset a PIN and to delete users are made, in whichever order and whatever they answer or throw:
  -- if each user had the identifier that it is found by, and no two the same username, email or number,
  -- it is so afterwards.
  pub Requests-IsUnique :
      (w v : World env) → Requests env w v → IsUnique env w.users → IsUnique env v.users
  Requests-IsUnique _ _ (none_yet w) unique = unique
  Requests-IsUnique _ _ (one_more w v v' earlier last) unique =
      Request-IsUnique v v' last (Requests-IsUnique w v earlier unique)
