-- ===== src/SignIn/Tokens.antt =====
-- `refreshTokens` of AuthService, src/auth/auth.service.ts. The user or the station is the one that
-- the guard of the request has read.
use nfc_payment_api.Prelude.{ℕ, String, ◌≡◌, true, Option, none, some, str_eq, if◌then◌else◌, arith}
use nfc_payment_api.Schema.{User, Station}
use nfc_payment_api.External.{Env, IsLawful}
use nfc_payment_api.Exec.{Exec, ok, pure, try_catch, ◌>>=◌, ◌>>◌}
use nfc_payment_api.Response.{Response, tokens, refused, succeeded}
use nfc_payment_api.World.{World}
use nfc_payment_api.SignIn.{
  with_refresh_token, new_access_token, new_refresh_token, update_refresh_token,
}

module _ (env : Env) where
  -- New tokens for the subject, of which the hash of the refresh token replaces the old one.
  pub renew : ℕ → Option String → Option ℕ → Option ℕ → Exec (World env) Response
  renew subject phone user station = do
    update_refresh_token env (new_refresh_token env subject phone) user station
    pure (
        succeeded "token refreshed successfully"
          (tokens (new_access_token env subject phone) (new_refresh_token env subject phone)))

  -- Without a user and a station nothing is returned.
  pub refresh_by : String → Option User → Option Station → Exec (World env) (Option Response)
  refresh_by token (some user) station =
      if env.verify user.login.refresh_token token
      then (do r ← renew user.id (some user.phone_number) (some user.id) none; pure (some r))
      else pure (some (refused "Access denied"))
  refresh_by token none (some station) =
      if env.verify station.refresh_token token
      then (do r ← renew station.id none none (some station.id); pure (some r))
      else pure (some (refused "Access denied"))
  refresh_by token none none = pure none

  pub refresh_tokens : String → Option User → Option Station → Exec (World env) (Option Response)
  refresh_tokens token user station =
      try_catch (refresh_by token user station)
        (λ e. pure (some (refused "Failed to refresh tokens")))

  -- A refresh that succeeds was asked for with the user's token, and leaves the hash of the new one in
  -- the row, which verifies a token if and only if it is the new one.
  pub refreshed_token_replaces :
      (law : IsLawful env) (user stored : User) (token other : String) (w w' : World env)
      (r : Response)
      → env.find user.id w.users ≡ some stored
      → refresh_tokens token (some user) none w ≡ (ok (some r), w')
      → r.success ≡ true
      → (env.verify user.login.refresh_token token ≡ true)
        × (env.find user.id w'.users
            ≡ some (
                with_refresh_token
                  (env.hash (new_refresh_token env user.id (some user.phone_number)))
                  stored))
        × (env.verify (env.hash (new_refresh_token env user.id (some user.phone_number))) other
            ≡ str_eq (new_refresh_token env user.id (some user.phone_number)) other)
  unfolding refresh_tokens refresh_by renew update_refresh_token ◌>>=◌
  refreshed_token_replaces law user stored token other w w' r listed h s = (
    ground arith,
    ground (
      arith,
      law.find-write user.id
          (with_refresh_token (env.hash (new_refresh_token env user.id (some user.phone_number)))
            stored)
          w.users user.id,
    ),
    law.verify-hash (new_refresh_token env user.id (some user.phone_number)) other,
  )
