-- ===== src/Exec.antt =====
-- An asynchronous method: it changes the state, and resolves or throws. What was written before a
-- throw stays written, so the state comes back beside the error too.
pub mod Laws
use nfc_payment_api.Prelude.{ℕ, String, Bool, Option, none, some, if◌then◌else◌}
use nfc_payment_api.Prelude.Int.{ℤ}

-- A message: a fixed text, or a text with the number that it names.
pub data Message : Type 0 where
  text : String → Message
  daily_limit_left : ℤ → Message
  -- how many minutes a user has to wait
  wait_minutes : ℕ → Message
  -- a column and an identifier, which `does not exist`
  not_existing : String → ℕ → Message

-- What is thrown: an HTTP exception of Nest with its status, an error code of Prisma, or an error of
-- the language, such as the read of a property of null.
pub data Error : Type 0 where
  http : ℕ → Message → Error
  -- P2002, P2003, P2025
  unique_violation foreign_key_violation record_not_found : Error
  -- P2002 with the column that it names, as the handlers print it
  column_taken : String → Error
  -- P2003 with the column of the key, as the handlers print it
  key_violated : String → Error
  -- a value that does not fit its column
  validation_error : Error
  type_error : Error

pub data Result (A : Type 0) : Type 0 where
  ok : A → Result A
  err : Error → Result A

abbrev pub Exec : Type 0 → Type 0 → Type 0
Exec S A = S → Result A × S

abbrev property_of : {A : Type 0} → Option A → Result A
property_of none = err type_error
property_of (some a) = ok a

module _ {S A : Type 0} where
  abbrev pub pure : A → Exec S A
  pure a s = (ok a, s)

  abbrev pub throw : Error → Exec S A
  throw e s = (err e, s)

  abbrev pub gets : (S → A) → Exec S A
  gets f s = (ok (f s), s)

  abbrev pub lift : Result A → Exec S A
  lift r s = (r, s)

  -- The read of a property of a value that may be null or undefined.
  abbrev pub defined : Option A → Exec S A
  defined o s = (property_of o, s)

  abbrev pub caught : (Error → Exec S A) → Result A → Exec S A
  caught h (ok a) = pure a
  caught h (err e) = h e

  -- `try { m } catch (error) { h }`
  abbrev pub try_catch : Exec S A → (Error → Exec S A) → Exec S A
  try_catch m h s = let (r, s') = m s in caught h r s'

  abbrev pub rolled_back : S → Result A × S → Result A × S
  rolled_back s (ok a, s') = (ok a, s')
  rolled_back s (err e, _) = (err e, s)

  -- `prisma.$transaction([…])`: all of the writes, or none.
  abbrev pub all_or_nothing : Exec S A → Exec S A
  all_or_nothing m s = rolled_back s (m s)

  -- `if (typeof error.status === 'number') throw error; throw new ServiceUnavailableException(…)`
  abbrev pub rethrow_http : Message → Error → Exec S A
  rethrow_http m (http status n) s = (err (http status n), s)
  rethrow_http m _ s = (err (http 503 m), s)

abbrev pub modify : {S : Type 0} → (S → S) → Exec S (Unit {0})
modify f s = (ok tt, f s)

abbrev pub continue : {S A B : Type 0} → Result A → (A → Exec S B) → Exec S B
continue (ok a) f s = f a s
continue (err e) f s = (err e, s)

infixl 5 ◌>>=◌ ◌>>◌
unfoldable pub ◌>>=◌ : {S A B : Type 0} → Exec S A → (A → Exec S B) → Exec S B
◌>>=◌ m f s = let (r, s') = m s in continue r f s'

abbrev pub ◌>>◌ : {S A B : Type 0} → Exec S A → Exec S B → Exec S B
m >> n = m >>= λ _. n

-- `if (b) throw e;`
abbrev pub throw_if : {S : Type 0} → Bool → Error → Exec S (Unit {0})
throw_if b e s = (if b then err e else ok tt, s)
