-- ===== src/Exec/Laws.antt =====
-- Inversion of a method that resolved.
use nfc_payment_api.Prelude.{◌≡◌, refl, ◌⊎◌, inl, inr}
use nfc_payment_api.Exec.{
  Exec, Message, Error, Result, ok, err, http, ◌>>=◌, continue, caught, try_catch, rethrow_http,
}

pub Result-cases :
    {A : Type 0} (r : Result A) → ((a : A) × (r ≡ ok a)) ⊎ ((e : Error) × (r ≡ err e))
Result-cases (ok a) = inl (a, refl)
Result-cases (err e) = inr (e, refl)

module _ {S A B : Type 0} where
  -- A block that resolved has resolved at each of its steps.
  continue-eq-ok :
      (r : Result A × S) (f : A → Exec S B) {b : B} {s' : S}
      → continue r.0 f r.1 ≡ (ok b, s')
      → (a : A) × (s₁ : S) × (r ≡ (ok a, s₁)) × (f a s₁ ≡ (ok b, s'))
  continue-eq-ok (ok a, s₁) f h = (a, s₁, refl, h)
  continue-eq-ok (err e, s₁) f h = cc

  pub bind-eq-ok :
      (m : Exec S A) (f : A → Exec S B) (s : S) {b : B} {s' : S}
      → (m >>= f) s ≡ (ok b, s')
      → (a : A) × (s₁ : S) × (m s ≡ (ok a, s₁)) × (f a s₁ ≡ (ok b, s'))
  unfolding ◌>>=◌
  bind-eq-ok m f s h = continue-eq-ok (m s) f h

module _ {S A : Type 0} where
  rethrown :
      (message : Message) (r : Result A × S) {a : A} {s' : S}
      → caught (rethrow_http message) r.0 r.1 ≡ (ok a, s')
      → r ≡ (ok a, s')
  rethrown message (ok a, s₁) h = h
  rethrown message (err (http status m), s₁) h = cc
  rethrown message (err _, s₁) h = cc

  -- A handler that throws again lets no error resolve.
  pub try_catch-eq-ok :
      (m : Exec S A) (message : Message) (s : S) {a : A} {s' : S}
      → try_catch m (rethrow_http message) s ≡ (ok a, s')
      → m s ≡ (ok a, s')
  try_catch-eq-ok m message s h = rethrown message (m s) h
