-- ===== src/Otp/RoundTrip/Fresh.antt =====
-- The loop of `generateOtp`, and what is stored, src/common/helpers/otp.helper.ts.
use nfc_payment_api.Prelude.{
  ℕ, zero, suc, ◌+◌, ◌≤◌, ◌<◌, ◌≡◌, refl, sym, ap, ◌∙◌, true, false, Option, none, some, String,
  List, ◌==◌, arith, Option-cases, Bool-cases, inl, inr,
}
use nfc_payment_api.Schema.{User}
use nfc_payment_api.External.{Env, IsLawful}
use nfc_payment_api.External.Rows.{find_first_listed, find_first_none}
use nfc_payment_api.Exec.{ok, ◌>>=◌}
use nfc_payment_api.World.{World}
use nfc_payment_api.Otp.{
  OtpUse, identifier_text, split, part, otp_starts, with_otp, has_otp, invalid, set_otp, otp_text,
  is_taken, fresh_otp, generate_otp, verify_otp,
}
use nfc_payment_api.Otp.Text.{
  IsClock, has_no_hyphen, split-otp_text, same_codes_sound, starts_with-append, starts_with_refl,
}
use nfc_payment_api.Otp.RoundTrip.{IsPending, accepted, verifies_once}

-- A password starts with itself.
holder_starts :
    (text : List ℕ) (k : ℕ) (r : User) → has_otp text k r ≡ true → otp_starts text r ≡ true
holder_starts text k r has = elim (Option-cases r.otp) [
  | inl none_ ↦ absurd (ground arith)
  | inr (otp, stored) ↦
      let same = same_codes_sound otp text (ground arith) in
      let whole = starts_with_refl text in ground arith
]

module _ (env : Env) (use_ : OtpUse) (identifier : Option String) (w : World env) where
  abbrev pub text_of : ℕ → List ℕ
  text_of n = otp_text env use_ identifier (env.draw n)

  free_at :
      (a b : ℕ) → a ≡ b → is_taken env w (text_of a) ≡ false → is_taken env w (text_of b) ≡ false
  free_at a b same free = rw (sym same) free

  -- If a code among those that the loop may draw is free, the loop ends with a free one.
  pub fresh_otp_is_free :
      (fuel n j : ℕ)
      → j < fuel
      → is_taken env w (text_of (n + j)) ≡ false
      → (is_taken env w (fresh_otp env fuel n use_ identifier w) ≡ false)
        × ((i : ℕ) × (fresh_otp env fuel n use_ identifier w ≡ text_of i))
  unfolding fresh_otp
  fresh_otp_is_free zero n j small free = absurd (ground arith)
  fresh_otp_is_free (suc fuel) n zero small free =
      let here : is_taken env w (text_of n) ≡ false = free_at (n + 0) n (omega arith) free in
      rw here (here, (n, refl))
  fresh_otp_is_free (suc fuel) n (suc j) small free =
      elim (Bool-cases (is_taken env w (text_of n))) [
        | inr here ↦ rw here (here, (n, refl))
        | inl taken ↦
            let later : is_taken env w (text_of (suc n + j)) ≡ false =
              free_at (n + suc j) (suc n + j) (omega arith) free in
            rw taken (fresh_otp_is_free fuel (suc n) j (ground arith) later)
      ]

  -- The number of tries then makes no difference.
  pub fresh_otp_settled :
      (fuel fuel' n j : ℕ)
      → j < fuel
      → j < fuel'
      → is_taken env w (text_of (n + j)) ≡ false
      → fresh_otp env fuel n use_ identifier w ≡ fresh_otp env fuel' n use_ identifier w
  unfolding fresh_otp
  fresh_otp_settled zero fuel' n j small small' free = absurd (ground arith)
  fresh_otp_settled (suc fuel) zero n j small small' free = absurd (ground arith)
  fresh_otp_settled (suc fuel) (suc fuel') n zero small small' free =
      let here : is_taken env w (text_of n) ≡ false = free_at (n + 0) n (omega arith) free in
      rw here refl
  fresh_otp_settled (suc fuel) (suc fuel') n (suc j) small small' free =
      let later : is_taken env w (text_of (suc n + j)) ≡ false =
        free_at (n + suc j) (suc n + j) (omega arith) free in
      let rest = fresh_otp_settled fuel fuel' (suc n) j (ground arith) (ground arith) later in
      rw rest refl

  -- What is stored, for a user in the table.
  generated :
      (law : IsLawful env) (clock : IsClock env) (u : User) (i : ℕ)
      → env.find u.id w.users ≡ some u
      → fresh_otp env env.tries 0 use_ identifier w ≡ text_of i
      → is_taken env w (text_of i) ≡ false
      → has_no_hyphen (env.draw i) ≡ true
      → generate_otp env u.id use_ identifier w ≡ (
        ok (some (env.draw i)),
        record w { users = env.write u.id (with_otp (some (text_of i)) u) w.users },
      )
  unfolding generate_otp set_otp part ◌>>=◌
  generated law clock u i listed drawn free plain =
      let parts = split-otp_text env clock use_ identifier (env.draw i) plain in
      let apart : env.find_first (has_otp (text_of i) u.id) w.users ≡ none =
        find_first_none env law (has_otp (text_of i) u.id) w.users (λ j r at_j.
          elim (Bool-cases (has_otp (text_of i) u.id r)) [
            | inr other ↦ other
            | inl has ↦ absurd (
                ground (
                  arith,
                  find_first_listed env law (otp_starts (text_of i)) w.users j r at_j
                      (holder_starts (text_of i) u.id r has),
                ))
          ]) in
      ground (arith)

  module _ (law : IsLawful env) (clock : IsClock env) (u : User) (j : ℕ)
      (listed : env.find u.id w.users ≡ some u) (small : j < env.tries)
      (free : is_taken env w (text_of j) ≡ false)
      (plain : (i : ℕ) → has_no_hyphen (env.draw i) ≡ true) where
    -- Where a code among those that may be drawn makes a text that no stored one starts with, the loop
    -- ends, with any sufficient number of tries alike, and such a text is stored and its code returned.
    -- The user is in the table, and no code has a hyphen.
    pub generate_otp_returns :
        (fuel : ℕ)
        → j < fuel
        → (fresh_otp env fuel 0 use_ identifier w ≡ fresh_otp env env.tries 0 use_ identifier w)
          × ((i : ℕ) × ((is_taken env w (text_of i) ≡ false)
                × (generate_otp env u.id use_ identifier w ≡ (
                  ok (some (env.draw i)),
                  record w { users = env.write u.id (with_otp (some (text_of i)) u) w.users },
                ))))
    generate_otp_returns fuel enough =
        let start = free_at j (0 + j) (omega arith) free in
        let (untaken, (i, drawn)) = fresh_otp_is_free env.tries 0 j small start in
        let new : is_taken env w (text_of i) ≡ false = rw (← drawn) untaken in
        (
          fresh_otp_settled fuel env.tries 0 j enough small start,
          (i, (new, generated law clock u i listed drawn new (plain i))),
        )

    pending :
        (i : ℕ)
        → ((k : ℕ) (r : User)
            → env.find k w.users ≡ some r
            → otp_starts (env.draw i) r ≡ true
            → k ≡ u.id)
        → IsPending env use_
            (env.draw i)
            (record w { users = env.write u.id (with_otp (some (text_of i)) u) w.users })
            (with_otp (some (text_of i)) u)
            (text_of i)
    pending i alone = record {
      row = record {
        listed = ground (arith, law.find-write u.id (with_otp (some (text_of i)) u) w.users u.id);
        meets = starts_with-append (env.draw i) _;
        sole = λ k r at_k starts. elim (Bool-cases (u.id == k)) [
          | inl same ↦ ground arith
          | inr apart ↦
              alone k r
                (ground (arith, law.find-write u.id (with_otp (some (text_of i)) u) w.users k))
                starts
        ];
      };
      stored = refl;
      rest = split (identifier_text identifier);
      parts = split-otp_text env clock use_ identifier (env.draw i) (plain i);
    }

    -- The code that `generateOtp` returns verifies once: the first `verifyOtp` with it and with the
    -- same use accepts, answers with the user and clears the stored text, and a second one is refused
    -- and changes nothing. The user is in the table, a free code is among those that may be drawn,
    -- no code has a hyphen, the password lasts a minute at least, and no other user's stored text starts
    -- with the code.
    pub sent_code_verifies_once :
        (code : List ℕ) (w' : World env)
        → generate_otp env u.id use_ identifier w ≡ (ok (some code), w')
        → ((k : ℕ) (r : User) → env.find k w.users ≡ some r → otp_starts code r ≡ true → k ≡ u.id)
        → 1 ≤ env.otp_minutes
        → let v = verify_otp env code use_ none none w' in
          ((i : ℕ) × (v.0 ≡ ok (accepted (with_otp (some (text_of i)) u))))
          × ((env.find u.id v.1.users ≡ some (with_otp none u))
              × (verify_otp env code use_ none none v.1
                  ≡ (ok (invalid "This OTP is invalid."), v.1)))
    sent_code_verifies_once code w' made alone long =
        let (_, (i, (_, stored))) = generate_otp_returns env.tries small in
        let same : code ≡ env.draw i = ground arith in
        let now : w' ≡ record w { users = env.write u.id (with_otp (some (text_of i)) u) w.users } =
          ap (λ x. x.1) (sym made ∙ stored) in
        let (answer, (kept, again)) =
          verifies_once env law clock use_ (env.draw i)
            (record w { users = env.write u.id (with_otp (some (text_of i)) u) w.users })
            (with_otp (some (text_of i)) u) (text_of i) (pending i (rw same at alone)) long in
        rw same (rw now ((i, answer), (kept, again)))
