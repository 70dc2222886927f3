-- ===== src/External/Memory.antt =====
-- A database in memory that meets the laws: a table is the list of its rows by identifier, with gaps.
-- A row is created at the time that its identifier gives. No row is recent, and no percentage is taken. The processor agrees to every transfer, and reports 250 naira for every charge.
use mathlib.Core.Option
use mathlib.Core.List.Permᴰ
use mathlib.Core.List.{Mem, mem-cons_self, mem-append_left, mem-append_right}
use nfc_payment_api.Prelude.{
  ℕ, zero, suc, ◌≡◌, ◌≢◌, refl, Bool, true, false, Option, none, some, List, [], ◌∷◌, ◌++◌, ◌==◌,
  ◌+◌, ◌-◌, ◌*◌, ◌/◌, if◌then◌else◌, arith, str_eq, Bool-cases, inl, inr,
}
use nfc_payment_api.External.{Env, IsLawful, kept_row, access, refresh, answered}
use nfc_payment_api.Prelude.Int.{pos, naira}
use nfc_payment_api.Regex.{codes}

abbrev pub Rows : Type 0 → Type 0
Rows Row = List (Option Row)

module _ {Row : Type 0} where
  abbrev row_at : ℕ → Rows Row → Option Row
  row_at k [] = none
  row_at zero (o ∷ t) = o
  row_at (suc k) (o ∷ t) = row_at k t

  abbrev put_row : ℕ → Row → Rows Row → Rows Row
  put_row zero r [] = some r ∷ []
  put_row zero r (o ∷ t) = some r ∷ t
  put_row (suc k) r [] = none ∷ put_row k r []
  put_row (suc k) r (o ∷ t) = o ∷ put_row k r t

  abbrev drop_row : ℕ → Rows Row → Rows Row
  drop_row k [] = []
  drop_row zero (o ∷ t) = none ∷ t
  drop_row (suc k) (o ∷ t) = o ∷ drop_row k t

  abbrev drop_rows : (Row → Bool) → Rows Row → Rows Row
  drop_rows p [] = []
  drop_rows p (o ∷ t) = kept_row p o ∷ drop_rows p t

  abbrev change_rows : (Row → Row) → Rows Row → Rows Row
  change_rows f [] = []
  change_rows f (o ∷ t) = Option.map f o ∷ change_rows f t

  abbrev first_row : (Row → Bool) → Rows Row → Option Row
  first_row p [] = none
  first_row p (none ∷ t) = first_row p t
  first_row p (some r ∷ t) = if p r then some r else first_row p t

  abbrev next_id : Rows Row → ℕ
  next_id [] = 0
  next_id (o ∷ t) = suc (next_id t)

  abbrev listed_from : ℕ → Rows Row → List (ℕ × Row)
  listed_from n [] = []
  listed_from n (none ∷ t) = listed_from (suc n) t
  listed_from n (some r ∷ t) = listed_from (suc n) t ++ (n, r) ∷ []

  listed_from_complete :
      (n : ℕ) (t : Rows Row) (k : ℕ) (r : Row)
      → row_at k t ≡ some r
      → (time : ℕ) × Mem (time, r) (listed_from n t)
  listed_from_complete n [] k r h = cc
  listed_from_complete n (none ∷ t) zero r h = cc
  listed_from_complete n (none ∷ t) (suc k) r h = listed_from_complete (suc n) t k r h
  listed_from_complete n (some x ∷ t) zero r h =
      let same : r ≡ x = ground arith in
      (n, rw same (mem-append_right (listed_from (suc n) t) mem-cons_self))
  listed_from_complete n (some x ∷ t) (suc k) r h =
      let (time, there) = listed_from_complete (suc n) t k r h in
      (time, mem-append_left ((n, x) ∷ []) there)

  row_at-put_row :
      (k : ℕ) (r : Row) (t : Rows Row) (j : ℕ)
      → row_at j (put_row k r t) ≡ (if k == j then some r else row_at j t)
  row_at-put_row zero r [] zero = refl
  row_at-put_row zero r [] (suc j) = ground arith
  row_at-put_row zero r (o ∷ t) zero = refl
  row_at-put_row zero r (o ∷ t) (suc j) = ground arith
  row_at-put_row (suc k) r [] zero = ground arith
  row_at-put_row (suc k) r [] (suc j) = ground (arith, row_at-put_row k r [] j)
  row_at-put_row (suc k) r (o ∷ t) zero = ground arith
  row_at-put_row (suc k) r (o ∷ t) (suc j) = ground (arith, row_at-put_row k r t j)

  row_at-drop_row :
      (k : ℕ) (t : Rows Row) (j : ℕ)
      → row_at j (drop_row k t) ≡ (if k == j then none else row_at j t)
  row_at-drop_row k [] j = ground arith
  row_at-drop_row zero (o ∷ t) zero = refl
  row_at-drop_row zero (o ∷ t) (suc j) = ground arith
  row_at-drop_row (suc k) (o ∷ t) zero = ground arith
  row_at-drop_row (suc k) (o ∷ t) (suc j) = ground (arith, row_at-drop_row k t j)

  row_at-drop_rows :
      (p : Row → Bool) (t : Rows Row) (j : ℕ) → row_at j (drop_rows p t) ≡ kept_row p (row_at j t)
  row_at-drop_rows p [] j = refl
  row_at-drop_rows p (o ∷ t) zero = refl
  row_at-drop_rows p (o ∷ t) (suc j) = row_at-drop_rows p t j

  row_at-change_rows :
      (f : Row → Row) (t : Rows Row) (j : ℕ)
      → row_at j (change_rows f t) ≡ Option.map f (row_at j t)
  row_at-change_rows f [] j = refl
  row_at-change_rows f (o ∷ t) zero = refl
  row_at-change_rows f (o ∷ t) (suc j) = row_at-change_rows f t j

  row_at-next_id : (t : Rows Row) → row_at (next_id t) t ≡ none
  row_at-next_id [] = refl
  row_at-next_id (o ∷ t) = row_at-next_id t

  first_row_sound :
      (p : Row → Bool) (t : Rows Row) (r : Row)
      → first_row p t ≡ some r
      → (p r ≡ true) × ((k : ℕ) × (row_at k t ≡ some r))
  first_row_sound p [] r h = cc
  first_row_sound p (none ∷ t) r h =
      let (holds, there) = first_row_sound p t r h in (holds, (suc there.0, there.1))
  first_row_sound p (some x ∷ t) r h = elim (Bool-cases (p x)) [
    | inl here ↦ (ground arith, (0, ground arith))
    | inr later ↦
        let (holds, there) = first_row_sound p t r (ground arith) in (holds, (suc there.0, there.1))
  ]

  first_row_complete :
      (p : Row → Bool) (t : Rows Row) (k : ℕ) (r : Row)
      → row_at k t ≡ some r
      → p r ≡ true
      → first_row p t ≢ none
  first_row_complete p [] k r h q = cc
  first_row_complete p (none ∷ t) zero r h q = cc
  first_row_complete p (none ∷ t) (suc k) r h q = first_row_complete p t k r h q
  first_row_complete p (some x ∷ t) zero r h q = ground arith
  first_row_complete p (some x ∷ t) (suc k) r h q = ground (arith, first_row_complete p t k r h q)

abbrev starts : List ℕ → List ℕ → Bool
starts [] l = true
starts (a ∷ p) [] = false
starts (a ∷ p) (b ∷ l) = if a == b then starts p l else false

abbrev parsed_time : List ℕ → Option ℕ
parsed_time (c ∷ []) = some ((c - 46) * 1000)
parsed_time _ = none

abbrev pub memory : Env
memory = record {
  Table = Rows;
  find = row_at;
  write = put_row;
  remove = drop_row;
  remove_rows = drop_rows;
  map_rows = change_rows;
  find_first = first_row;
  new_id = next_id;
  verify = str_eq;
  hash = λ s. s;
  sign = λ secret subject phone. elim secret [ access ↦ "access" | refresh ↦ "refresh" ];
  new_device_id = "device";
  new_totp_secret = "totp";
  totp_valid = str_eq;
  now = 86400000;
  printed_now = "86400000";
  mail_taken = λ address. true;
  recent_sum = λ p f t. none;
  percent_of = λ p x. pos 0;
  search_number = λ number. none;
  draw = λ n. 49 ∷ (49 + n) ∷ [];
  tries = 3;
  otp_minutes = 10;
  print_time = λ t. (t / 1000 + 46) ∷ [];
  parse_time = parsed_time;
  listed = listed_from 0;
  ordered = λ p k n t. listed_from 0 t;
  number_of_transactions = none;
  day_bounds = λ t. (t / 86400000 * 86400000, t / 86400000 * 86400000 + 86399999);
  lower_case = λ s. s;
  starts_insensitive = λ p s. starts (codes p) (codes s);
  credits_per_referral = some (naira 50);
  banks_cached = false;
  find_bank = λ slug. some (record { slug = slug; code = "057" });
  resolve_account = λ number code.
      some (record { account_name = some "ADA OBI"; message = "Account number resolved" });
  node_env = "prod";
  initiate_transfer = λ p. answered true p.reference p.amount;
  create_account = λ email amount reference.
      some
        (record { success = true; bank_name = some "Zenith"; account_number = some "0123456789" });
  verify_charge = λ id. some ("successful", naira 250);
}

pub memory-IsLawful : IsLawful memory
memory-IsLawful = record {
  verify-hash = λ p q. refl;
  find-write = row_at-put_row;
  find-remove = row_at-drop_row;
  find-remove_rows = row_at-drop_rows;
  find-map_rows = row_at-change_rows;
  find-new_id = row_at-next_id;
  find_first_sound = first_row_sound;
  find_first_complete = first_row_complete;
  listed_complete = listed_from_complete 0;
  ordered-listed = λ p k n t. Permᴰ.refl (listed_from 0 t);
}
