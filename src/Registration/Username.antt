-- ===== src/Registration/Username.antt =====
-- The username of who gives none: `generateUsername` of src/auth/auth.service.ts. Numbers are exact, as
-- those of the language are below 2^53.
pub mod Laws
mod Tests
use Prim.Native.String.{◌++◌ as append}
use nfc_payment_api.Prelude.{
  ℕ, zero, suc, ◌+◌, ◌-◌, ◌*◌, ◌/◌, ◌%◌, String, Bool, true, false, ◌&&◌, ◌||◌, Option, none, some,
  List, [], ◌∷◌, ◌==◌, ltb, leb, if◌then◌else◌, ◌≡◌, refl,
}
use nfc_payment_api.Prelude.Int.{ℤ, pos, negsuc, ◌+ℤ◌, ◌-ℤ◌, eq_ℤ}
use nfc_payment_api.Schema.{User}
use nfc_payment_api.External.{Env}
use nfc_payment_api.Regex.{codes, is_space, is_digit}
use nfc_payment_api.World.{World}

abbrev digit : ℕ → String
digit d =
    if d == 0
    then "0"
    else if d == 1
    then "1"
    else if d == 2
    then "2"
    else if d == 3
    then "3"
    else if d == 4
    then "4"
    else if d == 5
    then "5"
    else if d == 6
    then "6"
    else if d == 7
    then "7"
    else if d == 8
    then "8"
    else "9"

-- Decimal digits, on fuel; a number has fewer of them than its value and one.
print_digits : ℕ → ℕ → String
print_digits zero n = digit n
print_digits (suc fuel) n =
    let front = print_digits fuel (n / 10) in
    if ltb n 10 then digit n else append front (digit (n % 10))

abbrev print_number : ℤ → String
print_number (pos n) = print_digits (suc n) n
print_number (negsuc n) = append "-" (print_digits (suc (suc n)) (suc n))

-- The value of a digit in the base 10 or 16.
abbrev digit_value : ℕ → ℕ → Option ℕ
digit_value base c =
    if is_digit c
    then some (c - b'0')
    else if (base == 16) && (leb b'a' c && leb c b'f')
    then some (c - b'a' + 10)
    else if (base == 16) && (leb b'A' c && leb c b'F')
    then some (c - b'A' + 10)
    else none

abbrev or_zero : Option ℕ → ℕ
or_zero none = 0
or_zero (some n) = n

-- The digits that a text starts with.
read_digits : ℕ → Option ℕ → List ℕ → Option ℕ
read_digits base acc [] = acc
read_digits base acc (c ∷ l) = elim (digit_value base c) [
  | none ↦ acc
  | some d ↦ read_digits base (some (or_zero acc * base + d)) l
]

abbrev read_natural : List ℕ → Option ℕ
read_natural (a ∷ b ∷ l) =
    if (a == b'0') && ((b == b'x') || (b == b'X'))
    then read_digits 16 none l
    else read_digits 10 none (a ∷ b ∷ l)
read_natural l = read_digits 10 none l

abbrev positive : Option ℕ → Option ℤ
positive none = none
positive (some n) = some (pos n)

abbrev negative : Option ℕ → Option ℤ
negative none = none
negative (some n) = some (pos 0 -ℤ pos n)

skip_spaces : List ℕ → List ℕ
skip_spaces [] = []
skip_spaces (c ∷ l) = let rest = skip_spaces l in if is_space c then rest else c ∷ l

abbrev read_signed : List ℕ → Option ℤ
read_signed [] = none
read_signed (c ∷ l) =
    if c == b'-'
    then negative (read_natural l)
    else if c == b'+'
    then positive (read_natural l)
    else positive (read_natural (c ∷ l))

-- `parseInt`; NaN is none.
abbrev parse_int : List ℕ → Option ℤ
parse_int l = read_signed (skip_spaces l)

before_underscore : List ℕ → List ℕ
before_underscore [] = []
before_underscore (c ∷ l) = let rest = before_underscore l in if c == b'_' then [] else c ∷ rest

-- `split('_')[1]`
second_part : List ℕ → Option (List ℕ)
unfolding before_underscore
second_part [] = none
second_part (c ∷ l) =
    let rest = second_part l in if c == b'_' then some (before_underscore l) else rest

-- The number after a username's underscore, unless it is 0 or no number.
pub username_number : String → Option ℤ
username_number name = elim (second_part (codes name)) [
  | none ↦ none
  | some part ↦ elim (parse_int part) [
    | none ↦ none
    | some n ↦ if eq_ℤ n (pos 0) then none else some n
  ]
]

module _ (env : Env) where
  -- The username of the latest user whose username starts with the name.
  abbrev pub username_starting : String → ℕ × User → Option String
  username_starting name x = elim x.1.username [
    | none ↦ none
    | some n ↦ if env.starts_insensitive name n then some n else none
  ]

  pub latest_username : String → List (ℕ × User) → Option String
  latest_username name [] = none
  latest_username name (x ∷ l) =
      let rest = latest_username name l in
      elim (username_starting name x) [ none ↦ rest | some n ↦ some n ]

  abbrev numbered : String → Option ℤ → String
  numbered first none = append (env.lower_case first) "_1"
  numbered first (some n) = append (env.lower_case first) (append "_" (print_number (n +ℤ pos 1)))

  abbrev next_username : String → Option String → String
  next_username first none = env.lower_case first
  next_username first (some name) = numbered first (username_number name)

  pub generate_username : String → World env → String
  generate_username first w = next_username first (latest_username first (env.listed w.users))

  -- After a username without a number comes the number 1.
  pub generate_username-unnumbered :
      (first name : String) (w : World env)
      → latest_username first (env.listed w.users) ≡ some name
      → username_number name ≡ none
      → generate_username first w ≡ append (env.lower_case first) "_1"
  unfolding generate_username
  generate_username-unnumbered first name w latest unnumbered = rw (latest, unnumbered) refl
