-- ===== src/Regex.antt =====
-- Regular expressions over code points, matched by derivatives: what
-- src/common/helpers/general.helpers.ts asks of the RegExp of JavaScript.
use Prim.Native.Char.{code}
use Prim.Native.String.{String}
use nfc_payment_api.Prelude.{
  ℕ, Bool, true, false, List, [], ◌∷◌, ◌&&◌, ◌||◌, ◌==◌, leb, if◌then◌else◌,
}

-- `String` has its own `[]` and `∷`.
abbrev pub codes : String → List ℕ
codes String.[] = []
codes (String.◌∷◌ c s) = code c ∷ codes s

pub data Regex : Type 0 where
  nothing : Regex
  empty : Regex
  one : (ℕ → Bool) → Regex
  seq alt : Regex → Regex → Regex
  star : Regex → Regex

abbrev pub optional : Regex → Regex
optional r = alt r empty

abbrev pub some_of : Regex → Regex
some_of r = seq r (star r)

unfoldable pub nullable : Regex → Bool
nullable nothing = false
nullable empty = true
nullable (one p) = false
nullable (seq r s) = nullable r && nullable s
nullable (alt r s) = nullable r || nullable s
nullable (star r) = true

unfoldable pub derivative : ℕ → Regex → Regex
unfolding nullable
derivative c nothing = nothing
derivative c empty = nothing
derivative c (one p) = if p c then empty else nothing
derivative c (seq r s) =
    let rest = seq (derivative c r) s in
    let skip = derivative c s in if nullable r then alt rest skip else rest
derivative c (alt r s) = alt (derivative c r) (derivative c s)
derivative c (star r) = seq (derivative c r) (star r)

-- `/^r$/.test(s)`
unfoldable pub matches : Regex → List ℕ → Bool
unfolding nullable derivative
matches r [] = nullable r
matches r (c ∷ s) = matches (derivative c r) s

abbrev pub is_line_end : ℕ → Bool
is_line_end c = c == 10 || (c == 13 || (c == 0x2028 || c == 0x2029))

-- A match from here that stops at the end of a line.
unfoldable pub matches_line : Regex → List ℕ → Bool
unfolding nullable derivative
matches_line r [] = nullable r
matches_line r (c ∷ s) =
    let rest = matches_line (derivative c r) s in if nullable r && is_line_end c then true else rest

matches_later : Regex → List ℕ → Bool
unfolding matches_line
matches_later r [] = false
matches_later r (c ∷ s) =
    let here = matches_line r s in
    let rest = matches_later r s in if is_line_end c && here then true else rest

-- `/^r$/m.test(s)`
unfoldable pub matches_some_line : Regex → List ℕ → Bool
unfolding matches_line matches_later
matches_some_line r s = matches_line r s || matches_later r s

-- `\s`
abbrev pub is_space : ℕ → Bool
is_space c =
    (leb 9 c && leb c 13)
    || (c == 32
        || (c == 160
            || (c == 0x1680
                || ((leb 0x2000 c && leb c 0x200a)
                    || (c == 0x2028
                        || (c == 0x2029
                            || (c == 0x202f || (c == 0x205f || (c == 0x3000 || c == 0xfeff)))))))))

-- `[0-9]`
abbrev pub is_digit : ℕ → Bool
is_digit c = leb b'0' c && leb c b'9'
