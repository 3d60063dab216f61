-- ===== src/Go/Strconv.antt =====
-- The parsers of package strconv that the program calls: ParseInt(s, 10, 64), which Atoi agrees with
-- on a 64-bit machine, and ParseBool. `none` is an error.
pub mod RoundTrip
use audistro_provider.Prelude.{
  ℕ, ◌+◌, ◌-◌, ◌*◌, ◌≤◌, Bool, true, false, ◌&&◌, ◌||◌, Option, none, some, List, [], ◌∷◌, Text,
  codes, any, text_eq, ltb, leb, ◌==◌, if◌then◌else◌,
}
use audistro_provider.Go.Int64.{ℤ, pos, negsuc, sub_ℕ, sign_bit}

abbrev pub is_digit : ℕ → Bool
is_digit c = leb b'0' c && leb c b'9'

-- The number of a row of digits behind the digits of `acc`.
unfoldable pub digits_value : Text → ℕ → Option ℕ
digits_value [] acc = some acc
digits_value (c ∷ s) acc =
    let rest = digits_value s (acc * 10 + (c - b'0')) in if is_digit c then rest else none

unfoldable pub parse_uint : Text → Option ℕ
unfolding digits_value
parse_uint [] = none
parse_uint (c ∷ s) = digits_value (c ∷ s) 0

abbrev pub in_range : Option ℕ → Option ℤ
in_range none = none
in_range (some n) = if ltb n sign_bit then some (pos n) else none

abbrev pub in_negative_range : Option ℕ → Option ℤ
in_negative_range none = none
in_negative_range (some n) = if leb n sign_bit then some (sub_ℕ 0 n) else none

unfoldable pub parse_int : Text → Option ℤ
unfolding parse_uint
parse_int [] = none
parse_int (c ∷ s) =
    if c == b'+'
    then in_range (parse_uint s)
    else if c == b'-'
    then in_negative_range (parse_uint s)
    else in_range (parse_uint (c ∷ s))

abbrev one_of : Text → List Text → Bool
one_of s texts = any (λ t. text_eq t s) texts

unfoldable pub parse_bool : Text → Option Bool
parse_bool s =
    if one_of s
      (codes "1" ∷ codes "t" ∷ codes "T" ∷ codes "true" ∷ codes "TRUE" ∷ codes "True" ∷ [])
    then some true
    else if one_of s
        (codes "0" ∷ codes "f" ∷ codes "F" ∷ codes "false" ∷ codes "FALSE" ∷ codes "False" ∷ [])
    then some false
    else none
