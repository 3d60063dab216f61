-- ===== src/Go/Strings.antt =====
-- The functions of packages strings, strconv, encoding/hex and path/filepath that the program
-- calls, on texts of ASCII bytes. White space is the ASCII white space of unicode.IsSpace.
pub mod Fields
pub mod Trim
pub mod Hex
use audistro_provider.Prelude.{
  ℕ, zero, suc, ◌+◌, ◌-◌, ◌/◌, ◌%◌, Bool, true, false, ◌&&◌, ◌||◌, List, [], ◌∷◌, Text, ltb, leb,
  ◌==◌, if◌then◌else◌,
}
use mathlib.Core.List.{reverse}
use audistro_provider.Go.Int64.{ℤ, pos, negsuc}

abbrev pub is_space : ℕ → Bool
is_space c = leb 9 c && leb c 13 || c == 32

-- strings.TrimLeftFunc, TrimRightFunc and TrimSpace.
unfoldable pub trim_left : (ℕ → Bool) → Text → Text
trim_left p [] = []
trim_left p (c ∷ s) = if p c then trim_left p s else c ∷ s

unfoldable pub trim_right : (ℕ → Bool) → Text → Text
unfolding trim_left
trim_right p s = reverse (trim_left p (reverse s))

unfoldable pub trim_space : Text → Text
unfolding trim_right
trim_space s = trim_right is_space (trim_left is_space s)

abbrev pub lower_byte : ℕ → ℕ
lower_byte c = if leb b'A' c && leb c b'Z' then c + 32 else c

unfoldable pub to_lower : Text → Text
to_lower [] = []
to_lower (c ∷ s) = lower_byte c ∷ to_lower s

unfoldable pub has_prefix : Text → Text → Bool
has_prefix s [] = true
has_prefix [] (p ∷ ps) = false
has_prefix (c ∷ s) (p ∷ ps) = c == p && has_prefix s ps

unfoldable pub has_suffix : Text → Text → Bool
unfolding has_prefix
has_suffix s suffix = has_prefix (reverse s) (reverse suffix)

unfoldable pub trim_prefix : Text → Text → Text
unfolding has_prefix
trim_prefix s [] = s
trim_prefix [] (p ∷ ps) = []
trim_prefix (c ∷ s) (p ∷ ps) = if has_prefix (c ∷ s) (p ∷ ps) then trim_prefix s ps else c ∷ s

-- strings.Contains.
unfoldable pub contains_text : Text → Text → Bool
unfolding has_prefix
contains_text [] sub = has_prefix [] sub
contains_text (c ∷ s) sub = has_prefix (c ∷ s) sub || contains_text s sub

abbrev pub prepend : ℕ → List Text → List Text
prepend c [] = (c ∷ []) ∷ []
prepend c (part ∷ parts) = (c ∷ part) ∷ parts

-- strings.Split(s, string(sep)): one part more than there are separators.
unfoldable pub split : ℕ → Text → List Text
split sep [] = [] ∷ []
split sep (c ∷ s) = let rest = split sep s in if c == sep then [] ∷ rest else prepend c rest

-- strings.SplitN(s, string(sep), 2): the text before the first separator and the text after it.
pub data Cut : Type 0 where
  whole : Text → Cut
  parts : Text → Text → Cut

abbrev pub prepend_cut : ℕ → Cut → Cut
prepend_cut c (whole s) = whole (c ∷ s)
prepend_cut c (parts s t) = parts (c ∷ s) t

unfoldable pub split_two : ℕ → Text → Cut
split_two sep [] = whole []
split_two sep (c ∷ s) =
    let rest = split_two sep s in if c == sep then parts [] s else prepend_cut c rest

-- filepath.Ext: from the last dot of the last path element.
unfoldable pub ext_from : Text → Text → Text
ext_from found [] = found
ext_from found (c ∷ s) = ext_from (if c == b'/' then [] else if c == b'.' then c ∷ s else found) s

unfoldable pub ext : Text → Text
unfolding ext_from
ext s = ext_from [] s

-- strconv.FormatInt(n, 10), by fuel above the number of digits; 20 digits hold 64 bits.
unfoldable pub digits_from : ℕ → ℕ → Text → Text
digits_from zero n acc = acc
digits_from (suc fuel) n acc =
    let d = b'0' + n % 10 in
    let rest = digits_from fuel (n / 10) (d ∷ acc) in if ltb n 10 then d ∷ acc else rest

unfoldable pub decimal : ℤ → Text
unfolding digits_from
decimal (pos n) = digits_from 20 n []
decimal (negsuc n) = b'-' ∷ digits_from 20 (suc n) []

abbrev pub hex_digit : ℕ → ℕ
hex_digit n = if ltb n 10 then b'0' + n else b'a' + (n - 10)

-- hex.EncodeToString.
unfoldable pub hex : Text → Text
hex [] = []
hex (b ∷ bytes) = hex_digit (b / 16) ∷ hex_digit (b % 16) ∷ hex bytes
