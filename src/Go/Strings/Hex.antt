-- ===== src/Go/Strings/Hex.antt =====
-- encoding/hex: DecodeString, which reads back what EncodeToString writes.
use audistro_provider.Prelude.{
  ℕ, ◌+◌, ◌-◌, ◌*◌, ◌/◌, ◌%◌, ◌<◌, ◌≡◌, refl, true, ◌&&◌, Option, none, some, [], ◌∷◌, Text, leb,
  ltb, arith, all, if◌then◌else◌,
}
use audistro_provider.Go.Strings.{hex, hex_digit}

-- The value of a digit, in either case.
abbrev pub hex_value : ℕ → Option ℕ
hex_value c =
    if leb b'0' c && leb c b'9'
    then some (c - b'0')
    else if leb b'a' c && leb c b'f'
    then some (c - b'a' + 10)
    else if leb b'A' c && leb c b'F'
    then some (c - b'A' + 10)
    else none

abbrev with_byte : Option ℕ → Option ℕ → Option Text → Option Text
with_byte (some a) (some b) (some s) = some ((a * 16 + b) ∷ s)
with_byte _ _ _ = none

unfoldable pub decode_string : Text → Option Text
decode_string [] = some []
decode_string (c ∷ []) = none
decode_string (c ∷ d ∷ s) = with_byte (hex_value c) (hex_value d) (decode_string s)

hex_value-hex_digit : (n : ℕ) → n < 16 → hex_value (hex_digit n) ≡ some n
hex_value-hex_digit n h = ground arith

pub decode_string-hex : (s : Text) → all (λ b. ltb b 256) s ≡ true → decode_string (hex s) ≡ some s
unfolding decode_string hex
decode_string-hex [] h = refl
decode_string-hex (b ∷ s) h =
    rw
      (
        hex_value-hex_digit (b / 16) (ground arith),
        hex_value-hex_digit (b % 16) (ground arith),
        decode_string-hex s (ground arith),
      )
      (ground arith)

-- The digits are ASCII.
pub hex-ascii : (s : Text) → all (λ b. ltb b 256) s ≡ true → all (λ c. ltb c 128) (hex s) ≡ true
unfolding hex
hex-ascii [] h = refl
hex-ascii (b ∷ s) h = ground (arith, hex-ascii s)
