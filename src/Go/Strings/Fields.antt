-- ===== src/Go/Strings/Fields.antt =====
-- Texts that are put together from fields: a separator that no field holds tells them apart.
use audistro_provider.Prelude.{
  ℕ, zero, suc, ◌+◌, ◌/◌, ◌%◌, ◌<◌, ◌≡◌, refl, Bool, true, not, [], ◌∷◌, ◌++◌, Text, all, arith,
  ◌==◌, All,
}
use audistro_provider.Go.Int64.{ℤ, pos, negsuc}
use audistro_provider.Go.Strings.{digits_from, decimal, hex_digit, hex}

-- The text does not hold the byte.
abbrev pub avoids : ℕ → Text → Bool
avoids sep = all (λ c. not (c == sep))

-- Two fields that avoid the separator, each with the separator and a rest behind it.
pub cut_unique :
    (sep : ℕ) (a a' b b' : Text)
    → avoids sep a ≡ true
    → avoids sep a' ≡ true
    → a ++ sep ∷ b ≡ a' ++ sep ∷ b'
    → (a ≡ a') × (b ≡ b')
cut_unique sep [] [] b b' h h' e = (refl, cc)
cut_unique sep [] (d ∷ a') b b' h h' e = absurd (ground arith)
cut_unique sep (c ∷ a) [] b b' h h' e = absurd (ground arith)
cut_unique sep (c ∷ a) (d ∷ a') b b' h h' e =
    let (same, rest) = cut_unique sep a a' b b' (ground arith) (ground arith) (ground arith) in
    (ground arith, rest)

pub digits_from-avoids :
    (sep f n : ℕ) (acc : Text)
    → sep < b'-'
    → avoids sep acc ≡ true
    → avoids sep (digits_from f n acc) ≡ true
unfolding digits_from
digits_from-avoids sep zero n acc h free = free
digits_from-avoids sep (suc f) n acc h free =
    ground (arith, digits_from-avoids sep f (n / 10) ((b'0' + n % 10) ∷ acc))

-- A number's text holds nothing below the minus sign.
pub decimal-avoids : (sep : ℕ) (z : ℤ) → sep < b'-' → avoids sep (decimal z) ≡ true
unfolding decimal
decimal-avoids sep (pos n) h = digits_from-avoids sep 20 n [] h refl
decimal-avoids sep (negsuc n) h = ground (arith, digits_from-avoids sep 20 (suc n) [] h refl)

pub hex-avoids : (sep : ℕ) (bytes : Text) → sep < b'0' → avoids sep (hex bytes) ≡ true
unfolding hex
hex-avoids sep [] h = refl
hex-avoids sep (b ∷ bytes) h = ground (arith, hex-avoids sep bytes)

hex_digit-injective : (m n : ℕ) → m < 16 → n < 16 → hex_digit m ≡ hex_digit n → m ≡ n
hex_digit-injective m n hm hn e = ground arith

-- Bytes are told by their hexadecimal text.
pub hex-injective :
    (s t : Text) → All (λ b. b < 256) s → All (λ b. b < 256) t → hex s ≡ hex t → s ≡ t
unfolding hex
hex-injective [] [] hs ht e = refl
hex-injective [] (c ∷ t) hs ht e = cc
hex-injective (b ∷ s) [] hs ht e = cc
hex-injective (b ∷ s) (c ∷ t) hs ht e = ground (
  arith,
  hex-injective s t,
  hex_digit-injective (b / 16) (c / 16),
  hex_digit-injective (b % 16) (c % 16),
)
