-- ===== src/Go/Strconv/RoundTrip.antt =====
-- What FormatInt writes, ParseInt reads back, and hexadecimal texts determine their bytes.
use audistro_provider.Prelude.{
  ℕ, zero, suc, ◌+◌, ◌-◌, ◌*◌, ◌/◌, ◌%◌, ◌^◌, ◌<◌, ◌≡◌, refl, Bool, true, false, some, [], ◌∷◌,
  Text, arith, ltb, if◌then◌else◌, Bool-cases, inl, inr, sym, ◌∙◌, ap,
}
use native.Mathlib.Nat.{pow-suc}
use audistro_provider.Go.Int64.{ℤ, pos, negsuc, ◌≤ℤ◌, ◌<ℤ◌, sign_bit}
use audistro_provider.Go.Strings.{digits_from, decimal}
use audistro_provider.Go.Strconv.{is_digit, digits_value, parse_uint, in_range, parse_int}

digits_from-suc :
    (f n : ℕ) (acc : Text)
    → digits_from (suc f) n acc
      ≡ (if ltb n 10 then (b'0' + n % 10) ∷ acc else digits_from f (n / 10) ((b'0' + n % 10) ∷ acc))
unfolding digits_from
digits_from-suc f n acc = refl

digits_value-digit :
    (d v : ℕ) (acc : Text)
    → d < 10
    → digits_value ((b'0' + d) ∷ acc) v ≡ digits_value acc (v * 10 + d)
unfolding digits_value
digits_value-digit d v acc h =
    let digit : is_digit (b'0' + d) ≡ true = ground arith in
    let back : b'0' + d - b'0' ≡ d = omega arith in rw (digit, back) refl

digits_value-last :
    (n : ℕ) (acc : Text) → digits_value ((b'0' + n % 10) ∷ acc) (n / 10) ≡ digits_value acc n
digits_value-last n acc =
    digits_value-digit (n % 10) (n / 10) acc (omega arith) ∙ ap (digits_value acc) (omega arith)

-- One digit is left: the rounds end.
digits_value-small :
    (f n : ℕ) (acc : Text)
    → ltb n 10 ≡ true
    → digits_value (digits_from (suc f) n acc) 0 ≡ digits_value acc n
digits_value-small f n acc small =
    let tens : n / 10 ≡ 0 = ground arith in
    rw (digits_from-suc f n acc, small) (rw tens at (digits_value-last n acc))

digits_value-digits_from :
    (f n : ℕ) (acc : Text)
    → n < 10 ^ suc f
    → digits_value (digits_from (suc f) n acc) 0 ≡ digits_value acc n
digits_value-digits_from zero n acc h = digits_value-small zero n acc (ground arith)
digits_value-digits_from (suc f) n acc h = elim (Bool-cases (ltb n 10)) [
  | inl small ↦ digits_value-small (suc f) n acc small
  | inr large ↦
      let tens : n / 10 < 10 ^ suc f = omega (arith, pow-suc 10 (suc f)) in
      rw (digits_from-suc (suc f) n acc, large)
        (digits_value-digits_from f (n / 10) ((b'0' + n % 10) ∷ acc) tens ∙ digits_value-last n acc)
]

starts_digit : Text → Bool
starts_digit [] = false
starts_digit (c ∷ s) = is_digit c

digits_from-starts :
    (f n c : ℕ) (acc : Text) → is_digit c ≡ true → starts_digit (digits_from f n (c ∷ acc)) ≡ true
unfolding digits_from starts_digit
digits_from-starts zero n c acc h = h
digits_from-starts (suc f) n c acc h =
    ground (arith, digits_from-starts f (n / 10) (b'0' + n % 10) (c ∷ acc))

decimal-starts : (n : ℕ) → starts_digit (digits_from 20 n []) ≡ true
unfolding starts_digit
decimal-starts n =
    let digit : is_digit (b'0' + n % 10) ≡ true = ground arith in
    rw (digits_from-suc 19 n []) (elim (Bool-cases (ltb n 10)) [
      | inl small ↦ rw small digit
      | inr large ↦ rw large (digits_from-starts 19 (n / 10) (b'0' + n % 10) [] digit)
    ])

-- A text that starts with a digit has no sign.
parse_int-digits : (s : Text) → starts_digit s ≡ true → parse_int s ≡ in_range (digits_value s 0)
unfolding parse_int starts_digit
parse_int-digits [] h = cc
parse_int-digits (c ∷ s) h = ground arith

parse_uint-digits : (s : Text) → starts_digit s ≡ true → parse_uint s ≡ digits_value s 0
unfolding parse_uint starts_digit
parse_uint-digits [] h = cc
parse_uint-digits (c ∷ s) h = refl

value-decimal : (n : ℕ) → n < 10 ^ 20 → digits_value (digits_from 20 n []) 0 ≡ some n
unfolding digits_value
value-decimal n h = digits_value-digits_from 19 n [] h ∙ unfold digits_value in refl

-- The integers of 64 bits.
abbrev pub IsInt64 : ℤ → Type 0
IsInt64 z = (z <ℤ pos sign_bit) × (negsuc (sign_bit - 1) ≤ℤ z)

-- An int64 that FormatInt writes is read back by ParseInt.
pub parse_int-decimal : (z : ℤ) → IsInt64 z → parse_int (decimal z) ≡ some z
unfolding decimal parse_int
parse_int-decimal (pos n) h =
    parse_int-digits (digits_from 20 n []) (decimal-starts n)
    ∙ rw (value-decimal n (omega arith)) (ground arith)
parse_int-decimal (negsuc n) h =
    rw
      (
        parse_uint-digits (digits_from 20 (suc n) []) (decimal-starts (suc n)),
        value-decimal (suc n) (omega arith),
      )
      (ground arith)

pub decimal-injective : (y z : ℤ) → IsInt64 y → IsInt64 z → decimal y ≡ decimal z → y ≡ z
decimal-injective y z hy hz e =
    let same : some y ≡ some z =
      sym (parse_int-decimal y hy) ∙ (ap parse_int e ∙ parse_int-decimal z hz) in
    cc
