-- ===== src/Go/Header.antt =====
-- net/http.Header: a map from a key in its canonical form to the values of that header.
use audistro_provider.Prelude.{
  ℕ, ◌-◌, Bool, true, ◌&&◌, ◌||◌, Option, none, some, List, [], ◌∷◌, Text, codes, all, any, leb,
  ◌==◌, if◌then◌else◌,
}
use audistro_provider.Go.Strings.{lower_byte}
use audistro_provider.Go.Map.{Map, lookup, insert, delete}

abbrev pub Header : Type 0
Header = Map (List Text)

abbrev within : ℕ → ℕ → ℕ → Bool
within low high c = leb low c && leb c high

-- The bytes of a token, of which a key has to consist.
abbrev is_token_byte : ℕ → Bool
is_token_byte c =
    within b'0' b'9' c
    || within b'A' b'Z' c
    || within b'a' b'z' c
    || any (λ d. d == c) (codes "!#$%&'*+-.^_`|~")

abbrev upper_byte : ℕ → ℕ
upper_byte c = if within b'a' b'z' c then c - 32 else c

abbrev capitals : Bool → Text → Text
capitals upper [] = []
capitals upper (c ∷ s) = (if upper then upper_byte c else lower_byte c) ∷ capitals (c == b'-') s

-- textproto.CanonicalMIMEHeaderKey.
unfoldable pub canonical_key : Text → Text
canonical_key s = if all is_token_byte s then capitals true s else s

abbrev first_of : Option (List Text) → Text
first_of none = []
first_of (some []) = []
first_of (some (v ∷ vs)) = v

unfoldable pub get : Text → Header → Text
get key h = first_of (lookup (canonical_key key) h)

unfoldable pub del : Text → Header → Header
del key h = delete (canonical_key key) h

unfoldable pub set : Text → Text → Header → Header
set key value h = insert (canonical_key key) (value ∷ []) h
