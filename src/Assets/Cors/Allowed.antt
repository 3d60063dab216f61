-- ===== src/Assets/Cors/Allowed.antt =====
-- Which origins see the headers, cors.go.
use audistro_provider.Prelude.{
  ◌≡◌, refl, ◌↔◌, inl, inr, Bool, false, not, ◌&&◌, List, [], ◌∷◌, Text, any, text_eq, text_eq_iff,
  if◌then◌else◌, arith, Bool-cases,
}
use audistro_provider.Go.Strings.{split, trim_space}
use audistro_provider.Assets.Serve.{Method, get, head, options, other}
use audistro_provider.Assets.Cors.{
  collect, parse_allowed_origins, holds, CorsConfig, Headers, set_cors_headers, Handled, answered,
  passed_on, handle_cors,
}

abbrev pub headers_of : Handled → Headers
headers_of (answered status headers) = headers
headers_of (passed_on headers) = headers

-- A part of the list names the origin.
abbrev pub names : Text → List Text → Bool
names origin parts = any (λ part. text_eq (trim_space part) origin) parts

holds-collect :
    (origin : Text) (parts : List Text)
    → holds (collect parts) origin ≡ (not (text_eq origin []) && names origin parts)
unfolding collect
holds-collect origin [] = ground arith
holds-collect origin (part ∷ rest) = ground (
  arith,
  holds-collect origin rest,
  text_eq_iff (trim_space part) origin,
  text_eq_iff (trim_space part) [],
  text_eq_iff origin [],
)

-- The configuration of a comma-separated list.
abbrev pub of_list : Text → Bool → CorsConfig
of_list csv allow_credentials = record {
  allowed_origins = parse_allowed_origins csv;
  allow_credentials = allow_credentials;
}

-- Whether the list allows the origin: it names it, white space aside, and it is not empty.
abbrev pub allows : Text → Text → Bool
allows csv origin = not (text_eq origin []) && names origin (split b',' csv)

holds-parse_allowed_origins :
    (csv origin : Text) → holds (parse_allowed_origins csv) origin ≡ allows csv origin
unfolding parse_allowed_origins
holds-parse_allowed_origins csv origin = holds-collect origin (split b',' csv)

-- A request sees the headers for its own origin exactly if the configured list names that origin,
-- white space aside, and the origin is not empty; it sees none otherwise. It is refused exactly if it
-- is a preflight of an origin that the list does not allow.
pub handle_cors-allows :
    (csv : Text) (allow_credentials : Bool) (m : Method) (origin : Text)
    → (headers_of (handle_cors (of_list csv allow_credentials) m origin)
        ≡ (if allows csv origin then set_cors_headers origin allow_credentials else []))
      × ((handle_cors (of_list csv allow_credentials) m origin ≡ answered 403 [])
          ↔ ((m ≡ options) × (allows csv origin ≡ false)))
unfolding handle_cors
handle_cors-allows csv c get origin =
    (rw (holds-parse_allowed_origins csv origin) refl, ((λ e. cc), (λ (p, q). cc)))
handle_cors-allows csv c head origin =
    (rw (holds-parse_allowed_origins csv origin) refl, ((λ e. cc), (λ (p, q). cc)))
handle_cors-allows csv c other origin =
    (rw (holds-parse_allowed_origins csv origin) refl, ((λ e. cc), (λ (p, q). cc)))
handle_cors-allows csv c options origin =
    rw (holds-parse_allowed_origins csv origin) (elim (Bool-cases (allows csv origin)) [
      | inl allowed ↦ rw allowed (refl, ((λ e. ground arith), (λ (p, q). cc)))
      | inr forbidden ↦ rw forbidden (refl, ((λ e. (refl, refl)), (λ p. refl)))
    ])
