-- ===== src/Assets/Cors.antt =====
-- internal/assets/cors.go: the allowed origins, and the middleware around a handler.
pub mod Allowed
use audistro_provider.Prelude.{
  ℕ, Bool, true, false, List, [], ◌∷◌, ◌++◌, Option, none, some, Text, codes, any, text_eq,
  if◌then◌else◌,
}
use audistro_provider.Go.Strings.{split, trim_space}
use audistro_provider.Assets.Serve.{Method, get, head, options, other}

-- The set of origins, as the list of its elements.
abbrev add_origin : Text → List Text → List Text
add_origin part origins =
    if text_eq (trim_space part) [] then origins else trim_space part ∷ origins

unfoldable pub collect : List Text → List Text
collect [] = []
collect (part ∷ rest) = add_origin part (collect rest)

unfoldable pub parse_allowed_origins : Text → List Text
unfolding collect
parse_allowed_origins csv = collect (split b',' csv)

abbrev pub holds : List Text → Text → Bool
holds origins origin = any (λ o. text_eq o origin) origins

pub record CorsConfig : Type 0 where
  pub allowed_origins : List Text
  pub allow_credentials : Bool

-- Headers in the order in which they are set.
abbrev pub Headers : Type 0
Headers = List (Text × Text)

unfoldable pub set_cors_headers : Text → Bool → Headers
set_cors_headers origin allow_credentials =
    (codes "Access-Control-Allow-Origin", origin)
      ∷ (codes "Vary", codes "Origin")
      ∷ (if allow_credentials
          then (codes "Access-Control-Allow-Credentials", codes "true") ∷ []
          else [])
    ++ ((codes "Access-Control-Allow-Methods", codes "GET, HEAD, OPTIONS")
        ∷ (
          codes "Access-Control-Allow-Headers",
          codes "Range, If-Modified-Since, If-None-Match, Origin, Accept, Content-Type",
        )
        ∷ (
          codes "Access-Control-Expose-Headers",
          codes "Content-Length, Content-Range, Accept-Ranges, ETag, Last-Modified",
        )
        ∷ [])

-- What the middleware does with a request: it answers, or it passes the request on with headers set.
pub data Handled : Type 0 where
  answered : ℕ → Headers → Handled
  passed_on : Headers → Handled

abbrev preflight : CorsConfig → Text → Handled
preflight cfg origin =
    if holds cfg.allowed_origins origin
    then answered 204 (set_cors_headers origin cfg.allow_credentials)
    else answered 403 []

abbrev simple : CorsConfig → Text → Handled
simple cfg origin =
    passed_on (
      if holds cfg.allowed_origins origin
      then set_cors_headers origin cfg.allow_credentials
      else [])

-- The handler of `NewCORSMiddleware`; `origin` is the Origin header, empty where there is none.
unfoldable pub handle_cors : CorsConfig → Method → Text → Handled
handle_cors cfg options origin = preflight cfg origin
handle_cors cfg get origin = simple cfg origin
handle_cors cfg head origin = simple cfg origin
handle_cors cfg other origin = simple cfg origin
