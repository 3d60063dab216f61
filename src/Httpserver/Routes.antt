-- ===== src/Httpserver/Routes.antt =====
-- Which requests are held against the contract, openapi_validation.go.
use audistro_provider.Prelude.{
  ◌≡◌, refl, ◌↔◌, Bool, true, false, some, List, [], ◌∷◌, ◌++◌, Text, codes, any, text_eq, arith,
}
use audistro_provider.Go.Strings.{has_prefix, trim_prefix}
use audistro_provider.Assets.Paths.Names.{has_prefix-trim_prefix}
use audistro_provider.Httpserver.{
  should_validate_open_api_request, media_type, request_content_type_allowed, route, passed,
  open_api_validation,
}

validates-internal :
    (rest : Text) → should_validate_open_api_request (codes "/internal/" ++ rest) ≡ true
unfolding should_validate_open_api_request has_prefix text_eq
validates-internal rest = refl

-- The media type is one of the list.
abbrev pub accepts : List Text → Text → Bool
accepts types header = any (λ u. text_eq u (media_type header)) types

-- A request of the internal API for a route with a body is passed on exactly if it validates and its
-- media type is one of the route's, and not empty.
pub open_api_validation-passed_iff :
    (path header : Text) (t : Text) (types : List Text) (valid : Bool)
    → has_prefix path (codes "/internal/") ≡ true
    → (open_api_validation (route (some (t ∷ types)) valid) path header ≡ passed) ↔ (
        (valid ≡ true)
        × (text_eq (media_type header) [] ≡ false)
        × (accepts (t ∷ types) header ≡ true))
unfolding open_api_validation request_content_type_allowed
open_api_validation-passed_iff path header t types valid internal =
    let split = has_prefix-trim_prefix path (codes "/internal/") internal in
    let held = validates-internal (trim_prefix path (codes "/internal/")) in
    rw (split, held) (ground arith)
