-- ===== src/Httpserver.antt =====
-- internal/httpserver: the labels of routes (metrics_middleware.go), and which requests are held
-- against the API's contract (openapi_validation.go). The contract and its library are arguments.
pub mod Routes
pub mod Routing
pub mod Middleware
use audistro_provider.Prelude.{
  ℕ, Bool, true, false, not, ◌||◌, Option, none, some, List, [], ◌∷◌, Text, codes, any, text_eq,
  if◌then◌else◌,
}
use audistro_provider.Go.Strings.{has_prefix, split, to_lower, trim_space}

pub data RouteLabel : Type 0 where
  healthz readyz metrics assets internal_rescan internal_announce other : RouteLabel

unfoldable pub route_label : Text → RouteLabel
route_label path =
    if text_eq path (codes "/healthz")
    then healthz
    else if text_eq path (codes "/readyz")
    then readyz
    else if text_eq path (codes "/metrics")
    then metrics
    else if has_prefix path (codes "/assets/")
    then assets
    else if text_eq path (codes "/internal/rescan")
    then internal_rescan
    else if text_eq path (codes "/internal/announce")
    then internal_announce
    else other

abbrev is_document : Text → Bool
is_document path =
    text_eq path (codes "/openapi.yaml")
    || text_eq path (codes "/openapi.json")
    || text_eq path (codes "/docs")
    || text_eq path (codes "/docs/")

unfoldable pub should_validate_open_api_request : Text → Bool
should_validate_open_api_request path =
    if text_eq path (codes "/healthz") || text_eq path (codes "/readyz")
    then true
    else if text_eq path (codes "/metrics")
    then false
    else if is_document path
    then false
    else if has_prefix path (codes "/assets/")
    then false
    else has_prefix path (codes "/internal/")

abbrev first : List Text → Text
first [] = []
first (part ∷ rest) = part

abbrev pub media_type : Text → Text
media_type header = trim_space (to_lower (first (split b';' header)))

-- `requestContentTypeAllowed`, by the content types of the route's request body; none where the
-- route has no body.
unfoldable pub request_content_type_allowed : Option (List Text) → Text → Bool
request_content_type_allowed none header = true
request_content_type_allowed (some []) header = true
request_content_type_allowed (some (t ∷ types)) header =
    if text_eq (media_type header) []
    then false
    else any (λ u. text_eq u (media_type header)) (t ∷ types)

-- What the contract's library answers: no route, or the content types of its route and whether the
-- request validates.
pub data Contract : Type 0 where
  no_route : Contract
  route : Option (List Text) → Bool → Contract

-- What the middleware does: it passes the request on, or answers 400 for the content type or for
-- the rest of the request.
pub data Verdict : Type 0 where
  passed content_type_refused invalid : Verdict

abbrev pub hold_against : Contract → Text → Verdict
hold_against no_route header = passed
hold_against (route types valid) header =
    if not (request_content_type_allowed types header)
    then content_type_refused
    else if not valid
    then invalid
    else passed

-- The handler of `OpenAPIValidation`.
unfoldable pub open_api_validation : Contract → Text → Text → Verdict
unfolding should_validate_open_api_request request_content_type_allowed
open_api_validation contract path header =
    if not (should_validate_open_api_request path) then passed else hold_against contract header
