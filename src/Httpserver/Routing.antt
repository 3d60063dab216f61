-- ===== src/Httpserver/Routing.antt =====
-- The routes of internal/httpserver/server.go, and http.ServeMux on a path that is clean, as the mux
-- redirects to one that is not. No two routes match one path.
pub mod Closed
use audistro_provider.Prelude.{
  ℕ, ◌≡◌, refl, ◌≢◌, Bool, true, false, not, ◌&&◌, ◌||◌, Option, none, some, List, [], ◌∷◌, ◌++◌,
  Text, codes, all, text_eq, if◌then◌else◌, arith, Bool-cases, inl, inr,
}
use audistro_provider.Go.Strings.{has_prefix, has_suffix}
use audistro_provider.Config.{Config}

pub data Endpoint : Type 0 where
  metrics docs docs_tree open_api_yaml open_api_json healthz readyz rescan announce assets :
      Endpoint

pub record Route : Type 0 where
  pub method : Option Text
  pub path : Text
  pub endpoint : Endpoint

abbrev get : Text → Endpoint → Route
get path endpoint = record { method = some (codes "GET"); path = path; endpoint = endpoint }

abbrev pub post : Text → Endpoint → Route
post path endpoint = record { method = some (codes "POST"); path = path; endpoint = endpoint }

abbrev pub only_if : Bool → Route → List Route
only_if true r = r ∷ []
only_if false r = []

-- What NewWithDeps registers; the flags say whether there is a handler for the rescan and one for the
-- announcement.
unfoldable pub routes : Config → Bool → Bool → List Route
routes cfg has_rescan has_announce =
    get (codes "/metrics") metrics
    ∷ get (codes "/docs") docs
    ∷ get (codes "/docs/") docs_tree
    ∷ get (codes "/openapi.yaml") open_api_yaml
    ∷ get (codes "/openapi.json") open_api_json
    ∷ get (codes "/healthz") healthz
    ∷ get (codes "/readyz") readyz
    ∷ (only_if (cfg.internal_enable && has_rescan) (post (codes "/internal/rescan") rescan)
        ++ (only_if (cfg.internal_enable && has_announce)
              (post (codes "/internal/announce") announce)
            ++ (record { method = none; path = codes "/assets/"; endpoint = assets } ∷ [])))

-- A path that ends with a slash stands for all below it.
unfoldable pub matches_path : Route → Text → Bool
matches_path r path =
    if has_suffix r.path (codes "/") then has_prefix path r.path else text_eq path r.path

-- GET stands for HEAD too.
abbrev pub matches_method : Option Text → Text → Bool
matches_method none method = true
matches_method (some m) method =
    text_eq m method || (text_eq m (codes "GET") && text_eq method (codes "HEAD"))

pub data Routed : Type 0 where
  to : Endpoint → Routed
  not_found not_allowed : Routed

unfoldable pub dispatch : List Route → Text → Text → Routed
unfolding matches_path
dispatch [] method path = not_found
dispatch (r ∷ rs) method path =
    let rest = dispatch rs method path in
    if not (matches_path r path)
    then rest
    else if matches_method r.method method
    then to r.endpoint
    else not_allowed
