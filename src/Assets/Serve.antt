-- ===== src/Assets/Serve.antt =====
-- The dispatch of a request in internal/assets/handler.go: serveHTTP, TryServeLocal, ServeProxy and
-- what initProxy installs for the answer of the origin. The opened file, the answer of the origin
-- and the context of the request are arguments. Headers, ranges and log fields are left out.
pub mod Sources
pub mod Slots
pub mod Files
use audistro_provider.Prelude.{
  ℕ, Bool, true, false, not, ◌&&◌, ◌||◌, Option, none, some, List, [], ◌∷◌, Text, codes, ◌==◌, leb,
  ltb, text_eq, if◌then◌else◌,
}
use audistro_provider.Go.Int64.{ℤ, pos, ltb_ℤ}
use audistro_provider.Go.Strings.{to_lower, trim_space}
use audistro_provider.Assets.Paths.{AssetRequest, Parsed, accepted, refused, parse_request}
use audistro_provider.Proxyguard.{Semaphore, acquire, release}

pub data Method : Type 0 where
  get head options other : Method

pub data StorageMode : Type 0 where
  filesystem proxy hybrid : StorageMode

unfoldable pub normalize_storage_mode : Text → StorageMode
normalize_storage_mode mode =
    let m = to_lower (trim_space mode) in
    if text_eq m (codes "proxy")
    then proxy
    else if text_eq m (codes "hybrid")
    then hybrid
    else filesystem

unfoldable pub normalize_origin_auth_mode : Text → Bool
normalize_origin_auth_mode mode = text_eq (to_lower (trim_space mode)) (codes "hmac")

-- `has_proxy` says whether initProxy found an origin, `has_signer` whether the interface originSigner
-- is not nil; a nil pointer in it counts as a signer, whose Sign panics.
pub record Handler : Type 0 where
  pub mode : StorageMode
  pub cors_enabled : Bool
  pub assets_root : List Text
  pub max_segment_bytes : ℤ
  pub has_proxy : Bool
  pub hmac : Bool
  pub has_signer : Bool

-- What OpenFileNoSymlinks answers: a file of a size, or its error.
pub data Opened : Type 0 where
  file : ℤ → Opened
  absent symlink not_regular invalid_filename failed : Opened

-- What Sign does: it signs the request, returns an error or panics.
pub data Signing : Type 0 where
  signed sign_failed sign_panics : Signing

-- What the transport answers: `unsigned` where it has no signer, `unreachable` for every other error,
-- or a status with the announced length, which is negative where there is none.
pub data Upstream : Type 0 where
  unsigned unreachable : Upstream
  response : ℕ → ℤ → Upstream

-- Where the body of an answer comes from: the JSON of an error code, the 500 that the server makes of a
-- panic, a file of a size, or the origin, of an announced length and as it is or through the limit.
pub data Answer : Type 0 where
  error_json : ℕ → Text → Answer
  panicked : Answer
  local_file : ℤ → Answer
  relayed : ℕ → ℤ → Answer
  limited : ℕ → Answer

-- The answer, whether the origin was asked, and the semaphore afterwards.
pub record Outcome : Type 0 where
  pub answer : Answer
  pub asked : Bool
  pub semaphore : Option Semaphore

unfoldable pub is_segment_like : Text → Bool
is_segment_like e = text_eq e (codes ".ts") || text_eq e (codes ".m4s") || text_eq e (codes ".mp4")

abbrev pub is_bounded : Handler → AssetRequest → Bool
is_bounded h req = is_segment_like req.ext && ltb_ℤ (pos 0) h.max_segment_bytes

unfoldable pub write_error_status : ℕ → Answer
write_error_status status =
    if status == 400
    then error_json 400 (codes "invalid_request")
    else if status == 404
    then error_json 404 (codes "not_found")
    else if status == 413
    then error_json 413 (codes "segment_too_large")
    else error_json 500 (codes "internal_error")

-- `TryServeLocal`: the file, or the status of its error.
pub data Local : Type 0 where
  served : ℤ → Local
  unserved : ℕ → Local

unfoldable pub try_serve_local : Handler → AssetRequest → Opened → Local
try_serve_local h req (file size) =
    if is_bounded h req && ltb_ℤ h.max_segment_bytes size then unserved 413 else served size
try_serve_local h req absent = unserved 404
try_serve_local h req symlink = unserved 404
try_serve_local h req not_regular = unserved 404
try_serve_local h req invalid_filename = unserved 404
try_serve_local h req failed = unserved 500

-- ModifyResponse and ErrorHandler of `initProxy`.
unfoldable pub relay : Handler → AssetRequest → Upstream → Answer
relay h req unsigned = error_json 503 (codes "upstream_auth_unavailable")
relay h req unreachable = error_json 502 (codes "upstream_error")
relay h req (response status content_length) =
    if not (is_bounded h req)
    then relayed status content_length
    else if ltb_ℤ h.max_segment_bytes content_length
    then error_json 413 (codes "segment_too_large")
    else if ltb_ℤ content_length (pos 0)
    then limited status
    else relayed status content_length

abbrev pub without_upstream : Answer → Option Semaphore → Outcome
without_upstream answer sem = record { answer = answer; asked = false; semaphore = sem }

-- What signing does to a request, which is only tried in the mode hmac.
abbrev pub signing_of : Bool → Signing → Signing
signing_of false s = signed
signing_of true s = s

-- The request goes to the origin only when it is signed; an error of Sign is one of the transport.
unfoldable pub round_trip : Handler → AssetRequest → Signing → Upstream → Answer × Bool
unfolding relay
round_trip h req signed upstream = (relay h req upstream, true)
round_trip h req sign_failed upstream = (relay h req unreachable, false)
round_trip h req sign_panics upstream = (panicked, false)

-- The part of `ServeProxy` from the semaphore on, with its deferred release.
abbrev pub behind_semaphore :
    Handler → AssetRequest → Signing → Upstream → Bool × Option Semaphore → Outcome
behind_semaphore h req signing upstream (false, sem) =
    without_upstream (error_json 503 (codes "upstream_busy")) sem
behind_semaphore h req signing upstream (true, sem) =
    let (answer, asked) = round_trip h req (signing_of h.hmac signing) upstream in
    record { answer = answer; asked = asked; semaphore = release sem }

unfoldable pub serve_proxy :
    Handler → AssetRequest → Signing → Upstream → Bool → Option Semaphore → Outcome
unfolding round_trip
serve_proxy h req signing upstream cancelled sem =
    if not h.has_proxy
    then without_upstream (error_json 500 (codes "proxy_not_configured")) sem
    else if h.hmac && not h.has_signer
    then without_upstream (error_json 503 (codes "upstream_auth_unavailable")) sem
    else behind_semaphore h req signing upstream (acquire cancelled sem)

-- One request's surroundings: what the file system, the signer and the origin answer to it, and
-- whether its context is done when it reaches the semaphore.
pub record World : Type 0 where
  pub opened : AssetRequest → Opened
  pub signing : AssetRequest → Signing
  pub upstream : AssetRequest → Upstream
  pub cancelled : Bool

abbrev pub to_proxy : Handler → World → AssetRequest → Option Semaphore → Outcome
to_proxy h w req sem = serve_proxy h req (w.signing req) (w.upstream req) w.cancelled sem

abbrev pub of_local : Local → Option Semaphore → Outcome
of_local (served size) sem = without_upstream (local_file size) sem
of_local (unserved status) sem = without_upstream (write_error_status status) sem

-- The local file first; only a missing one goes on to the origin.
abbrev pub of_hybrid : Handler → World → AssetRequest → Local → Option Semaphore → Outcome
of_hybrid h w req (served size) sem = of_local (served size) sem
of_hybrid h w req (unserved status) sem =
    if not (status == 404) then of_local (unserved status) sem else to_proxy h w req sem

unfoldable pub serve_request :
    StorageMode → Handler → World → AssetRequest → Option Semaphore → Outcome
unfolding serve_proxy
serve_request proxy h w req sem = to_proxy h w req sem
serve_request hybrid h w req sem = of_hybrid h w req (try_serve_local h req (w.opened req)) sem
serve_request filesystem h w req sem = of_local (try_serve_local h req (w.opened req)) sem

abbrev pub of_parsed : Handler → World → Parsed → Option Semaphore → Outcome
of_parsed h w (refused status) sem = without_upstream (write_error_status status) sem
of_parsed h w (accepted req) sem = serve_request h.mode h w req sem

-- `serveHTTP`.
unfoldable pub serve_http : Handler → World → Method → Text → Option Semaphore → Outcome
unfolding serve_request
serve_http h w get path sem = of_parsed h w (parse_request h.assets_root path) sem
serve_http h w head path sem = of_parsed h w (parse_request h.assets_root path) sem
serve_http h w options path sem =
    without_upstream
      (if h.cors_enabled
        then error_json 403 (codes "cors_origin_forbidden")
        else error_json 404 (codes "not_found"))
      sem
serve_http h w other path sem = without_upstream (error_json 405 (codes "method_not_allowed")) sem
