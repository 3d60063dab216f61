-- ===== src/Tests/Requests.antt =====
-- Runs of the request path: the semaphore, the limiter, the limited body and the catalog's answers.
use audistro_provider.Prelude.{
  Option, some, if◌then◌else◌, ◌++◌, ◌+◌, ◌-◌, ◌*◌, ◌≤◌, ◌<◌, ◌≡◌, refl, ◌↔◌, ◌⊎◌, ◌≢◌, true, false,
  none, Text, codes, List, [], ◌∷◌, arith, text_eq,
}
use audistro_provider.Go.Int64.{pos}
use audistro_provider.Go.Time.{Instant, second}
use audistro_provider.Go.Map.{lookup}
use audistro_provider.Assets.RateLimit.{
  token, RateLimitConfig, Bucket, Limiter, new_limiter, allow, run,
}
use audistro_provider.Assets.RateLimit.Bound.{
  passed, passed-le-burst, allow_after_refill, allow-other,
}
use audistro_provider.Assets.BodyLimit.{Arrival, streaming, ended, new_body_reader, read_all}
use audistro_provider.Assets.BodyLimit.Prefix.{IsDelivered, read_all_limited}
use audistro_provider.Catalog.Client.{announce, answered, decoded, malformed, ok}
use audistro_provider.Catalog.Client.{Answered, announce-eq-none_iff}
use audistro_provider.Go.Strings.{ext, to_lower, contains_text, has_prefix}
use audistro_provider.Scanner.{is_asset_id}
use audistro_provider.Assets.Paths.{
  AssetRequest, accepted, prefix, parse_request, validate_asset_id, validate_filename,
  validate_extension,
}
use audistro_provider.Assets.Paths.Safety.{
  IsConfined, request_of, parse_request-accepted, parse_request_complete,
}
use audistro_provider.Assets.Cors.{handle_cors, set_cors_headers}
use audistro_provider.Assets.Cors
use audistro_provider.Assets.Cors.Allowed.{headers_of, of_list, allows, handle_cors-allows}
use audistro_provider.Assets.Serve.{
  signed, get, options, hybrid, Handler, World, absent, response, serve_http,
}
use audistro_provider.Assets.Serve.Sources.{IsSourced, serve_http-IsSourced}
use audistro_provider.Assets.Serve.Slots.{Leaves, IsSent, is_read, serve_http-Leaves}
use audistro_provider.Proxyguard.{
  Semaphore, new_semaphore, acquire, Traffic, Reach, here, next, arrive, idle, semaphore_bounds,
}

-- One request of two arrives, and is let in.
abbrev busy : Traffic
busy = record { semaphore = (acquire false (idle (pos 2)).semaphore).1; running = 0 + 1 }

one_runs : Reach (idle (pos 2)) busy
unfolding acquire new_semaphore
one_runs = next here (arrive (idle (pos 2)) false)

semaphore_example :
    (busy.running ≤ 2) × (((acquire false busy.semaphore).0 ≡ true) ↔ (busy.running < 2))
semaphore_example = semaphore_bounds 2 busy (omega arith) one_runs

abbrev client : Text
client = codes "10.0.0.1"

abbrev neighbour : Text
neighbour = codes "10.0.0.2"

abbrev slow : RateLimitConfig
slow = record { rps = pos 1; burst = pos 2 }

abbrev visits : List (Text × Instant)
visits = (client, 5) ∷ (neighbour, 6) ∷ (client, 7) ∷ (client, 9) ∷ []

passed_example :
    passed client visits (run (new_limiter slow) visits).0 * token
    ≤ (new_limiter slow).burst + (10 - 5) * (new_limiter slow).rps
passed_example = passed-le-burst slow client 5 10 visits (omega arith)

abbrev spent : Bucket
spent = record { tokens = 0; last = 5 }

abbrev known : Limiter
known = record { buckets = (client, spent) ∷ []; rps = 1; burst = 2 * token }

refill_example : (allow known client (5 + second)).0 ≡ true
unfolding lookup text_eq
refill_example = allow_after_refill known client (5 + second) spent refl (omega arith) (omega arith)

allow-other_example : (allow (allow known client 6).1 neighbour 7).0 ≡ (allow known neighbour 7).0
unfolding text_eq
allow-other_example = allow-other known client neighbour 6 7 refl

abbrev pieces : List Arrival
pieces =
    record { buffer = 4; ready = 2; connection = streaming }
    ∷ record { buffer = 4; ready = 9; connection = ended }
    ∷ []

body_example : IsDelivered (codes "abcdef") 3 (read_all (new_body_reader 3 (codes "abcdef")) pieces)
body_example = read_all_limited 3 (codes "abcdef") pieces (omega arith)

announce_example :
    (((announce (answered 204 decoded)).0 ≡ none)
      ↔ Answered
          (λ status body. (200 ≤ status) × (status < 300) × (body ≢ malformed))
          (answered 204 decoded))
    × (((announce (answered 204 decoded)).1.result ≡ ok) ↔ (
        ((announce (answered 204 decoded)).0 ≡ none)
        ⊎ Answered
            (λ status body. (status < 400) × ((status < 200) ⊎ (300 ≤ status)))
            (answered 204 decoded)))
announce_example = announce-eq-none_iff (answered 204 decoded)

-- The directory /srv, the file of a song, and a handler that looks there first.
abbrev root : List Text
root = codes "srv" ∷ []

abbrev segment : Text
segment = codes "seg1.ts"

segment_is_served : validate_extension segment ≡ some (codes ".ts")
unfolding validate_extension ext to_lower text_eq
segment_is_served = refl

segment_is_valid : validate_filename segment ≡ true
unfolding validate_filename contains_text has_prefix text_eq
segment_is_valid = refl

song_is_valid : validate_asset_id (codes "song") ≡ true
unfolding validate_asset_id is_asset_id
song_is_valid = refl

complete_example :
    parse_request root (prefix ++ codes "song" ++ b'/' ∷ segment)
    ≡ accepted (request_of root (codes "song") segment (codes ".ts"))
complete_example =
    parse_request_complete root (codes "song") segment (codes ".ts") song_is_valid segment_is_valid
      segment_is_served

accepted_example :
    IsConfined root
      (prefix ++ codes "song" ++ b'/' ∷ segment)
      (request_of root (codes "song") segment (codes ".ts"))
accepted_example =
    parse_request-accepted root (prefix ++ codes "song" ++ b'/' ∷ segment)
      (request_of root (codes "song") segment (codes ".ts")) complete_example

abbrev first_local : Handler
first_local = record {
  mode = hybrid;
  cors_enabled = false;
  assets_root = root;
  max_segment_bytes = pos 1000;
  has_proxy = true;
  hmac = true;
  has_signer = true;
}

abbrev remote : World
remote = record {
  opened = λ req. absent;
  signing = λ req. signed;
  upstream = λ req. response 200 (pos 500);
  cancelled = false;
}

abbrev two_slots : Option Semaphore
two_slots = some (record { held = 1; size = 2 })

serve_http-IsSourced_example :
    IsSourced first_local remote
      (codes "/assets/song/seg1.ts")
      (serve_http first_local remote get (codes "/assets/song/seg1.ts") two_slots).answer
serve_http-IsSourced_example =
    serve_http-IsSourced first_local remote get (codes "/assets/song/seg1.ts") two_slots

serve_http-Leaves_example :
    Leaves two_slots
      ((is_read get ≡ true)
        × ((req : AssetRequest) × (parse_request root (codes "/assets/song/seg1.ts") ≡ accepted req)
            × IsSent first_local remote two_slots req))
      (serve_http first_local remote get (codes "/assets/song/seg1.ts") two_slots)
serve_http-Leaves_example =
    serve_http-Leaves first_local remote get (codes "/assets/song/seg1.ts") two_slots

cors_example :
    (headers_of
        (handle_cors (of_list (codes "https://a, https://b") true) options (codes "https://b"))
      ≡ (if allows (codes "https://a, https://b") (codes "https://b")
          then set_cors_headers (codes "https://b") true
          else []))
    × ((handle_cors (of_list (codes "https://a, https://b") true) options (codes "https://b")
          ≡ Cors.answered 403 [])
        ↔ ((options ≡ options)
            × (allows (codes "https://a, https://b") (codes "https://b") ≡ false)))
cors_example = handle_cors-allows (codes "https://a, https://b") true options (codes "https://b")
