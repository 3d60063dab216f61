-- ===== src/Assets/RateLimit.antt =====
-- internal/assets/ratelimit.go: a token bucket for each client address.
-- Tokens are counted in units of 10 ^ -9, in which a refill of `elapsed` nanoseconds at `rps` tokens
-- a second is the whole number `elapsed * rps`: the arithmetic of the program's float64 without its
-- rounding. The mutex makes a call of `allow` one step.
pub mod Bound
use audistro_provider.Prelude.{
  ℕ, ◌+◌, ◌-◌, ◌*◌, ◌≤◌, ◌<◌, Bool, true, false, Option, none, some, List, [], ◌∷◌, Text, ltb,
  text_eq, if◌then◌else◌,
}
use audistro_provider.Go.Int64.{ℤ, pos, ltb_ℤ, pos_part}
use audistro_provider.Go.Time.{Instant}
use audistro_provider.Go.Map.{Map, lookup, insert}

abbrev pub token : ℕ
token = 1_000_000_000

pub record RateLimitConfig : Type 0 where
  pub rps : ℤ
  pub burst : ℤ

pub record Bucket : Type 0 where
  pub tokens : ℕ
  pub last : Instant

-- `rps` in tokens a second, `burst` in units of tokens.
pub record Limiter : Type 0 where
  pub buckets : Map Bucket
  pub rps : ℕ
  pub burst : ℕ

-- max(1, n).
abbrev at_least_one : ℤ → ℕ
at_least_one n = if ltb_ℤ n (pos 1) then 1 else pos_part n

unfoldable pub new_limiter : RateLimitConfig → Limiter
new_limiter cfg = record {
  buckets = [];
  rps = at_least_one cfg.rps;
  burst = at_least_one cfg.burst * token;
}

abbrev pub min_of : ℕ → ℕ → ℕ
min_of a b = if ltb a b then a else b

unfoldable pub refill : Limiter → Instant → Bucket → Bucket
refill l now b =
    if ltb b.last now
    then record { tokens = min_of l.burst (b.tokens + (now - b.last) * l.rps); last = now }
    else b

abbrev spend : Bucket → Bool × Bucket
spend b = if ltb b.tokens token then (false, b) else (true, record b { tokens = b.tokens - token })

-- What `allow` decides and stores for the client's bucket, if there is one.
unfoldable pub serve_bucket : Limiter → Instant → Option Bucket → Bool × Bucket
unfolding refill
serve_bucket l now none = (true, record { tokens = l.burst - token; last = now })
serve_bucket l now (some b) = spend (refill l now b)

unfoldable pub allow : Limiter → Text → Instant → Bool × Limiter
unfolding serve_bucket
allow l ip now =
    let (allowed, b) = serve_bucket l now (lookup ip l.buckets) in
    (allowed, record l { buckets = insert ip b l.buckets })

abbrev or_whole : Text → Option Text → Text
or_whole addr none = addr
or_whole addr (some host) = host

-- clientIP, with net.SplitHostPort as an argument.
unfoldable pub client_ip : (Text → Option Text) → Text → Text
client_ip split_host remote_addr = or_whole remote_addr (split_host remote_addr)

-- The handler of the middleware: whether it passes a request from the address on, or answers 429.
unfoldable pub serve_limited : (Text → Option Text) → Limiter → Text → Instant → Bool × Limiter
unfolding allow client_ip
serve_limited split_host l remote_addr now = allow l (client_ip split_host remote_addr) now

-- A run of the limiter over requests: the client's address and the clock's reading.
unfoldable pub run : Limiter → List (Text × Instant) → List Bool × Limiter
run l [] = ([], l)
run l ((ip, now) ∷ requests) =
    let (allowed, l') = allow l ip now in
    let (answers, end) = run l' requests in (allowed ∷ answers, end)
